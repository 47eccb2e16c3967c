-- ===== src/Middleware/Registry/Tests.antt =====
-- Sentry's class, a decorated function, a layer of the server and an ASGI class.
use mathlib.Core.List.{reverse}
use fastapi_turbo.Prelude.{ℕ, ◌≡◌, refl, true, false, List, [], ◌∷◌, ◌++◌, ◌&&◌, if◌then◌else◌}
use fastapi_turbo.Middleware.Registry.{
  asgi, tower, Addition, Entry, fresh, add_middleware, decorate, Op, add, decorates, run, others,
  sentries, asgi_oneshot_http_with_mw, keep_sentry_outermost, add_middleware_impl,
}
use fastapi_turbo.Middleware.Registry.Sentry.{registered, add_middleware-outermost}
use fastapi_turbo.Middleware.Registry.Outer.{any_asgi, any_layer, asgi_oneshot_http_with_mw-outer}

abbrev sentry : Addition
sentry = record { cls = 1; kind = asgi; sentry = true; with_args = false; builds = true }

abbrev cors : Addition
cors = record { cls = 2; kind = tower; sentry = false; with_args = false; builds = true }

abbrev limits : Addition
limits = record { cls = 3; kind = asgi; sentry = false; with_args = false; builds = true }

abbrev ops : List Op
ops = add sentry ∷ decorates 4 ∷ add cors ∷ decorates 5 ∷ []

outermost_example :
    (add_middleware limits (run ops fresh)).http_middlewares
    ≡ others (registered ops ++ record { cls = 3; sentry = false } ∷ [])
      ++ sentries (registered ops ++ record { cls = 3; sentry = false } ∷ [])
outermost_example = add_middleware-outermost ops limits

abbrev entry : ℕ → Entry
entry c = record { cls = c; sentry = false }

-- A function that is decorated last stands outside Sentry's middleware.
buried :
    (run (add sentry ∷ decorates 4 ∷ []) fresh).http_middlewares
    ≡ record { cls = 1; sentry = true } ∷ entry 4 ∷ []
unfolding run add_middleware keep_sentry_outermost add_middleware_impl others sentries decorate
buried = refl

-- CORS is class 20 in Starlette.
abbrev resolve : ℕ → List ℕ
resolve c = 20 ∷ []

outer_example :
    asgi_oneshot_http_with_mw resolve (run ops fresh)
    ≡ (if any_asgi ops && any_layer ops then reverse (1 ∷ 20 ∷ []) else [])
outer_example = asgi_oneshot_http_with_mw-outer resolve ops
