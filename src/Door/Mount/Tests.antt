-- ===== src/Door/Mount/Tests.antt =====
-- A callable at `/s/`, an `APIRouter` at `/s/t`, and a route `/s` of the application's own.
use fastapi_turbo.Prelude.{
  ℕ, some, List, ◌≤◌, arith, ◌≡◌, refl, true, [], ◌∷◌, ◌++◌, same, startswith, rstrip_slash,
}
use fastapi_turbo.Door.Mount.{
  api_router, callable, Mount, plain, Route, Scope, unhandled, handled, sub_path, sub_scope,
  asgi_try_http_mount, under, latin_1, top_level_hit, top_level_hit_beside, try_mounts, hits,
  try_mount_routes,
}
use fastapi_turbo.App.Exceptions.{Exc}
use fastapi_turbo.Door.Mount.Render.{
  Message, start, other, Ended, exception, http_exception, started, asgi_call_mounted, Proper,
  asgi_call_mounted-Proper,
}
use fastapi_turbo.Door.Mount.Prefix.{Within, asgi_try_http_mount-Within}
use fastapi_turbo.Door.Mount.First.{asgi_try_http_mount-first, asgi_try_http_mount-shadowed}

abbrev sub : Mount
sub = record { path = 47 ∷ 115 ∷ 47 ∷ []; app = callable 1 }

abbrev deep : Mount
deep = record { path = 47 ∷ 115 ∷ 47 ∷ 116 ∷ []; app = api_router 2 }

abbrev own : Route
own = record { path = 47 ∷ 115 ∷ []; methods = (71 ∷ []) ∷ []; shape = plain }

-- `/s/t`, `/st` and `/s`.
abbrev scope : Scope
scope = record { path = 47 ∷ 115 ∷ 47 ∷ 116 ∷ []; method = 71 ∷ []; root_path = 47 ∷ 114 ∷ [] }

abbrev beside : Scope
beside = record scope { path = 47 ∷ 115 ∷ 116 ∷ [] }

abbrev whole : Scope
whole = record scope { path = 47 ∷ 115 ∷ [] }

abbrev below : Scope
below = record scope { path = 47 ∷ 116 ∷ []; root_path = 47 ∷ 114 ∷ 47 ∷ 115 ∷ [] }

lands : asgi_try_http_mount (sub ∷ deep ∷ []) (own ∷ []) scope ≡ handled (callable 1) below
unfolding asgi_try_http_mount try_mounts rstrip_slash under same startswith top_level_hit latin_1
    sub_path sub_scope
lands = refl

not_subway : asgi_try_http_mount (sub ∷ deep ∷ []) (own ∷ []) beside ≡ unhandled
unfolding asgi_try_http_mount try_mounts rstrip_slash under same startswith try_mount_routes
not_subway = refl

mounted_example : Within scope below
mounted_example =
    asgi_try_http_mount-Within (sub ∷ deep ∷ []) (own ∷ []) scope below (callable 1) lands

hit : top_level_hit_beside whole (own ∷ []) ≡ true
unfolding top_level_hit_beside hits same
hit = refl

shadowed_example : asgi_try_http_mount (sub ∷ deep ∷ []) (own ∷ []) whole ≡ unhandled
shadowed_example = asgi_try_http_mount-shadowed (sub ∷ deep ∷ []) (own ∷ []) whole hit

first_example :
    asgi_try_http_mount
      ((deep ∷ []) ++ sub ∷ [])
      (own ∷ [])
      (record scope { path = 47 ∷ 115 ∷ 47 ∷ [] })
    ≡ handled
        (callable 1)
        (sub_scope (record scope { path = 47 ∷ 115 ∷ 47 ∷ [] }) (rstrip_slash (47 ∷ 115 ∷ 47 ∷ [])))
unfolding under rstrip_slash same startswith top_level_hit latin_1 sub_path
first_example =
    asgi_try_http_mount-first (deep ∷ []) [] sub 1 (own ∷ [])
      (record scope { path = 47 ∷ 115 ∷ 47 ∷ [] }) (refl, tt) refl refl refl refl

-- The handler answers, and then raises the exception again as another one.
abbrev answer : ℕ → Exc → List Message × Ended
answer h e = (start ∷ other ∷ [], exception h)

abbrev missing : Exc
missing = record { type = 5; parents = []; status_code = some 404 }

abbrev raising : List Message × Ended
raising = (other ∷ [], http_exception missing)

one_le : 1 ≤ 1
one_le = omega arith

none_le : 0 ≤ 1
none_le = omega arith

begun : started (start ∷ other ∷ []) ≡ true
unfolding started
begun = refl

render_example : Proper (asgi_call_mounted answer 0 [] raising)
render_example = asgi_call_mounted-Proper answer 0 [] raising none_le (λ h e. one_le) (λ h e. begun)
