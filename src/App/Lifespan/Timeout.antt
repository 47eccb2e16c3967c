-- ===== src/App/Lifespan/Timeout.antt =====
-- What a shutdown whose time elapsed leaves to the next startup.
use mathlib.Core.List.{reverse}
use fastapi_turbo.Prelude.{ℕ, ◌≡◌, ap, ◌∙◌, List, [], ◌∷◌, map, Option, none, some, take}
use fastapi_turbo.App.Lifecycle.{raised, run_shutdown_handlers}
use fastapi_turbo.App.Lifespan.{
  Event, exiting, Hooks, Site, shutdown, Session, shutdown_failed, answer_shutdown, exit_all,
  exit_in_time, exit_entered, run_lifespan_startup, run_lifespan_shutdown, handlers, and_then,
  try_shutdown, asgi_lifespan, Run,
}
use fastapi_turbo.App.Lifecycle.{returned, not_started}
use fastapi_turbo.App.Lifespan.Exits.{exit_all_lem}
use fastapi_turbo.App.Lifespan.Retry.{run_lifespan_startup-held}

module _ {Exc : Type 0} where
  run_lifespan_shutdown-times_out :
      (hooks : Hooks Exc) (site : Site Exc) (c : ℕ) (cms : List ℕ) (n : ℕ) (e : Exc)
      → site.lifespan_cms ≡ c ∷ cms
      → hooks.exit_timeout ≡ some (n, e)
      → run_lifespan_shutdown hooks site
        ≡ (take n (map exiting (reverse (c ∷ cms))), raised e, site)
  unfolding run_lifespan_shutdown
  run_lifespan_shutdown-times_out hooks site c cms n e held t =
      ap (λ ls. exit_entered hooks ls site) held
      ∙ ap (exit_in_time (exit_all hooks.exits none (reverse (c ∷ cms))) site) t
      ∙ ap (λ (r : List Event × Option Exc). (take n r.0, raised e, site))
          (exit_all_lem hooks.exits none (reverse (c ∷ cms)))

  -- Take an application that holds context managers, and let the worker's time elapse in the `n`th
  -- call of `__aexit__` of a shutdown. The shutdown is answered as failed with the timeout; only the
  -- `n` lifespans entered last are left; no shutdown handler runs; and although the application counts
  -- as not started, it goes on holding all of its context managers: the next startup enters no
  -- lifespan, whatever they would do by then, and returns.
  pub asgi_lifespan-times_out :
      (hooks later : Hooks Exc) (site : Site Exc) (c : ℕ) (cms : List ℕ) (n : ℕ) (e : Exc)
      → site.lifespan_cms ≡ c ∷ cms
      → hooks.exit_timeout ≡ some (n, e)
      → let s = asgi_lifespan ((shutdown, hooks) ∷ []) site in
        (s.replies ≡ shutdown_failed (raised e) ∷ [])
        × (s.events ≡ take n (map exiting (reverse (c ∷ cms))))
        × (s.site.app.state ≡ not_started)
        × (s.site.lifespan_cms ≡ c ∷ cms)
        × (run_lifespan_startup later s.site ≡ ([], returned, s.site))
  unfolding asgi_lifespan try_shutdown
  asgi_lifespan-times_out hooks later site c cms n e held t =
      let s = asgi_lifespan ((shutdown, hooks) ∷ []) site in
      let p =
        ap
          (λ (r : Run Exc).
            answer_shutdown (
              and_then r
                (λ exited. handlers (run_shutdown_handlers hooks.calls exited.app) exited)))
          (run_lifespan_shutdown-times_out hooks site c cms n e held t) in
      let still : s.site.lifespan_cms ≡ c ∷ cms =
        ap (λ (u : Session Exc). u.site.lifespan_cms) p ∙ held in
      (
        ap (λ (u : Session Exc). u.replies) p,
        ap (λ (u : Session Exc). u.events) p,
        ap (λ (u : Session Exc). u.site.app.state) p,
        still,
        run_lifespan_startup-held later [] cms c s.site still,
      )
