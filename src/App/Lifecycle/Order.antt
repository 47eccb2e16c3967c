-- ===== src/App/Lifecycle/Order.antt =====
-- In which order the handlers of an application and of its routers run.
use mathlib.Core.List.{reverse, reverse-append}
use fastapi_turbo.Prelude.{◌≡◌, refl, ◌∙◌, sym, ◌++◌, append_assoc, append-nil}
use fastapi_turbo.App.Lifecycle.{
  Router, router, Routers, nil, cons, App, startup_walk, startup_walks, shutdown_walk,
  shutdown_walks, collect_startup_handlers, collect_shutdown_handlers,
}

abbrev pub snoc : Routers → Router → Routers
snoc nil r = cons r nil
snoc (cons q rs) r = cons q (snoc rs r)

-- The same tree with the routers that stand side by side in the opposite order, and with handlers
-- that undo, last first, what each router's startup handlers did.
abbrev mutual
  pub mirror : Router → Router
  mirror (router up down life rs) = router up (reverse up) life (mirrors rs)

  pub mirrors : Routers → Routers
  mirrors nil = nil
  mirrors (cons r rs) = snoc (mirrors rs) (mirror r)

abbrev pub mirror_app : {Exc : Type 0} → App Exc → App Exc
mirror_app app = record app {
  on_shutdown = reverse app.on_startup;
  root = mirror app.root;
  included = mirrors app.included;
}

shutdown_walks-snoc :
    (rs : Routers) (r : Router) → shutdown_walks (snoc rs r) ≡ shutdown_walks rs ++ shutdown_walk r
shutdown_walks-snoc nil r = append-nil (shutdown_walk r)
shutdown_walks-snoc (cons q rs) r = simp (shutdown_walks-snoc rs r, append_assoc)

mutual
  shutdown_walk-mirror : (r : Router) → shutdown_walk (mirror r) ≡ reverse (startup_walk r)
  shutdown_walk-mirror (router up down life rs) =
      rw (shutdown_walks-mirrors rs) (sym (reverse-append up (startup_walks rs)))

  shutdown_walks-mirrors : (rs : Routers) → shutdown_walks (mirrors rs) ≡ reverse (startup_walks rs)
  shutdown_walks-mirrors nil = refl
  shutdown_walks-mirrors (cons r rs) =
      shutdown_walks-snoc (mirrors rs) (mirror r)
      ∙ rw (shutdown_walks-mirrors rs, shutdown_walk-mirror r)
          (sym (reverse-append (startup_walk r) (startup_walks rs)))

-- Take any application, and turn round every row of routers that stand side by side; give each router,
-- and the application, shutdown handlers that undo its startup handlers, last first. Then the shutdown
-- handlers run in exactly the reverse of the startup order of the application as it was.
pub collect_shutdown_handlers-mirror :
    {Exc : Type 0} (app : App Exc)
    → collect_shutdown_handlers (mirror_app app) ≡ reverse (collect_startup_handlers app)
unfolding collect_shutdown_handlers collect_startup_handlers
collect_shutdown_handlers-mirror app =
    rw (shutdown_walks-mirrors app.included, shutdown_walk-mirror app.root)
      (simp (reverse-append, append_assoc))
