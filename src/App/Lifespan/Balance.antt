-- ===== src/App/Lifespan/Balance.antt =====
-- What one session enters it leaves, and a session that answered the shutdown leaves an application
-- that can be started again.
use mathlib.Core.Bool.{false≢true}
use mathlib.Core.List.{reverse}
use fastapi_turbo.Prelude.{
  ℕ, ◌≡◌, refl, sym, ap, ◌∙◌, Bool, true, false, List, [], ◌∷◌, ◌++◌, map, append-nil, append_assoc,
  Option, none, some, if◌then◌else◌, All,
}
use fastapi_turbo.App.Lifecycle.{
  App, not_started, Ended, returned, earlier_failure, reentrant, raised, run_shutdown_handlers,
  finish_shutdown, call_all, collect_shutdown_handlers,
}
use fastapi_turbo.App.Lifespan.{
  run_lifespan_shutdown, handlers, and_then, Event, calling, Hooks, Site, Run, Message, startup,
  shutdown, other, Reply, startup_complete, startup_failed, shutdown_complete, shutdown_failed,
  Session, answer_startup, answer_shutdown, try_startup, try_shutdown, asgi_lifespan,
}
use fastapi_turbo.App.Lifespan.Exits.{run_lifespan_shutdown-exits}
use fastapi_turbo.App.Lifespan.Opened.{
  entered, exited, entered-append, exited-append, exited-calling, entered-calling, exited-exiting,
  entered-exiting, Opened, try_startup-Opened,
}

reverse-none : (cms es : List ℕ) → es ≡ [] → reverse cms ≡ reverse (cms ++ es)
reverse-none cms es q = ap reverse (sym (ap (λ xs. cms ++ xs) q ∙ append-nil cms))

module _ {Exc : Type 0} where
  -- A shutdown was answered.
  abbrev pub shut : List (Reply Exc) → Bool
  shut [] = false
  shut (shutdown_complete ∷ rs) = true
  shut (shutdown_failed e ∷ rs) = true
  shut (startup_complete ∷ rs) = shut rs
  shut (startup_failed e ∷ rs) = shut rs

  -- The worker's time does not elapse while the lifespans are left.
  abbrev pub InTime : Message × Hooks Exc → Type 0
  InTime (message, hooks) = hooks.exit_timeout ≡ none

  -- What a shutdown that began with these context managers has to show.
  abbrev Closed : List ℕ → Run Exc → Type 0
  Closed cms r = (exited r.0 ≡ reverse cms) × (entered r.0 ≡ []) × (r.2.lifespan_cms ≡ [])

  and_then-Closed :
      (cms : List ℕ) (r : Run Exc) (next : Site Exc → List ℕ × Ended Exc × App Exc)
      → Closed cms r
      → Closed cms (and_then r (λ site. handlers (next site) site))
  and_then-Closed cms (ran, returned, site) next h =
      let hs = (next site).0 in
      (
        exited-append ran (map calling hs) ∙ rw (exited-calling hs) (append-nil (exited ran) ∙ h.0),
        entered-append ran (map calling hs) ∙ rw (entered-calling hs, h.1) refl,
        h.2,
      )
  and_then-Closed cms (ran, raised e, site) next h = h
  and_then-Closed cms (ran, earlier_failure, site) next h = h
  and_then-Closed cms (ran, reentrant, site) next h = h

  run_lifespan_shutdown-Closed :
      (hooks : Hooks Exc) (site : Site Exc)
      → hooks.exit_timeout ≡ none
      → Closed site.lifespan_cms (run_lifespan_shutdown hooks site)
  run_lifespan_shutdown-Closed hooks site t =
      let e = run_lifespan_shutdown-exits hooks site t in
      let cs = reverse site.lifespan_cms in
      (
        ap (λ (r : Run Exc). exited r.0) e ∙ exited-exiting cs,
        ap (λ (r : Run Exc). entered r.0) e ∙ entered-exiting cs,
        ap (λ (r : Run Exc). r.2.lifespan_cms) e,
      )

  try_shutdown-Closed :
      (hooks : Hooks Exc) (site : Site Exc)
      → hooks.exit_timeout ≡ none
      → Closed site.lifespan_cms (try_shutdown hooks site)
  unfolding try_shutdown
  try_shutdown-Closed hooks site t =
      and_then-Closed site.lifespan_cms (run_lifespan_shutdown hooks site)
        (λ exited. run_shutdown_handlers hooks.calls exited.app)
        (run_lifespan_shutdown-Closed hooks site t)

  -- The context managers of a session that began with some of them held.
  abbrev Balanced : List ℕ → Session Exc → Type 0
  Balanced cms s =
      exited s.events ≡ (if shut s.replies then reverse (cms ++ entered s.events) else [])

  answer_startup-Balanced :
      (cms : List ℕ) (r : Run Exc) (rest : Site Exc → Session Exc)
      → Opened cms r
      → ((site : Site Exc) → Balanced site.lifespan_cms (rest site))
      → Balanced cms (answer_startup r rest)
  answer_startup-Balanced cms (ran, returned, site) rest h next =
      let es = (rest site).events in
      let q : site.lifespan_cms ++ entered es ≡ cms ++ entered (ran ++ es) =
        ap (λ xs. xs ++ entered es) (h.1 refl)
        ∙ append_assoc cms (entered ran) (entered es)
        ∙ sym (ap (λ xs. cms ++ xs) (entered-append ran es)) in
      exited-append ran es
      ∙ rw (h.0) (next site)
      ∙ ap (λ ls. if shut (rest site).replies then reverse ls else []) q
  answer_startup-Balanced cms (ran, raised e, site) rest h next = h.0
  answer_startup-Balanced cms (ran, earlier_failure, site) rest h next = h.0
  answer_startup-Balanced cms (ran, reentrant, site) rest h next = h.0

  answer_shutdown-Balanced :
      (cms : List ℕ) (r : Run Exc) → Closed cms r → Balanced cms (answer_shutdown r)
  answer_shutdown-Balanced cms (ran, returned, site) h = h.0 ∙ reverse-none cms (entered ran) h.1
  answer_shutdown-Balanced cms (ran, raised e, site) h = h.0 ∙ reverse-none cms (entered ran) h.1
  answer_shutdown-Balanced cms (ran, earlier_failure, site) h =
      h.0 ∙ reverse-none cms (entered ran) h.1
  answer_shutdown-Balanced cms (ran, reentrant, site) h = h.0 ∙ reverse-none cms (entered ran) h.1

  asgi_lifespan-Balanced :
      (ms : List (Message × Hooks Exc)) (site : Site Exc)
      → All InTime ms
      → Balanced site.lifespan_cms (asgi_lifespan ms site)
  unfolding asgi_lifespan
  asgi_lifespan-Balanced [] site t = refl
  asgi_lifespan-Balanced ((startup, hooks) ∷ ms) site t =
      answer_startup-Balanced site.lifespan_cms (try_startup hooks site) (asgi_lifespan ms)
        (try_startup-Opened hooks site) (λ s. asgi_lifespan-Balanced ms s t.1)
  asgi_lifespan-Balanced ((shutdown, hooks) ∷ ms) site t =
      answer_shutdown-Balanced site.lifespan_cms (try_shutdown hooks site)
        (try_shutdown-Closed hooks site t.0)
  asgi_lifespan-Balanced ((other, hooks) ∷ ms) site t = asgi_lifespan-Balanced ms site t.1

  -- Take an application that holds no context managers, any messages, and any behaviour of its code,
  -- but let no time elapse while the lifespans are left. If the session answered a shutdown, as complete or as failed, it called `__aexit__` on exactly the
  -- lifespans it had called `__aenter__` on, once each and in the reverse order; if not, on none.
  pub asgi_lifespan-balanced :
      (ms : List (Message × Hooks Exc)) (site : Site Exc)
      → site.lifespan_cms ≡ []
      → All InTime ms
      → let s = asgi_lifespan ms site in
        exited s.events ≡ (if shut s.replies then reverse (entered s.events) else [])
  asgi_lifespan-balanced ms site c t =
      asgi_lifespan-Balanced ms site t
      ∙ ap
          (λ cms.
            if shut (asgi_lifespan ms site).replies
            then reverse (cms ++ entered (asgi_lifespan ms site).events)
            else [])
          c

  -- What an answered shutdown leaves.
  abbrev pub Restartable : Site Exc → Type 0
  Restartable site =
      (site.app.state ≡ not_started) × (site.app.failure ≡ none) × (site.lifespan_cms ≡ [])

  finish_shutdown-Restartable :
      (r : List ℕ × Option Exc) (app : App Exc) (ran : List Event) (site : Site Exc)
      → site.lifespan_cms ≡ []
      → Restartable
          (answer_shutdown
            (and_then (ran, returned, site) (λ s. handlers (finish_shutdown r app) s))).site
  finish_shutdown-Restartable (hs, none) app ran site c = (refl, refl, c)
  finish_shutdown-Restartable (hs, some e) app ran site c = (refl, refl, c)

  answer_shutdown-Restartable :
      (hooks : Hooks Exc) (r : Run Exc)
      → r.2.lifespan_cms ≡ []
      → Restartable
          (answer_shutdown
            (and_then r (λ s. handlers (run_shutdown_handlers hooks.calls s.app) s))).site
  unfolding run_shutdown_handlers
  answer_shutdown-Restartable hooks (ran, returned, site) c =
      finish_shutdown-Restartable (call_all hooks.calls (collect_shutdown_handlers site.app))
        site.app ran site c
  answer_shutdown-Restartable hooks (ran, raised e, site) c = (refl, refl, c)
  answer_shutdown-Restartable hooks (ran, earlier_failure, site) c = (refl, refl, c)
  answer_shutdown-Restartable hooks (ran, reentrant, site) c = (refl, refl, c)

  answer_startup-Restartable :
      (r : Run Exc) (rest : Site Exc → Session Exc)
      → ((site : Site Exc) → shut (rest site).replies ≡ true → Restartable (rest site).site)
      → shut (answer_startup r rest).replies ≡ true
      → Restartable (answer_startup r rest).site
  answer_startup-Restartable (ran, returned, site) rest h q = h site q
  answer_startup-Restartable (ran, raised e, site) rest h q = absurd (false≢true q)
  answer_startup-Restartable (ran, earlier_failure, site) rest h q = absurd (false≢true q)
  answer_startup-Restartable (ran, reentrant, site) rest h q = absurd (false≢true q)

  -- Let no time elapse while the lifespans are left. If a session answered a shutdown, as complete or as
  -- failed, then whatever the application was and whatever its code raised, the application is as if it had not been started: its state is
  -- `not_started`, no failure is recorded, and it holds no context managers.
  pub asgi_lifespan-Restartable :
      (ms : List (Message × Hooks Exc)) (site : Site Exc)
      → All InTime ms
      → shut (asgi_lifespan ms site).replies ≡ true
      → Restartable (asgi_lifespan ms site).site
  unfolding asgi_lifespan try_shutdown
  asgi_lifespan-Restartable [] site t q = absurd (false≢true q)
  asgi_lifespan-Restartable ((startup, hooks) ∷ ms) site t q =
      answer_startup-Restartable (try_startup hooks site) (asgi_lifespan ms)
        (λ s. asgi_lifespan-Restartable ms s t.1) q
  asgi_lifespan-Restartable ((shutdown, hooks) ∷ ms) site t q =
      answer_shutdown-Restartable hooks (run_lifespan_shutdown hooks site)
        (run_lifespan_shutdown-Closed hooks site t.0).2
  asgi_lifespan-Restartable ((other, hooks) ∷ ms) site t q = asgi_lifespan-Restartable ms site t.1 q
