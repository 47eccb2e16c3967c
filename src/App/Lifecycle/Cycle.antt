-- ===== src/App/Lifecycle/Cycle.antt =====
-- Startup runs once for each cycle, and an application whose startup failed stays failed.
use fastapi_turbo.Prelude.{
  ℕ, ◌+◌, ◌≤◌, ◌≡◌, refl, ap, ◌∙◌, List, [], ◌∷◌, ◌++◌, Option, none, some, arith, All,
}
use fastapi_turbo.App.Lifecycle.{
  App, StartupState, not_started, running, started, failed, Ended, returned, earlier_failure,
  raised, Run, call_all, call_next, collect_startup_handlers, finish_startup, finish_shutdown,
  startup_from, run_startup_handlers, run_shutdown_handlers, collect_shutdown_handlers,
}

-- One call of either kind, with what the handlers do at that time.
pub data Call (Exc : Type 0) : Type 0 where
  start stop : (ℕ → Option Exc) → Call Exc

-- A startup call may run the handlers in the state `not_started` only.
abbrev pub fires : StartupState → ℕ
fires not_started = 1
fires _ = 0

-- Whether any handler was called.
abbrev pub called : List ℕ → ℕ
called [] = 0
called (h ∷ hs) = 1

called_le : (hs : List ℕ) → called hs ≤ 1
called_le [] = omega arith
called_le (h ∷ hs) = omega arith

module _ {Exc : Type 0} where
  call_all-raises :
      (raises : ℕ → Option Exc) (before after : List ℕ) (h : ℕ) (e : Exc)
      → All (λ g. raises g ≡ none) before
      → raises h ≡ some e
      → call_all raises (before ++ h ∷ after) ≡ (before ++ h ∷ [], some e)
  unfolding call_all
  call_all-raises raises [] after h e quiet x = ap (call_next h (call_all raises after)) x
  call_all-raises raises (g ∷ before) after h e quiet x =
      ap (call_next g (call_all raises (before ++ h ∷ after))) quiet.0
      ∙ ap (λ (r : List ℕ × Option Exc). (g ∷ r.0, r.1))
          (call_all-raises raises before after h e quiet.1 x)

  startup-failed :
      (later : ℕ → Option Exc) (app : App Exc)
      → app.state ≡ failed
      → run_startup_handlers later app ≡ ([], earlier_failure, app)
  unfolding run_startup_handlers
  startup-failed later app e = ap (λ s. startup_from later s app) e

  -- The application after further startup calls.
  abbrev pub restarted : List (ℕ → Option Exc) → App Exc → App Exc
  restarted [] app = app
  restarted (raises ∷ laters) app = restarted laters (run_startup_handlers raises app).2

  restarted-failed :
      (laters : List (ℕ → Option Exc)) (app : App Exc)
      → app.state ≡ failed
      → restarted laters app ≡ app
  restarted-failed [] app e = refl
  restarted-failed (raises ∷ laters) app e =
      ap (λ (r : Run Exc). restarted laters r.2) (startup-failed raises app e)
      ∙ restarted-failed laters app e

  -- On the first startup the handlers run in order up to the first that raises. That exception leaves
  -- the call, and the application is failed. Any startup call behind it, with no shutdown between, and
  -- with any number of startup calls between, runs no handler, whatever the handlers would do by then,
  -- is refused, and changes nothing.
  pub run_startup_handlers-fails :
      (raises later : ℕ → Option Exc) (laters : List (ℕ → Option Exc)) (app : App Exc)
      (before after : List ℕ) (h : ℕ) (e : Exc)
      → app.state ≡ not_started
      → collect_startup_handlers app ≡ before ++ h ∷ after
      → All (λ g. raises g ≡ none) before
      → raises h ≡ some e
      → let run = run_startup_handlers raises app in
        let again = run_startup_handlers later (restarted laters run.2) in
        (run.0 ≡ before ++ h ∷ [])
        × (run.1 ≡ raised e)
        × (run.2.state ≡ failed)
        × (again ≡ ([], earlier_failure, run.2))
  unfolding run_startup_handlers
  run_startup_handlers-fails raises later laters app before after h e n c quiet x =
      let app' = record app { state = failed; failure = some e } in
      let q : run_startup_handlers raises app ≡ (before ++ h ∷ [], raised e, app') =
        ap (λ s. startup_from raises s app) n
        ∙ ap (λ hs. finish_startup (call_all raises hs) (record app { state = running })) c
        ∙ ap (λ r. finish_startup r (record app { state = running }))
            (call_all-raises raises before after h e quiet x) in
      let run = run_startup_handlers raises app in
      (
        ap (λ (r : Run Exc). r.0) q,
        ap (λ (r : Run Exc). r.1) q,
        ap (λ (r : Run Exc). r.2.state) q,
        ap (run_startup_handlers later)
              (restarted-failed laters run.2 (ap (λ (r : Run Exc). r.2.state) q))
            ∙ startup-failed later run.2 (ap (λ (r : Run Exc). r.2.state) q),
      )

  abbrev after_call : Call Exc → App Exc → App Exc
  after_call (start raises) app = (run_startup_handlers raises app).2
  after_call (stop raises) app = (run_shutdown_handlers raises app).2

  abbrev clean : Ended Exc → ℕ
  clean returned = 1
  clean _ = 0

  -- The startup calls of a history that called a handler, and the shutdown calls that ran all of
  -- theirs.
  unfoldable pub startups : List (Call Exc) → App Exc → ℕ
  startups [] app = 0
  startups (start raises ∷ calls) app =
      called (run_startup_handlers raises app).0 + startups calls (after_call (start raises) app)
  startups (stop raises ∷ calls) app = startups calls (after_call (stop raises) app)

  unfoldable pub shutdowns : List (Call Exc) → App Exc → ℕ
  shutdowns [] app = 0
  shutdowns (start raises ∷ calls) app = shutdowns calls (after_call (start raises) app)
  shutdowns (stop raises ∷ calls) app =
      clean (run_shutdown_handlers raises app).1 + shutdowns calls (after_call (stop raises) app)

  fires-finish_startup :
      (r : List ℕ × Option Exc) (app : App Exc) → fires (finish_startup r app).2.state ≡ 0
  fires-finish_startup (ran, none) app = refl
  fires-finish_startup (ran, some e) app = refl

  fires-startup_from :
      (raises : ℕ → Option Exc) (s : StartupState) (app : App Exc)
      → app.state ≡ s
      → fires (startup_from raises s app).2.state ≡ 0
  fires-startup_from raises not_started app e =
      fires-finish_startup (call_all raises (collect_startup_handlers app))
        (record app { state = running })
  fires-startup_from raises running app e = ap fires e
  fires-startup_from raises started app e = ap fires e
  fires-startup_from raises failed app e = ap fires e

  called-startup_from :
      (raises : ℕ → Option Exc) (s : StartupState) (app : App Exc)
      → called (startup_from raises s app).0 ≤ fires s
  called-startup_from raises not_started app = called_le (startup_from raises not_started app).0
  called-startup_from raises running app = omega arith
  called-startup_from raises started app = omega arith
  called-startup_from raises failed app = omega arith

  fires-finish_shutdown :
      (r : List ℕ × Option Exc) (app : App Exc)
      → fires (finish_shutdown r app).2.state ≤ clean (finish_shutdown r app).1 + fires app.state
  fires-finish_shutdown (ran, none) app = omega arith
  fires-finish_shutdown (ran, some e) app = omega arith

  startups-le_from :
      (calls : List (Call Exc)) (app : App Exc)
      → startups calls app ≤ shutdowns calls app + fires app.state
  unfolding startups shutdowns run_startup_handlers run_shutdown_handlers
  startups-le_from [] app = omega arith
  startups-le_from (start raises ∷ calls) app = omega (
    arith,
    startups-le_from calls (startup_from raises app.state app).2,
    fires-startup_from raises app.state app refl,
    called-startup_from raises app.state app,
  )
  startups-le_from (stop raises ∷ calls) app =
      let r = call_all raises (collect_shutdown_handlers app) in
      omega (arith, startups-le_from calls (finish_shutdown r app).2, fires-finish_shutdown r app)

  -- In any history of startup and shutdown calls on a new application, whatever the handlers do, at
  -- most one more startup call calls handlers than there are shutdown calls that ran all of theirs.
  pub startups-le :
      (calls : List (Call Exc)) (app : App Exc)
      → app.state ≡ not_started
      → startups calls app ≤ shutdowns calls app + 1
  startups-le calls app e = omega (arith, startups-le_from calls app, ap fires e)
