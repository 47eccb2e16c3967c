-- ===== src/App/Lifecycle.antt =====
-- The startup and shutdown handlers of python/fastapi_turbo/applications.py: the state machine of
-- `_run_startup_handlers` and `_run_shutdown_handlers`, and the walks over the tree of routers. A
-- handler is a number; whether a handler raises is the environment's, and the handlers that ran are
-- returned in order.
pub mod Order
pub mod Cycle
use fastapi_turbo.Prelude.{ℕ, List, [], ◌∷◌, ◌++◌, Option, none, some, Bool, false}

mutual
  pub data Router : Type 0 where
    -- `_on_startup`, `_on_shutdown`, `lifespan` and the routers of `_included_routers`
    router : List ℕ → List ℕ → Option ℕ → Routers → Router

  pub data Routers : Type 0 where
    nil : Routers
    cons : Router → Routers → Routers

pub data StartupState : Type 0 where
  not_started running started failed : StartupState

pub record App (Exc : Type 0) : Type 0 where
  pub on_startup : List ℕ
  pub on_shutdown : List ℕ
  pub lifespan : Option ℕ
  pub root : Router
  pub included : Routers
  pub state : StartupState
  pub failure : Option Exc
  pub dynamic_routes_installed : Bool

abbrev mutual
  pub startup_walk : Router → List ℕ
  startup_walk (router up down life rs) = up ++ startup_walks rs

  pub startup_walks : Routers → List ℕ
  startup_walks nil = []
  startup_walks (cons r rs) = startup_walk r ++ startup_walks rs

abbrev mutual
  pub shutdown_walk : Router → List ℕ
  shutdown_walk (router up down life rs) = shutdown_walks rs ++ down

  pub shutdown_walks : Routers → List ℕ
  shutdown_walks nil = []
  shutdown_walks (cons r rs) = shutdown_walk r ++ shutdown_walks rs

abbrev pub one : Option ℕ → List ℕ
one none = []
one (some n) = n ∷ []

abbrev mutual
  pub lifespan_walk : Router → List ℕ
  lifespan_walk (router up down life rs) = one life ++ lifespan_walks rs

  pub lifespan_walks : Routers → List ℕ
  lifespan_walks nil = []
  lifespan_walks (cons r rs) = lifespan_walk r ++ lifespan_walks rs

abbrev pub children : Router → Routers
children (router up down life rs) = rs

-- How a call ends.
pub data Ended (Exc : Type 0) : Type 0 where
  returned earlier_failure reentrant : Ended Exc
  raised : Exc → Ended Exc

-- The handlers that ran, how the call ended, and the application after it.
abbrev pub Run : Type 0 → Type 0
Run Exc = List ℕ × Ended Exc × App Exc

module _ {Exc : Type 0} where
  unfoldable pub collect_startup_handlers : App Exc → List ℕ
  collect_startup_handlers app =
      app.on_startup ++ startup_walk app.root ++ startup_walks app.included

  unfoldable pub collect_shutdown_handlers : App Exc → List ℕ
  collect_shutdown_handlers app =
      shutdown_walks app.included ++ shutdown_walk app.root ++ app.on_shutdown

  unfoldable pub collect_lifespans : App Exc → List ℕ
  collect_lifespans app =
      lifespan_walks (children app.root) ++ lifespan_walks app.included ++ one app.lifespan

  abbrev pub call_next : ℕ → (List ℕ × Option Exc) → Option Exc → List ℕ × Option Exc
  call_next h rest none = (h ∷ rest.0, rest.1)
  call_next h rest (some e) = (h ∷ [], some e)

  -- The handlers in turn, up to the first that raises.
  unfoldable pub call_all : (ℕ → Option Exc) → List ℕ → List ℕ × Option Exc
  call_all raises [] = ([], none)
  call_all raises (h ∷ hs) = call_next h (call_all raises hs) (raises h)

  abbrev pub finish_startup : List ℕ × Option Exc → App Exc → Run Exc
  finish_startup (ran, none) app = (ran, returned, record app { state = started })
  finish_startup (ran, some e) app =
      (ran, raised e, record app { state = failed; failure = some e })

  abbrev pub startup_from : (ℕ → Option Exc) → StartupState → App Exc → Run Exc
  startup_from raises started app = ([], returned, app)
  startup_from raises failed app = ([], earlier_failure, app)
  startup_from raises running app = ([], reentrant, app)
  startup_from raises not_started app =
      finish_startup (call_all raises (collect_startup_handlers app))
        (record app { state = running })

  -- `_run_startup_handlers`.
  unfoldable pub run_startup_handlers : (ℕ → Option Exc) → App Exc → Run Exc
  run_startup_handlers raises app = startup_from raises app.state app

  abbrev pub finish_shutdown : List ℕ × Option Exc → App Exc → Run Exc
  finish_shutdown (ran, none) app = (
    ran,
    returned,
    record app { state = not_started; failure = none; dynamic_routes_installed = false },
  )
  finish_shutdown (ran, some e) app = (ran, raised e, app)

  -- `_run_shutdown_handlers`.
  unfoldable pub run_shutdown_handlers : (ℕ → Option Exc) → App Exc → Run Exc
  run_shutdown_handlers raises app =
      finish_shutdown (call_all raises (collect_shutdown_handlers app)) app
