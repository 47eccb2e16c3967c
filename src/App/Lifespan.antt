-- ===== src/App/Lifespan.antt =====
-- The lifespans of python/fastapi_turbo/applications.py: `_run_lifespan_startup`,
-- `_run_lifespan_shutdown`, their `_async_` twins, which run on the caller's own event loop, and
-- the loop of `_asgi_lifespan` over both. A lifespan is the number it has in `Lifecycle`; what calling,
-- entering and leaving it does, and what the handlers do, is the program's own and may differ from
-- message to message. Coercing a generator to a context manager (`_wrap`) is part of that. The sync
-- calls go through the worker's `submit`, whose `TimeoutError` they raise when `worker_timeout` elapses:
-- at startup that is an `__aenter__` that fails, and at shutdown it is `exit_timeout`, which the async
-- twin does not have. That `send` raises is not modelled, and neither is an exception of `__aenter__` or
-- `__aexit__` that is no `Exception`, a cancellation for example.
pub mod Exits
pub mod Merge
pub mod Protocol
mod Opened
pub mod Balance
pub mod Retry
pub mod Timeout
mod Tests
use mathlib.Core.List.{reverse}
use fastapi_turbo.Prelude.{
  ◌≡◌, refl, ℕ, Bool, true, false, List, [], ◌∷◌, ◌++◌, map, Option, none, some, ◌==◌, take,
  if◌then◌else◌,
}
use fastapi_turbo.App.Lifecycle.{
  App, StartupState, not_started, Ended, returned, raised, collect_lifespans, run_startup_handlers,
  run_shutdown_handlers,
}

-- A dictionary, in the order of insertion; keys and values are numbers.
abbrev pub Dict : Type 0
Dict = List (ℕ × ℕ)

unfoldable pub set_item : ℕ → ℕ → Dict → Dict
set_item k v [] = (k, v) ∷ []
set_item k v ((j, w) ∷ d) = if j == k then (j, v) ∷ d else (j, w) ∷ set_item k v d

-- `dict.update`; `setattr` for each item does the same to the attributes of `self.state`.
unfoldable pub update : Dict → Dict → Dict
update d [] = d
update d ((k, v) ∷ u) = update (set_item k v d) u

-- What `__aenter__` does: it gives a dictionary (`None` counts as the empty one), or raises.
pub data Entered (Exc : Type 0) : Type 0 where
  yields : Dict → Entered Exc
  fails : Exc → Entered Exc

-- What the program's own code does while one message is handled: calling a lifespan, `__aenter__`,
-- `__aexit__`, and calling a handler; and whether the time for the whole of a shutdown elapses: after
-- how many calls of `__aexit__`, the one that is cut off included, and with which exception.
pub record Hooks (Exc : Type 0) : Type 0 where
  pub opens : ℕ → Option Exc
  pub enters : ℕ → Entered Exc
  pub exits : ℕ → Option Exc
  pub exit_timeout : Option (ℕ × Exc)
  pub calls : ℕ → Option Exc

pub data Event : Type 0 where
  entering exiting calling : ℕ → Event

-- `lifespan_cms` is empty for `None`; `state` is the attributes of `self.state`.
pub record Site (Exc : Type 0) : Type 0 where
  pub app : App Exc
  pub lifespan_cms : List ℕ
  pub app_state : Dict
  pub state : Dict

abbrev pub Run : Type 0 → Type 0
Run Exc = List Event × Ended Exc × Site Exc

-- What was entered, and the merged dictionary or what `__aenter__` raised.
abbrev pub Entry : Type 0 → Type 0
Entry Exc = List Event × Entered Exc

pub data Message : Type 0 where
  startup shutdown other : Message

pub data Reply (Exc : Type 0) : Type 0 where
  startup_complete shutdown_complete : Reply Exc
  startup_failed shutdown_failed : Ended Exc → Reply Exc

pub record Session (Exc : Type 0) : Type 0 where
  pub events : List Event
  pub replies : List (Reply Exc)
  pub site : Site Exc

abbrev pub earlier {ℓ} : {A : Type ℓ} → Option A → Option A → Option A
earlier none o = o
earlier (some e) o = some e

pub earlier_assoc {ℓ} :
    {A : Type ℓ} (a b c : Option A) → earlier (earlier a b) c ≡ earlier a (earlier b c)
earlier_assoc none b c = refl
earlier_assoc (some e) b c = refl

pub earlier-none {ℓ} : {A : Type ℓ} (a : Option A) → earlier a none ≡ a
earlier-none none = refl
earlier-none (some e) = refl

module _ {Exc : Type 0} where
  -- `[_wrap(lf) for lf in lifespans]`: the first call that raises ends it.
  unfoldable pub open_all : (ℕ → Option Exc) → List ℕ → Option Exc
  open_all opens [] = none
  open_all opens (l ∷ ls) = earlier (opens l) (open_all opens ls)

  -- The body of the loop, when the rest of it depends on the dictionary so far.
  abbrev pub enter_next : ℕ → (Dict → Entry Exc) → Entered Exc → Dict → Entry Exc
  enter_next l rest (fails e) merged = (entering l ∷ [], fails e)
  enter_next l rest (yields u) merged = let r = rest (update merged u) in (entering l ∷ r.0, r.1)

  unfoldable pub enter_all : (ℕ → Entered Exc) → List ℕ → Dict → Entry Exc
  enter_all enters [] merged = ([], yields merged)
  enter_all enters (l ∷ ls) merged = enter_next l (enter_all enters ls) (enters l) merged

  abbrev pub finish_enter : Entry Exc → Site Exc → Run Exc
  finish_enter (ran, fails e) site = (ran, raised e, site)
  finish_enter (ran, yields merged) site =
      (ran, returned, record site { app_state = merged; state = update site.state merged })

  abbrev pub enter_opened : Hooks Exc → Option Exc → List ℕ → Site Exc → Run Exc
  enter_opened hooks (some e) ls site = ([], raised e, site)
  enter_opened hooks none ls site =
      finish_enter (enter_all hooks.enters ls []) (record site { lifespan_cms = ls })

  abbrev pub start_lifespans : Hooks Exc → List ℕ → Site Exc → Run Exc
  start_lifespans hooks [] site = ([], returned, site)
  start_lifespans hooks (l ∷ ls) site =
      enter_opened hooks (open_all hooks.opens (l ∷ ls)) (l ∷ ls) site

  abbrev pub unless_entered : Hooks Exc → List ℕ → Site Exc → Run Exc
  unless_entered hooks [] site = start_lifespans hooks (collect_lifespans site.app) site
  unless_entered hooks (c ∷ cms) site = ([], returned, site)

  -- `_run_lifespan_startup`.
  unfoldable pub run_lifespan_startup : Hooks Exc → Site Exc → Run Exc
  run_lifespan_startup hooks site = unless_entered hooks site.lifespan_cms site

  -- The loop over `reversed(cms)`; `first_exc` is what an earlier one raised.
  unfoldable pub exit_all : (ℕ → Option Exc) → Option Exc → List ℕ → List Event × Option Exc
  exit_all exits first_exc [] = ([], first_exc)
  exit_all exits first_exc (c ∷ cms) =
      let r = exit_all exits (earlier first_exc (exits c)) cms in (exiting c ∷ r.0, r.1)

  abbrev pub outcome : Option Exc → Ended Exc
  outcome none = returned
  outcome (some e) = raised e

  -- `_lifespan_cms` is reset behind `submit(_exit_all())`, which a timeout leaves.
  abbrev pub exit_in_time : List Event × Option Exc → Site Exc → Option (ℕ × Exc) → Run Exc
  exit_in_time r site none = (r.0, outcome r.1, record site { lifespan_cms = [] })
  exit_in_time r site (some (n, e)) = (take n r.0, raised e, site)

  abbrev pub exit_entered : Hooks Exc → List ℕ → Site Exc → Run Exc
  exit_entered hooks [] site = ([], returned, site)
  exit_entered hooks (c ∷ cms) site =
      exit_in_time (exit_all hooks.exits none (reverse (c ∷ cms))) site hooks.exit_timeout

  -- `_run_lifespan_shutdown`.
  unfoldable pub run_lifespan_shutdown : Hooks Exc → Site Exc → Run Exc
  run_lifespan_shutdown hooks site = exit_entered hooks site.lifespan_cms site

  abbrev pub handlers : (List ℕ × Ended Exc × App Exc) → Site Exc → Run Exc
  handlers (ran, ended, app) site = (map calling ran, ended, record site { app = app })

  -- The next statement, unless the one before raised.
  abbrev pub and_then : Run Exc → (Site Exc → Run Exc) → Run Exc
  and_then (ran, returned, site) next = let r = next site in (ran ++ r.0, r.1, r.2)
  and_then (ran, ended, site) next = (ran, ended, site)

  -- The `try` blocks of `_asgi_lifespan`.
  unfoldable pub try_startup : Hooks Exc → Site Exc → Run Exc
  try_startup hooks site =
      and_then (run_lifespan_startup hooks site)
        (λ entered. handlers (run_startup_handlers hooks.calls entered.app) entered)

  unfoldable pub try_shutdown : Hooks Exc → Site Exc → Run Exc
  try_shutdown hooks site =
      and_then (run_lifespan_shutdown hooks site)
        (λ exited. handlers (run_shutdown_handlers hooks.calls exited.app) exited)

  -- The `except` block of the shutdown.
  abbrev pub reset_startup : Site Exc → Site Exc
  reset_startup site = record site {
    app = record site.app { state = not_started; failure = none; dynamic_routes_installed = false };
  }

  abbrev pub answer_startup : Run Exc → (Site Exc → Session Exc) → Session Exc
  answer_startup (ran, returned, site) rest =
      let s = rest site in
      record { events = ran ++ s.events; replies = startup_complete ∷ s.replies; site = s.site }
  answer_startup (ran, ended, site) rest = record {
    events = ran;
    replies = startup_failed ended ∷ [];
    site = site;
  }

  abbrev pub answer_shutdown : Run Exc → Session Exc
  answer_shutdown (ran, returned, site) = record {
    events = ran;
    replies = shutdown_complete ∷ [];
    site = site;
  }
  answer_shutdown (ran, ended, site) = record {
    events = ran;
    replies = shutdown_failed ended ∷ [];
    site = reset_startup site;
  }

  -- `_asgi_lifespan` on the messages that `receive` gives; after the last of them it still waits. The
  -- tests for lifespans before either call are those that the calls begin with.
  unfoldable pub asgi_lifespan : List (Message × Hooks Exc) → Site Exc → Session Exc
  asgi_lifespan [] site = record { events = []; replies = []; site = site }
  asgi_lifespan ((startup, hooks) ∷ ms) site =
      answer_startup (try_startup hooks site) (asgi_lifespan ms)
  asgi_lifespan ((shutdown, hooks) ∷ ms) site = answer_shutdown (try_shutdown hooks site)
  asgi_lifespan ((other, hooks) ∷ ms) site = asgi_lifespan ms site
