-- ===== src/App/Teardown.antt =====
-- `_run_pending_teardowns` of python/fastapi_turbo/applications.py: the dependencies with a `yield` are
-- resumed one after the other, with the exception of the endpoint if there is one. How a generator
-- behaves when it is resumed is the program's own. The list of collected errors is given.
pub mod Order
use fastapi_turbo.Prelude.{
  ℕ, suc, Bool, true, false, List, [], ◌∷◌, ◌++◌, Option, none, some, ◌==◌, if◌then◌else◌,
}

-- How one resumed generator ends: the step comes back with a value, since the generator yields
-- again; it stops; or it raises an exception, which is told by its identity.
pub data Step : Type 0 where
  yields stops : Step
  raises : ℕ → Step

-- Where the generator lives: on the worker's loop, on a loop of its own, or on none.
pub data Place : Type 0 where
  on_worker on_loop nowhere : Place

-- The attempt to step an asynchronous generator outside any loop (`_tcoro.send(None)`).
pub data Attempt : Type 0 where
  ends : Step → Attempt
  suspends no_loop : Attempt

-- A pending teardown. `resume` is what the step that may wait does (`athrow` or `__anext__` on a loop,
-- `throw` or `next`), and `attempt` what the asynchronous step without a loop does.
pub record Pending : Type 0 where
  pub place : Place
  pub async : Bool
  pub attempt : Option ℕ → Attempt
  pub resume : Option ℕ → Step

abbrev pub finish_attempt : Step → Attempt → Step
finish_attempt later (ends s) = s
finish_attempt later suspends = later
finish_attempt later no_loop = later

abbrev pub stepped_at : Place → Bool → Option ℕ → Pending → Step
stepped_at nowhere true thrown p = finish_attempt (p.resume thrown) (p.attempt thrown)
stepped_at nowhere false thrown p = p.resume thrown
stepped_at on_worker async thrown p = p.resume thrown
stepped_at on_loop async thrown p = p.resume thrown

unfoldable pub stepped : Option ℕ → Pending → Step
stepped thrown p = stepped_at p.place p.async thrown p

-- What is raised out of the call: an exception of a generator, or the `FastAPIError` that says that a
-- generator took the endpoint's exception.
pub data Failure : Type 0 where
  surfaces : ℕ → Failure
  no_response : Failure

-- What one teardown means for the loop: it goes on, having collected an exception or not, or it fails.
pub data Verdict : Type 0 where
  goes_on : Verdict
  collects : ℕ → Verdict
  fails : Failure → Verdict

-- The arms of the `try`, and the test of `swallowed_handler_exc` behind it.
unfoldable pub verdict : Bool → Option ℕ → Step → Verdict
verdict propagate (some x) yields = fails no_response
verdict propagate (some x) stops = fails no_response
verdict propagate (some x) (raises e) = if e == x then goes_on else fails (surfaces e)
verdict propagate none yields = goes_on
verdict propagate none stops = goes_on
verdict propagate none (raises e) = if propagate then fails (surfaces e) else collects e

-- The generators that were resumed, by position, the exceptions collected, and the failure.
pub record Drained : Type 0 where
  pub resumed : ℕ
  pub collected : List ℕ
  pub failure : Option Failure

abbrev pub after : Verdict → Drained → Drained
after goes_on rest = record rest { resumed = suc rest.resumed }
after (collects e) rest = record rest { resumed = suc rest.resumed; collected = e ∷ rest.collected }
after (fails f) rest = record { resumed = 1; collected = []; failure = some f }

unfoldable pub run_pending_teardowns : Bool → Option ℕ → List Pending → Drained
unfolding stepped verdict
run_pending_teardowns propagate thrown [] = record { resumed = 0; collected = []; failure = none }
run_pending_teardowns propagate thrown (p ∷ ps) =
    after (verdict propagate thrown (stepped thrown p)) (run_pending_teardowns propagate thrown ps)
