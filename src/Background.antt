-- ===== src/Background.antt =====
-- python/fastapi_turbo/background.py: `BackgroundTasks.run_sync`, which drains the queue after the
-- response. The loop runs over the list itself, so that it reaches what the tasks add to the queue.
pub mod Drain
pub mod Response
pub mod Nested
mod Tests
use fastapi_turbo.Prelude.{ℕ, zero, suc, Bool, true, false, List, [], ◌∷◌, ◌++◌, Option, none, some}

pub record Task : Type 0 where
  pub func : ℕ
  pub is_async : Bool

-- A function called inline, or a coroutine handed to the worker's loop.
pub data Event : Type 0 where
  called submitted : ℕ → Event

abbrev pub event_of : Bool → ℕ → Event
event_of true f = submitted f
event_of false f = called f

pub data Ended (Exc : Type 0) : Type 0 where
  finished out_of_fuel : Ended Exc
  raised : Exc → Ended Exc

-- What was run, how the loop ended, and the tasks that were added to the queue meanwhile.
pub record Drained (Exc : Type 0) : Type 0 where
  pub events : List Event
  pub ended : Ended Exc
  pub added : List Task

-- What the function of a task raises, if it does, and the tasks that it adds before it ends.
module _ {Exc : Type 0} (raises : ℕ → Option Exc) (adds : ℕ → List Task) where
  abbrev pub after : Task → Option Exc → Drained Exc → Drained Exc
  after t none rest = record {
    events = event_of t.is_async t.func ∷ rest.events;
    ended = rest.ended;
    added = adds t.func ++ rest.added;
  }
  after t (some e) rest = record {
    events = event_of t.is_async t.func ∷ [];
    ended = raised e;
    added = adds t.func;
  }

  -- The loop, with the tasks that it has yet to reach.
  unfoldable pub drain : ℕ → List Task → Drained Exc
  drain fuel [] = record { events = []; ended = finished; added = [] }
  drain zero (t ∷ ts) = record { events = []; ended = out_of_fuel; added = [] }
  drain (suc fuel) (t ∷ ts) = after t (raises t.func) (drain fuel (ts ++ adds t.func))

  abbrev pub queue_after : List Task → Drained Exc → Ended Exc → List Task
  queue_after ts d finished = []
  queue_after ts d out_of_fuel = ts ++ d.added
  queue_after ts d (raised e) = ts ++ d.added

  -- `run_sync`: what was run, how it ended, and the queue after it.
  unfoldable pub run_sync : ℕ → List Task → List Event × Ended Exc × List Task
  unfolding drain
  run_sync fuel ts = let d = drain fuel ts in (d.events, d.ended, queue_after ts d d.ended)
