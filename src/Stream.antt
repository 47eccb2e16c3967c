-- ===== src/Stream.antt =====
-- python/fastapi_turbo/responses.py: `_step_anext`, which steps one `__anext__()` of a streaming body
-- and resumes its cooperative checkpoints without the event loop, and `_drive_stream`, which pushes
-- the chunks of the whole body. A coroutine is the tree of what it does for each way in which it is
-- resumed; the event loop is the list of its answers to the awaits that reach it. How `aclose()` of the
-- body ends is given. A cancellation that is delivered at the fairness `sleep(0)`, or at a bare checkpoint
-- of a plain await, is not modelled.
pub mod Step
pub mod Drive
mod Tests
use fastapi_turbo.Prelude.{
  ℕ, ◌+◌, ◌%◌, Bool, true, false, ◌&&◌, List, [], ◌∷◌, Option, none, some, ◌==◌, if◌then◌else◌,
}

-- How a suspended coroutine is resumed: `send` or `throw`.
pub data Resume (Val Exc : Type 0) : Type 0 where
  sent : Val → Resume Val Exc
  thrown : Exc → Resume Val Exc

-- A coroutine returns (`StopIteration`), ends the iteration (`StopAsyncIteration`), raises, yields
-- `None`, or yields an awaitable.
pub data Coro (Fut Val Exc X : Type 0) : Type 0 where
  returns : X → Coro Fut Val Exc X
  stops : Coro Fut Val Exc X
  raises : Exc → Coro Fut Val Exc X
  checkpoint : (Resume Val Exc → Coro Fut Val Exc X) → Coro Fut Val Exc X
  waits : Fut → (Resume Val Exc → Coro Fut Val Exc X) → Coro Fut Val Exc X

-- What became of a coroutine under the answers of the loop: `pending` if it waits for one more.
pub data Ran (Exc X : Type 0) : Type 0 where
  got : X → Ran Exc X
  ended : Ran Exc X
  failed : Exc → Ran Exc X
  pending : Ran Exc X

-- The answers of `push`: sent, receiver gone, or an awaitable, with what it resolves to.
pub data Push : Type 0 where
  accepted dropped : Push
  full : Bool → Push

abbrev pub goes_on : Push → Bool
goes_on accepted = true
goes_on dropped = false
goes_on (full b) = b

-- What the driver does, in order: a push, the fairness `sleep(0)`, `aclose()` and `push.close()`.
pub data Event (Chunk : Type 0) : Type 0 where
  push : Chunk → Event Chunk
  rest aclose close : Event Chunk

-- How the driver ends, if it does.
pub data Driven (Exc : Type 0) : Type 0 where
  finished waiting : Driven Exc
  raised : Exc → Driven Exc

module _ {Fut Val Exc X : Type 0} (nil : Val) where
  -- `_step_anext`, itself a coroutine: `none` is `_STREAM_DONE`.
  unfoldable pub step_anext : Coro Fut Val Exc X → Coro Fut Val Exc (Option X)
  step_anext (returns x) = returns (some x)
  step_anext stops = returns none
  step_anext (raises e) = raises e
  step_anext (checkpoint k) = step_anext (k (sent nil))
  step_anext (waits f k) = waits f (λ r. step_anext (k r))

  -- A coroutine awaited on the loop, which answers a checkpoint with `None`.
  unfoldable pub run :
      Coro Fut Val Exc X → List (Resume Val Exc) → Ran Exc X × List (Resume Val Exc)
  run (returns x) answers = (got x, answers)
  run stops answers = (ended, answers)
  run (raises e) answers = (failed e, answers)
  run (checkpoint k) answers = run (k (sent nil)) answers
  run (waits f k) [] = (pending, [])
  run (waits f k) (r ∷ answers) = run (k r) answers

-- How `aclose()` ends: it returns, raises, or still waits.
pub data Closing (Exc : Type 0) : Type 0 where
  closed closing_waits : Closing Exc
  closing_raises : Exc → Closing Exc

-- Behind a refused push.
abbrev pub disconnect : {Chunk Exc : Type 0} → Closing Exc → List (Event Chunk) × Driven Exc
disconnect closed = (aclose ∷ close ∷ [], finished)
disconnect closing_waits = (aclose ∷ [], waiting)
disconnect (closing_raises e) = (aclose ∷ [], raised e)

module _ {Fut Val Exc Chunk State : Type 0} (nil : Val)
    (anext : State → Coro Fut Val Exc (Chunk × State)) (on_aclose : Closing Exc) where
  abbrev pub before :
      Event Chunk → List (Event Chunk) × Driven Exc → List (Event Chunk) × Driven Exc
  before e (events, end) = (e ∷ events, end)

  -- The fairness `sleep(0)` after every 64th chunk.
  abbrev pub rested : Bool → ℕ → List (Event Chunk) × Driven Exc → List (Event Chunk) × Driven Exc
  rested fair n d = if fair && n % 64 == 0 then before rest d else d

  -- The loop of `_drive_stream` from the outcome of one step on, after `n` chunks.
  unfoldable pub drive_ran :
      Bool
      → ℕ
      → Ran Exc (Option (Chunk × State)) × List (Resume Val Exc)
      → List Push
      → List (Event Chunk) × Driven Exc
  drive_ran fair n (pending, answers) pushes = ([], waiting)
  drive_ran fair n (failed e, answers) pushes = ([], raised e)
  drive_ran fair n (ended, answers) pushes = ([], waiting)
  drive_ran fair n (got none, answers) pushes = (close ∷ [], finished)
  drive_ran fair n (got (some (c, s)), answers) [] = (push c ∷ [], waiting)
  drive_ran fair n (got (some (c, s)), answers) (p ∷ pushes) =
      let more = drive_ran fair (n + 1) (run nil (step_anext nil (anext s)) answers) pushes in
      before (push c) (if goes_on p then rested fair (n + 1) more else disconnect on_aclose)

  -- `_drive_stream`, of an iterator in the state `s`, for the answers of `push` given.
  unfoldable pub drive_stream :
      Bool → State → List (Resume Val Exc) → List Push → List (Event Chunk) × Driven Exc
  unfolding drive_ran
  drive_stream fair s answers pushes =
      drive_ran fair 0 (run nil (step_anext nil (anext s)) answers) pushes
