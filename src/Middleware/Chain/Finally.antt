-- ===== src/Middleware/Chain/Finally.antt =====
-- The `finally` of `wrapped_sync` (python/fastapi_turbo/_middleware_wrap.py): the background tasks and the
-- pending teardowns of a request, after its chain has unwound.
use fastapi_turbo.Prelude.{
  ℕ, zero, suc, ◌+◌, ◌≡◌, ap, ◌∙◌, false, List, [], ◌∷◌, ◌++◌, map, Option, none, some, All, length,
}
use fastapi_turbo.Background.{Task, Event, Ended, finished, raised, run_sync}
use fastapi_turbo.Background.Drain.{event, generation, run_sync-drains, run_sync-raises}
use fastapi_turbo.App.Teardown.{Pending, Drained, run_pending_teardowns}
use fastapi_turbo.App.Teardown.Order.{run_pending_teardowns-all}

-- A task that was run, or a pending teardown, by its position, that was resumed.
pub data Act : Type 0 where
  task : Event → Act
  teardown : ℕ → Act

-- What was done, in order, and what leaves the block.
pub record Closing (Exc : Type 0) : Type 0 where
  pub acts : List Act
  pub ended : Ended Exc

-- `n` teardowns, from the position `i` on.
abbrev pub resumed_from : ℕ → ℕ → List Act
resumed_from i zero = []
resumed_from i (suc n) = teardown i ∷ resumed_from (suc i) n

module _ {Exc : Type 0} (raises : ℕ → Option Exc) (adds : ℕ → List Task) where
  abbrev pub teardown_after : List Pending → List Event × Ended Exc × List Task → Closing Exc
  teardown_after tears (events, finished, queue) = record {
    acts = map task events ++ resumed_from 0 (run_pending_teardowns false none tears).resumed;
    ended = finished;
  }
  teardown_after tears (events, ended, queue) = record { acts = map task events; ended = ended }

  -- With no teardown pending the tasks are left to the server.
  unfoldable pub close_request : ℕ → List Task → List Pending → Closing Exc
  close_request fuel tasks [] = record { acts = []; ended = finished }
  close_request fuel [] (p ∷ ps) = teardown_after (p ∷ ps) ([], finished, [])
  close_request fuel (t ∷ ts) (p ∷ ps) =
      teardown_after (p ∷ ps) (run_sync raises adds fuel (t ∷ ts))

  teardown_after-finished :
      (fuel : ℕ) (tasks : List Task) (p : Pending) (ps : List Pending) (events : List Event)
      → run_sync raises adds fuel tasks ≡ (events, finished, [])
      → teardown_after (p ∷ ps) (run_sync raises adds fuel tasks)
        ≡ record { acts = map task events ++ resumed_from 0 (length (p ∷ ps)); ended = finished }
  teardown_after-finished fuel tasks p ps events e =
      ap (teardown_after (p ∷ ps)) e
      ∙ ap
          (λ (d : Drained). record {
            acts = map task events ++ resumed_from 0 d.resumed;
            ended = finished;
          })
          (run_pending_teardowns-all (p ∷ ps))

  -- Let a request have a pending teardown, and at least one background task. If no task raises and
  -- those that they add neither raise nor add any, the tasks run first, in order, those that they added
  -- behind them, and then every pending teardown is resumed, once each and in order, whatever the
  -- others do; and nothing is raised.
  pub close_request-drains :
      (t : Task) (ts : List Task) (p : Pending) (ps : List Pending)
      → All (λ u. raises u.func ≡ none) (t ∷ ts)
      → All (λ u. raises u.func ≡ none) (generation raises adds (t ∷ ts))
      → generation raises adds (generation raises adds (t ∷ ts)) ≡ []
      → let more = generation raises adds (t ∷ ts) in
        close_request (length (t ∷ ts) + (length more + 0)) (t ∷ ts) (p ∷ ps) ≡ record {
          acts =
              map task (map event (t ∷ ts) ++ map event more) ++ resumed_from 0 (length (p ∷ ps));
          ended = finished;
        }
  unfolding close_request
  close_request-drains t ts p ps quiet later last =
      let more = generation raises adds (t ∷ ts) in
      teardown_after-finished (length (t ∷ ts) + (length more + 0)) (t ∷ ts) p ps
        (map event (t ∷ ts) ++ map event more)
        (run_sync-drains raises adds (t ∷ ts) quiet later last)

  -- Let the first background task of a request raise, having added none. Then its exception leaves the
  -- block, in place of the response; the tasks behind it do not run; and none of the pending teardowns
  -- is resumed, however many there are.
  pub close_request-raises :
      (t : Task) (ts : List Task) (p : Pending) (ps : List Pending) (e : Exc) (fuel : ℕ)
      → generation raises adds (t ∷ []) ≡ []
      → raises t.func ≡ some e
      → close_request (0 + suc fuel) (t ∷ ts) (p ∷ ps)
        ≡ record { acts = task (event t) ∷ []; ended = raised e }
  unfolding close_request
  close_request-raises t ts p ps e fuel none_added x =
      ap (teardown_after (p ∷ ps)) (run_sync-raises raises adds [] ts t e fuel tt none_added x)
