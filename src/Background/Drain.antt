-- ===== src/Background/Drain.antt =====
-- In which order the background tasks run, and what becomes of the queue.
use fastapi_turbo.Prelude.{
  ℕ, suc, ◌+◌, ◌≡◌, refl, sym, ap, ◌∙◌, List, [], ◌∷◌, ◌++◌, map, Option, none, some, arith, All,
  length, append_assoc, append-nil,
}
use mathlib.Core.List.{map-append}
use fastapi_turbo.Background.{
  Task, Event, event_of, Ended, finished, raised, Drained, after, drain, queue_after, run_sync,
}

abbrev pub event : Task → Event
event t = event_of t.is_async t.func

module _ {Exc : Type 0} (raises : ℕ → Option Exc) (adds : ℕ → List Task) where
  -- The tasks that the tasks add, in order.
  abbrev pub generation : List Task → List Task
  generation [] = []
  generation (t ∷ ts) = adds t.func ++ generation ts

  abbrev pub behind : List Task → Drained Exc → Drained Exc
  behind ts d = record {
    events = map event ts ++ d.events;
    ended = d.ended;
    added = generation ts ++ d.added;
  }

  drain-append :
      (ts later : List Task) (fuel : ℕ)
      → All (λ t. raises t.func ≡ none) ts
      → drain raises adds (length ts + fuel) (ts ++ later)
        ≡ behind ts (drain raises adds fuel (later ++ generation ts))
  unfolding drain
  drain-append [] later fuel quiet =
      let z : length {A = Task} [] + fuel ≡ fuel = omega arith in
      ap (λ n. drain raises adds n later) z ∙ ap (drain raises adds fuel) (sym (append-nil later))
  drain-append (t ∷ ts) later fuel quiet =
      let e : length (t ∷ ts) + fuel ≡ suc (length ts + fuel) = omega arith in
      let rest = drain raises adds fuel (later ++ (adds t.func ++ generation ts)) in
      ap (λ n. drain raises adds n (t ∷ ts ++ later)) e
      ∙ ap
          (λ o.
            after raises adds t o
              (drain raises adds (length ts + fuel) ((ts ++ later) ++ adds t.func)))
          quiet.0
      ∙ ap (λ q. after raises adds t none (drain raises adds (length ts + fuel) q))
          (append_assoc ts later (adds t.func))
      ∙ ap (after raises adds t none) (drain-append ts (later ++ adds t.func) fuel quiet.1)
      ∙ ap (λ q. after raises adds t none (behind ts (drain raises adds fuel q)))
          (append_assoc later (adds t.func) (generation ts))
      ∙ λ i. record (behind (t ∷ ts) rest) {
        added = sym (append_assoc (adds t.func) (generation ts) rest.added) i;
      }

  abbrev ended_with : List Task → Drained Exc → List Event × Ended Exc × List Task
  ended_with ts d = (d.events, d.ended, queue_after raises adds ts d d.ended)

  generation-append : (ts us : List Task) → generation (ts ++ us) ≡ generation ts ++ generation us
  generation-append [] us = refl
  generation-append (t ∷ ts) us =
      ap (λ q. adds t.func ++ q) (generation-append ts us)
      ∙ sym (append_assoc (adds t.func) (generation ts) (generation us))

  -- If no task of the queue raises and those that they add neither raise nor add any, `run_sync` runs the
  -- tasks of the queue in order, then those that they added, in order, each once, and leaves the queue empty;
  -- as many rounds as there are tasks of both kinds are enough.
  pub run_sync-drains :
      (ts : List Task)
      → All (λ t. raises t.func ≡ none) ts
      → All (λ t. raises t.func ≡ none) (generation ts)
      → generation (generation ts) ≡ []
      → run_sync raises adds (length ts + (length (generation ts) + 0)) ts
        ≡ (map event ts ++ map event (generation ts), finished, [])
  unfolding run_sync
  run_sync-drains ts quiet later last =
      let more = generation ts in
      let second =
        ap (drain raises adds (length more + 0)) (sym (append-nil more))
        ∙ drain-append more [] 0 later
        ∙ ap (λ q. behind more (drain raises adds 0 q)) last in
      let both =
        ap (drain raises adds (length ts + (length more + 0))) (sym (append-nil ts))
        ∙ drain-append ts [] (length more + 0) quiet
        ∙ ap (behind ts) second in
      ap (ended_with ts) both
      ∙ ap (λ es. (map event ts ++ es, finished, [])) (append-nil (map event more))

  -- Where a task raises, those before it raise nothing, and neither they nor it add any, the draining
  -- ends there: the tasks behind it do not run, its exception leaves the call, and the whole queue stays,
  -- those that have run included.
  pub run_sync-raises :
      (before behind_it : List Task) (t : Task) (e : Exc) (fuel : ℕ)
      → All (λ s. raises s.func ≡ none) before
      → generation (before ++ t ∷ []) ≡ []
      → raises t.func ≡ some e
      → run_sync raises adds (length before + suc fuel) (before ++ t ∷ behind_it)
        ≡ (map event (before ++ t ∷ []), raised e, before ++ t ∷ behind_it)
  unfolding run_sync
  run_sync-raises before behind_it t e fuel quiet none_added x =
      let rest = drain raises adds fuel ((behind_it ++ generation before) ++ adds t.func) in
      let tasks = before ++ t ∷ behind_it in
      let drained =
        drain-append before (t ∷ behind_it) (suc fuel) quiet
        ∙ ap (λ o. behind before (after raises adds t o rest)) x in
      let added =
        ap (λ q. generation before ++ q) (sym (append-nil (adds t.func)))
        ∙ sym (generation-append before (t ∷ []))
        ∙ none_added in
      ap (ended_with tasks) drained
      ∙ ap (λ q. (map event before ++ event t ∷ [], raised e, tasks ++ q)) added
      ∙ ap (λ es. (es, raised e, tasks ++ [])) (sym (map-append event before (t ∷ [])))
      ∙ ap (λ q. (map event (before ++ t ∷ []), raised e, q)) (append-nil tasks)
