-- ===== src/Background/Tests.antt =====
-- A queue of two tasks, the first of which adds a third.
use fastapi_turbo.Prelude.{
  ℕ, suc, ◌+◌, ◌≡◌, refl, true, false, ◌==◌, if◌then◌else◌, List, [], ◌∷◌, ◌++◌, map, Option, none,
  some, length,
}
use fastapi_turbo.Background.{Task, called, submitted, finished, raised, run_sync}
use fastapi_turbo.Background.Response.{
  Store, Addition, to_list, several, single, touched, run_background_obj, run_each,
}
use fastapi_turbo.Background.Nested.{run_background_obj-run_sync}
use fastapi_turbo.Background.Drain.{event, generation, run_sync-drains, run_sync-raises}

abbrev first : Task
first = record { func = 1; is_async = false }

abbrev second : Task
second = record { func = 2; is_async = true }

abbrev third : Task
third = record { func = 3; is_async = false }

abbrev quiet : ℕ → Option ℕ
quiet f = none

abbrev second_raises : ℕ → Option ℕ
second_raises f = if f == 2 then some 9 else none

abbrev adds : ℕ → List Task
adds f = if f == 1 then third ∷ [] else []

abbrev adds_none : ℕ → List Task
adds_none f = []

all_run_example :
    run_sync quiet adds
      (length (first ∷ second ∷ []) + (length (generation quiet adds (first ∷ second ∷ [])) + 0))
      (first ∷ second ∷ [])
    ≡ (
      map event (first ∷ second ∷ []) ++ map event (generation quiet adds (first ∷ second ∷ [])),
      finished,
      [],
    )
all_run_example =
    run_sync-drains quiet adds (first ∷ second ∷ []) (refl, (refl, tt)) (refl, tt) refl

raises_example :
    run_sync second_raises adds_none
      (length (first ∷ []) + suc 4)
      ((first ∷ []) ++ second ∷ third ∷ [])
    ≡ (map event ((first ∷ []) ++ second ∷ []), raised 9, (first ∷ []) ++ second ∷ third ∷ [])
raises_example =
    run_sync-raises second_raises adds_none (first ∷ []) (third ∷ []) second 9 4 (refl, tt) refl
      refl

-- List 1 holds the tasks, and the first of them adds the third to it; list 2 holds list 1 behind the
-- first task.
abbrev store : Store
store = record {
  queues = λ q. [];
  lists = λ l. if l == 1 then single first ∷ single second ∷ [] else single first ∷ several 1 ∷ [];
}

abbrev adds_to_list : ℕ → List Addition
adds_to_list f = if f == 1 then to_list 1 (single third) ∷ [] else []

nested_example : run_background_obj quiet adds_to_list 0 1 (several 1) store ≡ (
  (run_sync quiet (λ f. []) (length (first ∷ second ∷ [])) (first ∷ second ∷ [])).0,
  (run_sync quiet (λ f. []) (length (first ∷ second ∷ [])) (first ∷ second ∷ [])).1,
  touched quiet adds_to_list 0
      (run_sync quiet (λ f. []) (length (first ∷ second ∷ [])) (first ∷ second ∷ [])).0
      store,
)
nested_example =
    run_background_obj-run_sync quiet adds_to_list 0 0 1 (first ∷ second ∷ []) store refl

-- What is added to a list that is not reached yet is run.
reached_later :
    (run_background_obj quiet adds_to_list 0 2 (several 2) store).0
    ≡ called 1 ∷ called 1 ∷ submitted 2 ∷ called 3 ∷ []
unfolding run_background_obj run_each
reached_later = refl
