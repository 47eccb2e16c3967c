-- ===== src/Background/Response.antt =====
-- `_run_background_obj` of python/fastapi_turbo/background.py: what the door does with the `background`
-- of a response, by the shape of that object. Queues and lists are objects of a store, since a task
-- may add to any of them. Additions that come from elsewhere meanwhile are not modelled.
use fastapi_turbo.Prelude.{
  ℕ, zero, suc, List, [], ◌∷◌, ◌++◌, Option, none, some, ◌==◌, if◌then◌else◌,
}
use fastapi_turbo.Background.{
  Task, Event, called, submitted, event_of, Ended, finished, out_of_fuel, raised, run_sync,
}

-- `None`; the program's `BackgroundTasks`, which has `run_sync`, by its number; an object with `tasks`,
-- such as Starlette's, by its number; a single task; another callable, with the coroutine that it
-- returns, if it returns one; or something that cannot be called.
pub data Object : Type 0 where
  nothing inert : Object
  ours several : ℕ → Object
  single : Task → Object
  bare : ℕ → Option ℕ → Object

-- What the queues and the `tasks` hold.
pub record Store : Type 0 where
  pub queues : ℕ → List Task
  pub lists : ℕ → List Object

-- What a function adds while it runs, and to what.
pub data Addition : Type 0 where
  to_queue : ℕ → Task → Addition
  to_list : ℕ → Object → Addition

abbrev pub put {ℓ} : {A : Type ℓ} → ℕ → A → (ℕ → A) → ℕ → A
put n a f m = if m == n then a else f m

abbrev pub add : Addition → Store → Store
add (to_queue q t) s = record s { queues = put q (s.queues q ++ t ∷ []) s.queues }
add (to_list l o) s = record s { lists = put l (s.lists l ++ o ∷ []) s.lists }

abbrev pub add_all : List Addition → Store → Store
add_all [] s = s
add_all (a ∷ more) s = add_all more (add a s)

-- The tasks among these that are added to a queue.
abbrev pub added_to : ℕ → List Addition → List Task
added_to q [] = []
added_to q (to_queue p t ∷ more) = if p == q then t ∷ added_to q more else added_to q more
added_to q (to_list l o ∷ more) = added_to q more

abbrev pub func_of : Event → ℕ
func_of (called f) = f
func_of (submitted f) = f

-- What was run, how the call ended, and the store behind it.
abbrev pub Call : Type 0 → Type 0
Call Exc = List Event × Ended Exc × Store

module _ {Exc : Type 0} where
  abbrev pub outcome : Option Exc → Ended Exc
  outcome none = finished
  outcome (some e) = raised e

  abbrev pub then_run : Call Exc → (Store → Call Exc) → Call Exc
  then_run (ran, finished, s) next = let r = next s in (ran ++ r.0, r.1, r.2)
  then_run (ran, ended, s) next = (ran, ended, s)

  -- The loop over `list(tasks)`, a copy.
  unfoldable pub run_each : (Object → Store → Call Exc) → List Object → Store → Call Exc
  run_each run [] s = ([], finished, s)
  run_each run (o ∷ os) s = then_run (run o s) (run_each run os)

module _ {Exc : Type 0} (raises : ℕ → Option Exc) (adds : ℕ → List Addition) (fuel : ℕ) where
  -- The store behind the functions that were run.
  abbrev pub touched : List Event → Store → Store
  touched [] s = s
  touched (e ∷ es) s = touched es (add_all (adds (func_of e)) s)

  abbrev pub run_event : Event → Store → Call Exc
  run_event e s = (e ∷ [], outcome (raises (func_of e)), touched (e ∷ []) s)

  -- What `run_sync` leaves of its own queue is its own result.
  abbrev pub run_queue : ℕ → Store → Call Exc
  run_queue q s =
      let r = run_sync raises (λ f. added_to q (adds f)) fuel (s.queues q) in
      let t = touched r.0 s in (r.0, r.1, record t { queues = put q r.2 t.queues })

  abbrev pub run_bare : ℕ → Option ℕ → Store → Call Exc
  run_bare f none s = run_event (called f) s
  run_bare f (some c) s = then_run (run_event (called f) s) (run_event (submitted c))

  -- The first argument bounds how deep lists are nested in lists.
  unfoldable pub run_background_obj : ℕ → Object → Store → Call Exc
  unfolding run_each
  run_background_obj depth nothing s = ([], finished, s)
  run_background_obj depth inert s = ([], finished, s)
  run_background_obj depth (ours q) s = run_queue q s
  run_background_obj depth (single t) s = run_event (event_of t.is_async t.func) s
  run_background_obj depth (bare f c) s = run_bare f c s
  run_background_obj zero (several l) s = ([], out_of_fuel, s)
  run_background_obj (suc depth) (several l) s = run_each (run_background_obj depth) (s.lists l) s
