-- ===== src/Background/Nested.antt =====
-- The background of a response against the queue of `run_sync`.
use fastapi_turbo.Prelude.{
  ℕ, suc, Bool, true, false, ◌≡◌, refl, sym, ap, ◌∙◌, List, [], ◌∷◌, map, Option, none, some,
  length, append-nil,
}
use fastapi_turbo.Background.{Task, event_of, Drained, after, drain, run_sync}
use fastapi_turbo.Background.Response.{
  several, single, Store, Addition, Call, func_of, then_run, outcome, run_each, touched,
  run_background_obj,
}

func_of-event_of : (b : Bool) (f : ℕ) → func_of (event_of b f) ≡ f
func_of-event_of true f = refl
func_of-event_of false f = refl

module _ {Exc : Type 0} (raises : ℕ → Option Exc) (adds : ℕ → List Addition) (fuel : ℕ) where
  -- What a queue comes to to which nothing is added, and what its tasks add elsewhere.
  abbrev drained : List Task → Drained Exc
  drained ts = drain raises (λ f. []) (length ts) ts

  abbrev as_call : Drained Exc → Store → Call Exc
  as_call d s = (d.events, d.ended, touched raises adds fuel d.events s)

  then_run-after :
      (t : Task) (o : Option Exc) (d : Drained Exc) (s : Store) (next : Store → Call Exc)
      → ((u : Store) → next u ≡ as_call d u)
      → let e = event_of t.is_async t.func in
        then_run (e ∷ [], outcome o, touched raises adds fuel (e ∷ []) s) next
        ≡ as_call (after raises (λ f. []) t o d) s
  then_run-after t none d s next h =
      let e = event_of t.is_async t.func in
      ap (λ (r : Call Exc). (e ∷ r.0, r.1, r.2)) (h (touched raises adds fuel (e ∷ []) s))
  then_run-after t (some x) d s next h = refl

  run_each-single :
      (depth : ℕ) (ts : List Task) (s : Store)
      → run_each (run_background_obj raises adds fuel depth) (map single ts) s
        ≡ as_call (drained ts) s
  unfolding run_each drain run_background_obj
  run_each-single depth [] s = refl
  run_each-single depth (t ∷ ts) s =
      let e = event_of t.is_async t.func in
      let next = run_each (run_background_obj raises adds fuel depth) (map single ts) in
      ap (λ f. then_run (e ∷ [], outcome (raises f), touched raises adds fuel (e ∷ []) s) next)
        (func_of-event_of t.is_async t.func)
      ∙ then_run-after t (raises t.func) (drained ts) s next (run_each-single depth ts)
      ∙ ap
          (λ us.
            as_call
              (after raises (λ f. []) t (raises t.func) (drain raises (λ f. []) (length ts) us)) s)
          (sym (append-nil ts))

  -- Let the background of a response be a list of tasks. Then what is run, and how it ends, is what
  -- `run_sync` comes to on these tasks as a queue to which nothing is added: they run in order, up to
  -- the first that raises, and a task that was added to the list meanwhile does not run. What the
  -- tasks that ran have added, to this list and to others, is left in the store, and nothing is taken
  -- from the list.
  pub run_background_obj-run_sync :
      (depth l : ℕ) (ts : List Task) (s : Store)
      → s.lists l ≡ map single ts
      → let q = run_sync raises (λ f. []) (length ts) ts in
        run_background_obj raises adds fuel (suc depth) (several l) s
        ≡ (q.0, q.1, touched raises adds fuel q.0 s)
  unfolding run_background_obj run_sync
  run_background_obj-run_sync depth l ts s h =
      ap (λ os. run_each (run_background_obj raises adds fuel depth) os s) h
      ∙ run_each-single depth ts s
