-- ===== src/Stream/Step.antt =====
-- `_step_anext` against a plain `await`.
use fastapi_turbo.Prelude.{◌≡◌, refl, List, [], ◌∷◌, Option, none, some}
use fastapi_turbo.Stream.{
  Resume, sent, Coro, returns, stops, raises, checkpoint, waits, Ran, got, ended, failed, pending,
  step_anext, run,
}

-- The end of the iteration as a value, as `_STREAM_DONE` is one.
abbrev pub told : {Exc X : Type 0} → Ran Exc X → Ran Exc (Option X)
told (got x) = got (some x)
told ended = got none
told (failed e) = failed e
told pending = pending

-- However it is resumed, the coroutine never yields `None`.
unfoldable pub NeverYieldsNone : {Fut Val Exc X : Type 0} → Coro Fut Val Exc X → Type 0
NeverYieldsNone (returns x) = Unit
NeverYieldsNone stops = Unit
NeverYieldsNone (raises e) = Unit
NeverYieldsNone (checkpoint k) = ⊥
NeverYieldsNone {Val} {Exc} (waits f k) = (r : Resume Val Exc) → NeverYieldsNone (k r)

module _ {Fut Val Exc X : Type 0} (nil : Val) where
  -- Awaited on the loop, the stepped coroutine comes to what the coroutine itself comes to, under the
  -- same answers, of which it uses the same: the same value, `_STREAM_DONE` for the end of the
  -- iteration, the same exception, or the same wait.
  pub step_anext-run :
      (c : Coro Fut Val Exc X) (answers : List (Resume Val Exc))
      → run nil (step_anext nil c) answers ≡ (told (run nil c answers).0, (run nil c answers).1)
  unfolding step_anext run
  step_anext-run (returns x) answers = refl
  step_anext-run stops answers = refl
  step_anext-run (raises e) answers = refl
  step_anext-run (checkpoint k) answers = step_anext-run (k (sent nil)) answers
  step_anext-run (waits f k) [] = refl
  step_anext-run (waits f k) (r ∷ answers) = step_anext-run (k r) answers

  -- No cooperative checkpoint reaches the event loop: the stepped coroutine never yields `None`,
  -- whatever the loop sends or throws into it.
  pub step_anext-NeverYieldsNone : (c : Coro Fut Val Exc X) → NeverYieldsNone (step_anext nil c)
  unfolding step_anext NeverYieldsNone
  step_anext-NeverYieldsNone (returns x) = tt
  step_anext-NeverYieldsNone stops = tt
  step_anext-NeverYieldsNone (raises e) = tt
  step_anext-NeverYieldsNone (checkpoint k) = step_anext-NeverYieldsNone (k (sent nil))
  step_anext-NeverYieldsNone (waits f k) = λ r. step_anext-NeverYieldsNone (k r)
