-- ===== src/Stream/Tests.antt =====
-- A stream of two chunks, with a checkpoint and a real wait on the way.
use fastapi_turbo.Prelude.{ℕ, zero, suc, ◌≡◌, refl, true, [], ◌∷◌}
use fastapi_turbo.Stream.{
  Resume, sent, thrown, Coro, returns, stops, raises, checkpoint, waits, accepted, full, dropped,
  run, step_anext, drive_stream, closed,
}
use fastapi_turbo.Stream.Step.{told, NeverYieldsNone, step_anext-run, step_anext-NeverYieldsNone}
use fastapi_turbo.Stream.Drive.{
  pushed, orderly, bursts, async_for, drive_stream-async_for, drive_stream-orderly,
  drive_stream-bursts,
}

-- What the generator does with what it is resumed with: an exception leaves it.
abbrev resumed : ℕ → Resume ℕ ℕ → Coro ℕ ℕ ℕ (ℕ × ℕ)
resumed s (sent v) = returns (v, suc s)
resumed s (thrown e) = raises e

abbrev anext : ℕ → Coro ℕ ℕ ℕ (ℕ × ℕ)
anext zero = checkpoint (λ r. waits 5 (resumed 0))
anext (suc zero) = returns (8, 2)
anext _ = stops

run_example :
    run 0 (step_anext 0 (anext 0)) (thrown 3 ∷ [])
    ≡ (told (run 0 (anext 0) (thrown 3 ∷ [])).0, (run 0 (anext 0) (thrown 3 ∷ [])).1)
run_example = step_anext-run 0 (anext 0) (thrown 3 ∷ [])

never_example : NeverYieldsNone (step_anext 0 (anext 0))
never_example = step_anext-NeverYieldsNone 0 (anext 0)

async_for_example :
    (
      pushed (drive_stream 0 anext closed true 0 (sent 7 ∷ []) (accepted ∷ full true ∷ [])).0,
      (drive_stream 0 anext closed true 0 (sent 7 ∷ []) (accepted ∷ full true ∷ [])).1,
    )
    ≡ async_for 0 anext closed 0 (sent 7 ∷ []) (accepted ∷ full true ∷ [])
async_for_example =
    drive_stream-async_for 0 anext closed true 0 (sent 7 ∷ []) (accepted ∷ full true ∷ [])
      (refl, (refl, tt))

orderly_example :
    orderly
      (accepted ∷ dropped ∷ [])
      (drive_stream 0 anext closed true 0 (sent 7 ∷ []) (accepted ∷ dropped ∷ [])).0
      (drive_stream 0 anext closed true 0 (sent 7 ∷ []) (accepted ∷ dropped ∷ [])).1
    ≡ true
orderly_example = drive_stream-orderly 0 anext closed true 0 (sent 7 ∷ []) (accepted ∷ dropped ∷ [])

bursts_example :
    bursts 0 (drive_stream 0 anext closed true 0 (sent 7 ∷ []) (accepted ∷ full true ∷ [])).0 ≡ true
bursts_example = drive_stream-bursts 0 anext closed 0 (sent 7 ∷ []) (accepted ∷ full true ∷ [])
