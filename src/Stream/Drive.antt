-- ===== src/Stream/Drive.antt =====
-- `_drive_stream` against a plain `async for`, and what it does to the body channel and the loop.
use fastapi_turbo.Prelude.{
  ℕ, ◌+◌, ◌%◌, Bool, true, false, ◌&&◌, ltb, ◌==◌, if◌then◌else◌, ◌≡◌, refl, ap, ◌∙◌, List, [], ◌∷◌,
  Option, none, some, arith, All, Bool-cases,
}
use fastapi_turbo.Stream.{
  Resume, Coro, Ran, got, ended, failed, pending, Push, goes_on, Event, push, rest, aclose, close,
  Driven, finished, waiting, raised, step_anext, run, Closing, before, disconnect, rested,
  drive_ran, drive_stream,
}
use fastapi_turbo.Stream.Step.{told, step_anext-run}

unfoldable pub pushed : {Chunk : Type 0} → List (Event Chunk) → List Chunk
pushed [] = []
pushed (push c ∷ es) = c ∷ pushed es
pushed (rest ∷ es) = pushed es
pushed (aclose ∷ es) = pushed es
pushed (close ∷ es) = pushed es

abbrev closing : {Chunk Exc : Type 0} → List (Event Chunk) → Driven Exc → Bool
closing (aclose ∷ close ∷ []) finished = true
closing (aclose ∷ []) waiting = true
closing (aclose ∷ []) (raised e) = true
closing _ _ = false

-- A generator that is closed is closed after a refused push and before the channel; the channel is
-- closed last, once, and only when the driver finishes; behind a refused push nothing is pushed. If
-- closing the generator waits or raises, nothing more happens.
unfoldable pub orderly : {Chunk Exc : Type 0} → List Push → List (Event Chunk) → Driven Exc → Bool
orderly ps [] finished = false
orderly ps [] waiting = true
orderly ps [] (raised e) = true
orderly ps (close ∷ []) finished = true
orderly ps (rest ∷ es) d = orderly ps es d
orderly [] (push c ∷ []) waiting = true
orderly (p ∷ ps) (push c ∷ es) d = if goes_on p then orderly ps es d else closing es d
orderly _ _ _ = false

-- At most 64 chunks are pushed between one `sleep(0)` and the next, `k` having been pushed already.
unfoldable pub bursts : {Chunk : Type 0} → ℕ → List (Event Chunk) → Bool
bursts k [] = true
bursts k (push c ∷ es) = ltb k 64 && bursts (k + 1) es
bursts k (rest ∷ es) = bursts 0 es
bursts k (aclose ∷ es) = bursts k es
bursts k (close ∷ es) = bursts k es

module _ {Fut Val Exc Chunk State : Type 0} (nil : Val)
    (anext : State → Coro Fut Val Exc (Chunk × State)) (on_aclose : Closing Exc) where
  abbrev also : Chunk → List Chunk × Driven Exc → List Chunk × Driven Exc
  also c (cs, d) = (c ∷ cs, d)

  -- `async for`, by a consumer that takes up each chunk, `k` of them and waits at the next.
  unfoldable pub taken :
      Ran Exc (Chunk × State) × List (Resume Val Exc) → List Push → List Chunk × Driven Exc
  taken (pending, answers) ps = ([], waiting)
  taken (failed e, answers) ps = ([], raised e)
  taken (ended, answers) ps = ([], finished)
  taken (got (c, s), answers) [] = (c ∷ [], waiting)
  taken (got (c, s), answers) (p ∷ ps) = also c (taken (run nil (anext s) answers) ps)

  unfoldable pub async_for : State → List (Resume Val Exc) → List Push → List Chunk × Driven Exc
  unfolding taken
  async_for s answers ps = taken (run nil (anext s) answers) ps

  abbrev seen : List (Event Chunk) × Driven Exc → List Chunk × Driven Exc
  seen (events, d) = (pushed events, d)

  drive_ran-taken :
      (fair : Bool) (n : ℕ) (r : Ran Exc (Chunk × State)) (answers : List (Resume Val Exc))
      (ps : List Push)
      → All (λ p. goes_on p ≡ true) ps
      → seen (drive_ran nil anext on_aclose fair n (told r, answers) ps) ≡ taken (r, answers) ps
  unfolding drive_ran taken pushed
  drive_ran-taken fair n pending answers ps accepts = refl
  drive_ran-taken fair n (failed e) answers ps accepts = refl
  drive_ran-taken fair n ended answers ps accepts = refl
  drive_ran-taken fair n (got (c, s)) answers [] accepts = refl
  drive_ran-taken fair n (got (c, s)) answers (p ∷ ps) accepts =
      let r = run nil (anext s) answers in
      ground (
        arith,
        step_anext-run nil (anext s) answers,
        drive_ran-taken fair (n + 1) r.0 r.1 ps accepts.1,
        accepts.0,
      )

  orderly-rested :
      (fair : Bool) (n : ℕ) (ps : List Push) (d : List (Event Chunk) × Driven Exc)
      → orderly ps d.0 d.1 ≡ true
      → orderly ps (rested nil anext on_aclose fair n d).0 (rested nil anext on_aclose fair n d).1
        ≡ true
  unfolding orderly
  orderly-rested fair n [] d o = ground (arith, Bool-cases (fair && n % 64 == 0))
  orderly-rested fair n (p ∷ ps) d o = ground (arith, Bool-cases (fair && n % 64 == 0))

  orderly-push :
      (fair : Bool) (n : ℕ) (c : Chunk) (p : Push) (ps : List Push)
      (more : List (Event Chunk) × Driven Exc)
      → orderly ps more.0 more.1 ≡ true
      → let d =
          before nil anext on_aclose
            (push c)
            (if goes_on p then rested nil anext on_aclose fair n more else disconnect on_aclose) in
        orderly (p ∷ ps) d.0 d.1 ≡ true
  unfolding orderly
  orderly-push fair n c p ps more o =
      ground (arith, orderly-rested fair n ps more o, Bool-cases (goes_on p))

  bursts-push :
      (n : ℕ) (c : Chunk) (p : Push) (more : List (Event Chunk) × Driven Exc)
      → bursts ((n + 1) % 64) more.0 ≡ true
      → bursts
          (n % 64)
          (before nil anext on_aclose (push c) (
            if goes_on p
            then rested nil anext on_aclose true (n + 1) more
            else disconnect on_aclose)).0
        ≡ true
  unfolding bursts
  bursts-push n c p more o = ground (arith, Bool-cases (goes_on p), Bool-cases ((n + 1) % 64 == 0))

  orderly-drive_ran :
      (fair : Bool) (n : ℕ) (r : Ran Exc (Option (Chunk × State))) (answers : List (Resume Val Exc))
      (ps : List Push)
      → let d = drive_ran nil anext on_aclose fair n (r, answers) ps in orderly ps d.0 d.1 ≡ true
  unfolding drive_ran orderly
  orderly-drive_ran fair n pending answers ps = refl
  orderly-drive_ran fair n (failed e) answers ps = refl
  orderly-drive_ran fair n ended answers ps = refl
  orderly-drive_ran fair n (got none) answers [] = refl
  orderly-drive_ran fair n (got none) answers (p ∷ ps) = refl
  orderly-drive_ran fair n (got (some (c, s))) answers [] = refl
  orderly-drive_ran fair n (got (some (c, s))) answers (p ∷ ps) =
      let r = run nil (step_anext nil (anext s)) answers in
      orderly-push fair (n + 1) c p ps (drive_ran nil anext on_aclose fair (n + 1) r ps)
        (orderly-drive_ran fair (n + 1) r.0 r.1 ps)

  bursts-drive_ran :
      (n : ℕ) (r : Ran Exc (Option (Chunk × State))) (answers : List (Resume Val Exc))
      (ps : List Push)
      → bursts (n % 64) (drive_ran nil anext on_aclose true n (r, answers) ps).0 ≡ true
  unfolding drive_ran bursts
  bursts-drive_ran n pending answers ps = refl
  bursts-drive_ran n (failed e) answers ps = refl
  bursts-drive_ran n ended answers ps = refl
  bursts-drive_ran n (got none) answers ps = refl
  bursts-drive_ran n (got (some (c, s))) answers [] = ground arith
  bursts-drive_ran n (got (some (c, s))) answers (p ∷ ps) =
      let r = run nil (step_anext nil (anext s)) answers in
      bursts-push n c p (drive_ran nil anext on_aclose true (n + 1) r ps)
        (bursts-drive_ran (n + 1) r.0 r.1 ps)

  -- While the receiver takes every chunk, at once or when there is room again, the chunks pushed and the
  -- way the driver ends are those of a plain `async for` over the body, in the same order and under the
  -- same answers of the loop, with the fairness `sleep(0)` or without.
  pub drive_stream-async_for :
      (fair : Bool) (s : State) (answers : List (Resume Val Exc)) (ps : List Push)
      → All (λ p. goes_on p ≡ true) ps
      → (
        pushed (drive_stream nil anext on_aclose fair s answers ps).0,
        (drive_stream nil anext on_aclose fair s answers ps).1,
      )
        ≡ async_for s answers ps
  unfolding drive_stream async_for
  drive_stream-async_for fair s answers ps accepts =
      let r = run nil (anext s) answers in
      ap (λ q. seen (drive_ran nil anext on_aclose fair 0 q ps))
        (step_anext-run nil (anext s) answers)
      ∙ drive_ran-taken fair 0 r.0 r.1 ps accepts

  -- Whatever the receiver answers, the events are orderly: the generator is closed exactly behind a refused push,
  -- behind which nothing is pushed; the channel is closed once, as the last event, exactly if the
  -- driver finishes, and not after an exception of the body or of closing the generator.
  pub drive_stream-orderly :
      (fair : Bool) (s : State) (answers : List (Resume Val Exc)) (ps : List Push)
      → orderly ps
          (drive_stream nil anext on_aclose fair s answers ps).0
          (drive_stream nil anext on_aclose fair s answers ps).1
        ≡ true
  unfolding drive_stream
  drive_stream-orderly fair s answers ps =
      let r = run nil (step_anext nil (anext s)) answers in orderly-drive_ran fair 0 r.0 r.1 ps

  -- The fair driver lets the loop run after every 64 chunks: never are more than 64 pushed in between.
  pub drive_stream-bursts :
      (s : State) (answers : List (Resume Val Exc)) (ps : List Push)
      → bursts 0 (drive_stream nil anext on_aclose true s answers ps).0 ≡ true
  unfolding drive_stream
  drive_stream-bursts s answers ps =
      let r = run nil (step_anext nil (anext s)) answers in bursts-drive_ran 0 r.0 r.1 ps
