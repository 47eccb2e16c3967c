-- ===== src/App/Teardown/Order.antt =====
-- Which of the pending teardowns run, and what leaves the call.
use fastapi_turbo.Prelude.{
  ℕ, suc, Bool, false, ◌≡◌, refl, ap, ◌∙◌, List, [], ◌∷◌, ◌++◌, none, some, ==_iff, arith, All,
  length,
}
use fastapi_turbo.App.Teardown.{
  Step, yields, stops, raises, Pending, stepped, Failure, surfaces, no_response, goes_on, fails,
  verdict, Drained, after, run_pending_teardowns,
}

abbrev pub error_of : Step → List ℕ
error_of yields = []
error_of stops = []
error_of (raises e) = e ∷ []

unfoldable pub errors : List Pending → List ℕ
unfolding stepped
errors [] = []
errors (p ∷ ps) = error_of (stepped none p) ++ errors ps

after-quiet :
    (s : Step) (rest : Drained)
    → after (verdict false none s) rest
      ≡ record rest { resumed = suc rest.resumed; collected = error_of s ++ rest.collected }
unfolding verdict
after-quiet yields rest = refl
after-quiet stops rest = refl
after-quiet (raises e) rest = refl

-- After an endpoint that raised nothing, with exceptions collected and not passed on, every pending
-- generator is resumed, once, whatever the others raise; the exceptions collected are those they
-- raise, in that order; and nothing leaves the call.
pub run_pending_teardowns-all :
    (ps : List Pending)
    → run_pending_teardowns false none ps
      ≡ record { resumed = length ps; collected = errors ps; failure = none }
unfolding run_pending_teardowns errors
run_pending_teardowns-all [] = refl
run_pending_teardowns-all (p ∷ ps) =
    after-quiet (stepped none p) (run_pending_teardowns false none ps)
    ∙ ap
        (λ (rest : Drained). record rest {
          resumed = suc rest.resumed;
          collected = error_of (stepped none p) ++ rest.collected;
        })
        (run_pending_teardowns-all ps)

-- A generator that takes the exception thrown into it (it stops or yields again), or that raises
-- another one, ends the draining.
abbrev pub ended_by : Step → Failure
ended_by yields = no_response
ended_by stops = no_response
ended_by (raises e) = surfaces e

verdict-reraised :
    (propagate : Bool) (x : ℕ) (s : Step) → s ≡ raises x → verdict propagate (some x) s ≡ goes_on
unfolding verdict
verdict-reraised propagate x s e =
    ap (verdict propagate (some x)) e ∙ ground (arith, (==_iff x x).1 refl)

verdict-other :
    (propagate : Bool) (x : ℕ) (s : Step)
    → ¬ (s ≡ raises x)
    → verdict propagate (some x) s ≡ fails (ended_by s)
unfolding verdict
verdict-other propagate x yields n = refl
verdict-other propagate x stops n = refl
verdict-other propagate x (raises e) n = ground (arith, (==_iff e x).0)

-- With the endpoint's exception thrown in, the generators are resumed up to the first that does not
-- raise that same exception again, and those behind it are not: the exception it raised instead, or
-- the `FastAPIError` if it took the exception, leaves the call, and nothing is collected.
pub run_pending_teardowns-thrown :
    (propagate : Bool) (x : ℕ) (before behind : List Pending) (p : Pending)
    → All (λ q. stepped (some x) q ≡ raises x) before
    → ¬ (stepped (some x) p ≡ raises x)
    → run_pending_teardowns propagate (some x) (before ++ p ∷ behind) ≡ record {
      resumed = suc (length before);
      collected = [];
      failure = some (ended_by (stepped (some x) p));
    }
unfolding run_pending_teardowns
run_pending_teardowns-thrown propagate x [] behind p reraised other =
    ap (λ v. after v (run_pending_teardowns propagate (some x) behind))
      (verdict-other propagate x (stepped (some x) p) other)
run_pending_teardowns-thrown propagate x (q ∷ before) behind p reraised other =
    ap (λ v. after v (run_pending_teardowns propagate (some x) (before ++ p ∷ behind)))
      (verdict-reraised propagate x (stepped (some x) q) reraised.0)
    ∙ ap (after goes_on) (run_pending_teardowns-thrown propagate x before behind p reraised.1 other)
