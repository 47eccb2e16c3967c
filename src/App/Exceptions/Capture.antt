-- ===== src/App/Exceptions/Capture.antt =====
-- What an exception becomes, raised in an endpoint or in a dependency.
use fastapi_turbo.Prelude.{
  ℕ, Bool, true, false, if◌then◌else◌, ◌≡◌, ◌≢◌, ◌⊎◌, inl, inr, Option-cases, refl, ap, ◌∙◌, List,
  [], ◌∷◌, ◌++◌, Option, none, some, arith,
}
use fastapi_turbo.App.Exceptions.{
  Key, Exc, first_parent, by_status, lookup_exception_handler, or_else, handler_of, is_instance,
  Answer, Ending, returns, raises, raised, capture, reply_or_raise, keep_dep,
  invoke_exception_handler, wrap_with_exception_handlers, door_handle_dep_exception,
}

module _ {Response : Type 0} where
  -- What the wrapped handler does, by what the dependency path gives: the same answer and the same
  -- captured exceptions; or, where that gives no answer, it captures the exception and raises it.
  abbrev pub wrapped_as : Exc → Option Response × List Exc → Ending Response × List Exc
  wrapped_as e (some r, captured) = (returns r, captured)
  wrapped_as e (none, captured) = (raises e, captured ++ e ∷ [])

first_parent-empty :
    {Handler : Type 0} → (cs : List ℕ) → first_parent {Handler = Handler} cs [] ≡ none
unfolding first_parent
first_parent-empty [] = refl
first_parent-empty (c ∷ cs) = first_parent-empty cs

by_status-empty : {Handler : Type 0} → (n : Option ℕ) → by_status {Handler = Handler} n [] ≡ none
unfolding handler_of
by_status-empty none = refl
by_status-empty (some n) = refl

lookup-empty :
    {Handler : Type 0} → (e : Exc) → lookup_exception_handler {Handler = Handler} e [] ≡ none
unfolding lookup_exception_handler
lookup-empty e =
    ap (λ o. or_else o (by_status e.status_code [])) (first_parent-empty e.parents)
    ∙ by_status-empty e.status_code

module _ {Handler Response : Type 0} (call : Handler → Exc → Answer Response)
    (exception_class http_class : ℕ) where
  keep_dep-wrapped :
      (e : Exc) (r : Option Response) (hs : List (Key × Handler)) (captured : List Exc)
      → is_instance e http_class ≡ false
      → (reply_or_raise call e r, capture call exception_class http_class e r hs captured)
        ≡ wrapped_as e (keep_dep call exception_class http_class e r hs captured)
  unfolding capture
  keep_dep-wrapped e none hs captured o = ground arith
  keep_dep-wrapped e (some r) hs captured o = ground arith

  door-unanswered :
      (e : Exc) (hs : List (Key × Handler)) (captured : List Exc)
      → (door_handle_dep_exception call exception_class http_class e hs captured).0 ≡ none
      → (door_handle_dep_exception call exception_class http_class e hs captured).1 ≡ captured
  unfolding door_handle_dep_exception
  door-unanswered e [] captured n = refl
  door-unanswered e (g ∷ hs) captured n =
      by_answer (is_instance e http_class) (invoke_exception_handler call e (g ∷ hs)) n
    where
      by_answer :
          (b : Bool) (r : Option Response)
          → (if b
              then (none, captured)
              else keep_dep call exception_class http_class e r (g ∷ hs) captured).0
            ≡ none
          → (if b
              then (none, captured)
              else keep_dep call exception_class http_class e r (g ∷ hs) captured).1
            ≡ captured
      by_answer true r n = refl
      by_answer false none n = refl
      by_answer false (some r) n = cc

  wrap_with_exception_handlers-wrapped_as :
      (e : Exc) (at_wrap hs : List (Key × Handler)) (h : Key × Handler) (captured : List Exc)
      → is_instance e exception_class ≡ true
      → is_instance e http_class ≡ false
      → wrap_with_exception_handlers call exception_class http_class
          (h ∷ at_wrap)
          (raised e)
          hs
          captured
        ≡ wrapped_as e (door_handle_dep_exception call exception_class http_class e hs captured)
  unfolding wrap_with_exception_handlers door_handle_dep_exception invoke_exception_handler capture
  wrap_with_exception_handlers-wrapped_as e at_wrap [] h captured i o =
      rw i (ground (arith, lookup-empty {Handler = Handler} e))
  wrap_with_exception_handlers-wrapped_as e at_wrap (g ∷ hs) h captured i o = rw i (
      ground
        (arith, keep_dep-wrapped e (invoke_exception_handler call e (g ∷ hs)) (g ∷ hs) captured o))

  -- Let an exception be an `Exception` and no HTTPException. If the dependency path answers it, then the
  -- handler of an endpoint, wrapped while there were handlers, gives the same response to it, and both
  -- leave the same captured exceptions. If the dependency path does not answer it, it captures
  -- nothing, and the wrapped handler captures the exception, last and once, and raises it again.
  pub wrap_with_exception_handlers-door :
      (e : Exc) (at_wrap hs : List (Key × Handler)) (h : Key × Handler) (captured : List Exc)
      → is_instance e exception_class ≡ true
      → is_instance e http_class ≡ false
      → let door = door_handle_dep_exception call exception_class http_class e hs captured in
        (wrap_with_exception_handlers call exception_class http_class
            (h ∷ at_wrap)
            (raised e)
            hs
            captured
          ≡ wrapped_as e door)
        × ((door.0 ≢ none) ⊎ (door.1 ≡ captured))
  wrap_with_exception_handlers-door e at_wrap hs h captured i o = (
    wrap_with_exception_handlers-wrapped_as e at_wrap hs h captured i o,
    elim (Option-cases
        (door_handle_dep_exception call exception_class http_class e hs captured).0) [
          | inl n ↦ inr (door-unanswered e hs captured n)
          | inr (r, s) ↦ inl (λ n. cc)
        ],
  )
