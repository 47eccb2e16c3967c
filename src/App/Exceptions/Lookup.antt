-- ===== src/App/Exceptions/Lookup.antt =====
-- Which handler an exception gets, against the list of the keys that apply to it in the order of
-- precedence: its class, its base classes, its status code.
use fastapi_turbo.Prelude.{
  ℕ, true, false, if◌then◌else◌, ==_iff, ◌≡◌, refl, sym, ap, ◌∙◌, List, [], ◌∷◌, ◌++◌, Option, none,
  some, arith, All, map,
}
use fastapi_turbo.App.Exceptions.{
  Key, cls, status, same_key, Exc, register, handler_of, or_else, first_parent, by_status,
  lookup_exception_handler,
}

abbrev pub status_keys : Option ℕ → List Key
status_keys none = []
status_keys (some n) = status n ∷ []

abbrev pub candidates : Exc → List Key
candidates e = cls e.type ∷ (map cls e.parents ++ status_keys e.status_code)

same_key_eq : (k j : Key) → same_key k j ≡ true → k ≡ j
same_key_eq (cls a) (cls b) e = ap cls ((==_iff a b).0 e)
same_key_eq (status a) (status b) e = ap status ((==_iff a b).0 e)
same_key_eq (cls a) (status b) e = ground arith
same_key_eq (status a) (cls b) e = ground arith

same_key_refl : (k : Key) → same_key k k ≡ true
same_key_refl (cls a) = (==_iff a a).1 refl
same_key_refl (status a) = (==_iff a a).1 refl

module _ {Handler : Type 0} where
  abbrev first_of : List Key → List (Key × Handler) → Option Handler
  first_of [] hs = none
  first_of (k ∷ ks) hs = or_else (handler_of k hs) (first_of ks hs)

  or_else_assoc : (a b c : Option Handler) → or_else (or_else a b) c ≡ or_else a (or_else b c)
  or_else_assoc none b c = refl
  or_else_assoc (some h) b c = refl

  first_of-parents :
      (cs : List ℕ) (ks : List Key) (hs : List (Key × Handler))
      → first_of (map cls cs ++ ks) hs ≡ or_else (first_parent cs hs) (first_of ks hs)
  unfolding first_parent
  first_of-parents [] ks hs = refl
  first_of-parents (c ∷ cs) ks hs =
      ap (or_else (handler_of (cls c) hs)) (first_of-parents cs ks hs)
      ∙ sym (or_else_assoc (handler_of (cls c) hs) (first_parent cs hs) (first_of ks hs))

  or_else-none : (a : Option Handler) → or_else a none ≡ a
  or_else-none none = refl
  or_else-none (some h) = refl

  first_of-status :
      (n : Option ℕ) (hs : List (Key × Handler)) → first_of (status_keys n) hs ≡ by_status n hs
  first_of-status none hs = refl
  first_of-status (some n) hs = or_else-none (handler_of (status n) hs)

  lookup-first_of :
      (e : Exc) (hs : List (Key × Handler))
      → lookup_exception_handler e hs ≡ first_of (candidates e) hs
  unfolding lookup_exception_handler
  lookup-first_of e hs = ap (or_else (handler_of (cls e.type) hs)) (
      ap (or_else (first_parent e.parents hs)) (sym (first_of-status e.status_code hs))
      ∙ sym (first_of-parents e.parents (status_keys e.status_code) hs))

  handler_of-register :
      (k j : Key) (h : Handler) (hs : List (Key × Handler))
      → handler_of j (register k h hs) ≡ (if same_key k j then some h else handler_of j hs)
  unfolding handler_of register
  handler_of-register k j h [] = refl
  handler_of-register k j h ((i, g) ∷ hs) = ground (
    arith,
    handler_of-register k j h hs,
    same_key_eq i k,
    same_key_eq i j,
    same_key_refl k,
    same_key_refl j,
    same_key_eq k j,
  )

  first_of-register :
      (before after : List Key) (k : Key) (h : Handler) (hs : List (Key × Handler))
      → All (λ j. handler_of j hs ≡ none) before
      → first_of (before ++ k ∷ after) (register k h hs) ≡ some h
  first_of-register [] after k h hs quiet =
      ground (arith, handler_of-register k k h hs, same_key_refl k)
  first_of-register (j ∷ before) after k h hs quiet =
      ground (
        arith,
        handler_of-register k j h hs,
        quiet.0,
        first_of-register before after k h hs quiet.1,
      )

  first_of-same :
      (ks : List Key) (k : Key) (h : Handler) (hs : List (Key × Handler))
      → All (λ j. same_key k j ≡ false) ks
      → first_of ks (register k h hs) ≡ first_of ks hs
  first_of-same [] k h hs other = refl
  first_of-same (j ∷ ks) k h hs other =
      ground (arith, handler_of-register k j h hs, other.0, first_of-same ks k h hs other.1)

  -- A handler registered for a key that applies to an exception is the one the look-up finds, if no
  -- key that comes earlier in the order of precedence (the class, its base classes in the order of the
  -- `__mro__`, the status code) has a handler.
  pub lookup_exception_handler-register :
      (e : Exc) (before after : List Key) (k : Key) (h : Handler) (hs : List (Key × Handler))
      → candidates e ≡ before ++ k ∷ after
      → All (λ j. handler_of j hs ≡ none) before
      → lookup_exception_handler e (register k h hs) ≡ some h
  lookup_exception_handler-register e before after k h hs c quiet =
      lookup-first_of e (register k h hs)
      ∙ ap (λ ks. first_of ks (register k h hs)) c
      ∙ first_of-register before after k h hs quiet

  -- Registering a handler for a key that does not apply to an exception does not change which handler
  -- the look-up finds for it.
  pub lookup_exception_handler-other :
      (e : Exc) (k : Key) (h : Handler) (hs : List (Key × Handler))
      → All (λ j. same_key k j ≡ false) (candidates e)
      → lookup_exception_handler e (register k h hs) ≡ lookup_exception_handler e hs
  lookup_exception_handler-other e k h hs other =
      lookup-first_of e (register k h hs)
      ∙ first_of-same (candidates e) k h hs other
      ∙ sym (lookup-first_of e hs)
