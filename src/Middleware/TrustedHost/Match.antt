-- ===== src/Middleware/TrustedHost/Match.antt =====
-- Which hosts a pattern lets through, and which sub-application a host reaches.
use fastapi_turbo.Prelude.{
  ℕ, Bool, true, false, ◌||◌, ◌≡◌, refl, sym, ap, ◌↔◌, inl, inr, List, [], ◌∷◌, ◌++◌, map, Option,
  none, some, ==_iff, Bool-cases, if◌then◌else◌, arith, same, same-eq, same_refl,
}
use fastapi_turbo.Middleware.TrustedHost.{
  endswith, before_first, contains, wildcard_match, allow_all, pattern_match, any_pattern,
  is_valid_host, host_header, http, forwards, call, entry_for, match_host,
}

endswith-append : (p t : List ℕ) → endswith (p ++ t) t ≡ true
unfolding endswith
endswith-append [] [] = refl
endswith-append [] (b ∷ t) = ground (arith, same_refl (b ∷ t))
endswith-append (a ∷ p) t = ground (arith, endswith-append p t)

cons_split : (a : ℕ) (s t : List ℕ) → (p : List ℕ) × (s ≡ p ++ t) → (p : List ℕ) × (a ∷ s ≡ p ++ t)
cons_split a s t (p, e) = (a ∷ p, ap (λ r. a ∷ r) e)

endswith-split : (s t : List ℕ) → endswith s t ≡ true → (p : List ℕ) × (s ≡ p ++ t)
unfolding endswith
endswith-split [] t e = ([], same-eq [] t e)
endswith-split (a ∷ s) t e = elim (Bool-cases (same (a ∷ s) t)) [
  | inl y ↦ ([], same-eq (a ∷ s) t y)
  | inr n ↦ cons_split a s t (endswith-split s t (ground arith))
]

before_first-append :
    (c : ℕ) (s t : List ℕ) → contains c s ≡ false → before_first c (s ++ c ∷ t) ≡ s
unfolding before_first contains
before_first-append c [] t n = ground (arith, ==_iff c c)
before_first-append c (a ∷ s) t n = ground (arith, before_first-append c s t)

before_first-none : (c : ℕ) (s : List ℕ) → contains c s ≡ false → before_first c s ≡ s
unfolding before_first contains
before_first-none c [] n = refl
before_first-none c (a ∷ s) n = ground (arith, before_first-none c s)

contains-append : (c : ℕ) (s t : List ℕ) → contains c (s ++ c ∷ t) ≡ true
unfolding contains
contains-append c [] t = ground (arith, ==_iff c c)
contains-append c (a ∷ s) t = ground (arith, contains-append c s t)

-- The host without its port.
unfoldable pub name_of : List ℕ → List ℕ
unfolding contains before_first
name_of host = if contains 58 host then before_first 58 host else host

-- The name is the pattern itself, or ends in the pattern without its star.
abbrev takes : List ℕ → List ℕ → Bool
takes d name = same (42 ∷ 46 ∷ d) name || endswith name (46 ∷ d)

subdomain-split : (d name : List ℕ) → takes d name ≡ true → (sub : List ℕ) × (name ≡ sub ++ 46 ∷ d)
subdomain-split d name e = elim (Bool-cases (same (42 ∷ 46 ∷ d) name)) [
  | inl y ↦ (42 ∷ [], sym (same-eq (42 ∷ 46 ∷ d) name y))
  | inr n ↦ endswith-split name (46 ∷ d) (ground arith)
]

subdomain-joined : (d name : List ℕ) → (sub : List ℕ) × (name ≡ sub ++ 46 ∷ d) → takes d name ≡ true
subdomain-joined d name (sub, e) = ground (arith, endswith-append sub (46 ∷ d))

module _ (lower : ℕ → ℕ) where
  is_valid_host-pattern :
      (d h : List ℕ)
      → lower 42 ≡ 42
      → lower 46 ≡ 46
      → is_valid_host lower ((42 ∷ 46 ∷ d) ∷ []) h ≡ takes (map lower d) (map lower (name_of h))
  unfolding is_valid_host any_pattern pattern_match wildcard_match allow_all same name_of
  is_valid_host-pattern d h star dot = ground arith

  -- A port after the host makes no difference to whether the host is let through.
  pub is_valid_host-port :
      (allowed : List (List ℕ)) (host port : List ℕ)
      → contains 58 host ≡ false
      → is_valid_host lower allowed (host ++ 58 ∷ port) ≡ is_valid_host lower allowed host
  unfolding is_valid_host
  is_valid_host-port allowed host port n =
      ground (arith, contains-append 58 host port, before_first-append 58 host port n)

  -- With the one pattern `*.d`, an HTTP request goes on to the application exactly if its first `host`
  -- header, in lower case and without a port, is something, a dot, and `d` in lower case; a bare `d` is
  -- not let through, nor a name that only ends in `d`.
  pub call-subdomain :
      (d : List ℕ) (headers : List (List ℕ × List ℕ))
      → lower 42 ≡ 42
      → lower 46 ≡ 46
      → (call lower http ((42 ∷ 46 ∷ d) ∷ []) headers ≡ forwards) ↔ (
          (sub : List ℕ) × (map lower (name_of (host_header lower headers))
            ≡ sub ++ 46 ∷ map lower d))
  unfolding call
  call-subdomain d headers star dot =
      let h = host_header lower headers in
      let valid = is_valid_host-pattern d h star dot in
      (
        λ e. subdomain-split (map lower d) (map lower (name_of h)) (ground (arith, valid)),
        λ s. ground (arith, valid, subdomain-joined (map lower d) (map lower (name_of h)) s),
      )

  entry_for-append :
      {App : Type 0}
      → (hs : List ℕ) (earlier rest : List (List ℕ × Option App))
      → entry_for lower hs earlier ≡ none
      → entry_for lower hs (earlier ++ rest) ≡ entry_for lower hs rest
  unfolding entry_for
  entry_for-append hs [] rest quiet = refl
  entry_for-append hs ((name, none) ∷ earlier) rest quiet = entry_for-append hs earlier rest quiet
  entry_for-append hs ((name, some app) ∷ earlier) rest quiet =
      ground (arith, entry_for-append hs earlier rest)

  match_host-name :
      {App : Type 0}
      → (entries : List (List ℕ × Option App)) (header port : List ℕ) → contains 58 header ≡ false
      → match_host lower entries (header ++ 58 ∷ port) ≡ entry_for lower (map lower header) entries
  unfolding match_host
  match_host-name entries [] port n =
      ap (λ h. entry_for lower (map lower h) entries) (before_first-append 58 [] port n)
  match_host-name entries (c ∷ header) port n =
      ap (λ h. entry_for lower (map lower h) entries) (before_first-append 58 (c ∷ header) port n)

  -- A request whose `Host` is a registered name, in any case and with any port, reaches the
  -- sub-application of that name, if no host registered earlier takes it.
  pub match_host-registered :
      {App : Type 0}
      → (earlier later : List (List ℕ × Option App)) (name header port : List ℕ) (app : App)
      → contains 58 header ≡ false
      → map lower name ≡ map lower header
      → entry_for lower (map lower header) earlier ≡ none
      → match_host lower (earlier ++ (name, some app) ∷ later) (header ++ 58 ∷ port) ≡ some app
  unfolding match_host entry_for
  match_host-registered earlier later name header port app n e quiet = ground (
    arith,
    match_host-name (earlier ++ (name, some app) ∷ later) header port n,
    entry_for-append (map lower header) earlier ((name, some app) ∷ later) quiet,
    same_refl (map lower header),
  )
