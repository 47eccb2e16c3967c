-- ===== src/Middleware/Auth/Grants.antt =====
-- Behind the middleware, who reaches an endpoint that requires scopes.
use fastapi_turbo.Prelude.{
  ℕ, zero, suc, ap, ◌∙◌, String, Bool, true, false, ◌≡◌, refl, sym, ◌↔◌, List, [], ◌∷◌, Option,
  none, some, arith, str_eq, eq_iff, All, Bool-cases, if◌then◌else◌, inl, inr,
}
use mathlib.Core.List.{Mem, mem-cons_self, mem-cons_of_mem, Memᴰ}
use mathlib.Core.Logic.{∥∥₁_elim}
use mathlib.Core.Bool.{false≢true}
use mathlib.Core.Path.{subst}
use fastapi_turbo.Middleware.Auth.{
  Scope, Authenticated, anonymous, identified, refused, raised, Passed, answered, on_error, raises,
  authenticated, call, granted, has_all, has_scopes, Argument, request, value, find_request,
  checked, Reply, ran, redirected, forbidden, no_request, unauthorized, requires,
}

-- What the backend found grants the scopes: it identified someone with each of them, or nobody, and
-- no scope is required.
abbrev pub Grants : {User Exc : Type 0} → List String → Authenticated User Exc → Type 0
Grants required anonymous = required ≡ []
Grants required (identified creds user) = All (λ s. Mem s creds.scopes) required
Grants required (refused e) = ⊥
Grants required (raised e) = ⊥

-- The endpoint gave the answer.
abbrev pub reached : {R Exc : Type 0} → Passed (Reply R) Exc → Bool
reached (answered (ran r)) = true
reached (answered (redirected url)) = false
reached (answered (forbidden status_code)) = false
reached (answered no_request) = false
reached (on_error e) = false
reached (raises e) = false

-- How the request is passed to the endpoint: by its position, behind some other values, or by keyword,
-- with values alone by position and behind some other keywords. What comes behind it is anything.
pub data Passing (User : Type 0) : Type 0 where
  by_position : ℕ → List (Argument User) → List (Argument User) → Passing User
  by_keyword : ℕ → ℕ → List (Argument User) → Passing User

module _ {User : Type 0} where
  abbrev pub behind : ℕ → List (Argument User) → List (Argument User)
  behind zero args = args
  behind (suc n) args = value ∷ behind n args

  abbrev pub args_of : Passing User → Scope User → List (Argument User)
  args_of (by_position n after kwargs) scope = behind n (request scope ∷ after)
  args_of (by_keyword n m after) scope = behind n []

  abbrev pub kwargs_of : Passing User → Scope User → List (Argument User)
  kwargs_of (by_position n after kwargs) scope = kwargs
  kwargs_of (by_keyword n m after) scope = behind m (request scope ∷ after)

  find-position :
      (n : ℕ) (scope : Scope User) (after kwargs : List (Argument User))
      → find_request (behind n (request scope ∷ after)) kwargs ≡ some scope
  unfolding find_request
  find-position zero scope after kwargs = refl
  find-position (suc n) scope after kwargs = find-position n scope after kwargs

  find-keyword :
      (n m : ℕ) (scope : Scope User) (after : List (Argument User))
      → find_request (behind n []) (behind m (request scope ∷ after)) ≡ some scope
  unfolding find_request
  find-keyword zero zero scope after = refl
  find-keyword zero (suc m) scope after = find-keyword zero m scope after
  find-keyword (suc n) m scope after = find-keyword n m scope after

  find-Passing :
      (p : Passing User) (scope : Scope User)
      → find_request (args_of p scope) (kwargs_of p scope) ≡ some scope
  find-Passing (by_position n after kwargs) scope = find-position n scope after kwargs
  find-Passing (by_keyword n m after) scope = find-keyword n m scope after

granted-mem : (s : String) (ts : List String) → granted s ts ≡ true → Mem s ts
unfolding granted
granted-mem s [] e = absurd (false≢true e)
granted-mem s (t ∷ ts) e = elim (Bool-cases (str_eq t s)) [
  | inl y ↦ subst (λ u. Mem u (t ∷ ts)) ((eq_iff t s).0 y) mem-cons_self
  | inr n ↦ mem-cons_of_mem t (granted-mem s ts (ground arith))
]

mem-granted : (s : String) (ts : List String) → Memᴰ s ts → granted s ts ≡ true
unfolding granted
mem-granted s [] m = elim m [ ]
mem-granted s (t ∷ ts) (Memᴰ.head e) = ground (arith, (eq_iff t s).1 (sym e))
mem-granted s (t ∷ ts) (Memᴰ.tail m) = ground (arith, mem-granted s ts m)

granted_iff : (s : String) (ts : List String) → (granted s ts ≡ true) ↔ Mem s ts
granted_iff s ts =
    (granted-mem s ts, λ m. ∥∥₁_elim {P = granted s ts ≡ true} m (hlevel) (mem-granted s ts))

has_all_iff :
    (required scopes : List String)
    → (has_all required scopes ≡ true) ↔ All (λ s. Mem s scopes) required
unfolding has_all
has_all_iff [] scopes = (λ e. tt, λ u. refl)
has_all_iff (s ∷ required) scopes =
    let here = granted_iff s scopes in
    let there = has_all_iff required scopes in
    (
      λ e. (here.0 (ground arith), there.0 (ground arith)),
      λ m. ground (arith, here.1 m.0, there.1 m.1),
    )

reached-checked :
    {R : Type 0} (Exc : Type 0) (b : Bool) (r : R) (status_code : ℕ) (redirect : Option String)
    → reached {R = R} {Exc = Exc}
        (answered (if b then ran r else unauthorized status_code redirect))
      ≡ b
reached-checked Exc true r status_code redirect = refl
reached-checked Exc false r status_code none = refl
reached-checked Exc false r status_code (some url) = ground (arith, Bool-cases (str_eq url ""))

empty_iff : (required : List String) → (has_all required [] ≡ true) ↔ (required ≡ [])
unfolding has_all granted
empty_iff [] = (λ e. refl, λ e. refl)
empty_iff (s ∷ required) = ground arith

module _ {User R : Type 0} (endpoint : List (Argument User) → List (Argument User) → R) where
  requires-Passing :
      (p : Passing User) (scope : Scope User) (required : List String) (status_code : ℕ)
      (redirect : Option String)
      → requires endpoint required status_code redirect (args_of p scope) (kwargs_of p scope) ≡ (
          if has_scopes scope.auth required
          then ran (endpoint (args_of p scope) (kwargs_of p scope))
          else unauthorized status_code redirect)
  unfolding requires
  requires-Passing p scope required status_code redirect =
      ap (checked endpoint required status_code redirect (args_of p scope) (kwargs_of p scope))
        (find-Passing p scope)

  reached-requires :
      (Exc : Type 0) (p : Passing User) (scope : Scope User) (required : List String)
      (status_code : ℕ) (redirect : Option String)
      → reached {R = R} {Exc = Exc} (
          answered
            (requires endpoint required status_code redirect (args_of p scope) (kwargs_of p scope)))
        ≡ has_scopes scope.auth required
  reached-requires Exc p scope required status_code redirect =
      ap (λ r. reached {R = R} {Exc = Exc} (answered r))
        (requires-Passing p scope required status_code redirect)
      ∙ reached-checked Exc (has_scopes scope.auth required)
          (endpoint (args_of p scope) (kwargs_of p scope)) status_code redirect

module _ {User Exc R : Type 0} (endpoint : List (Argument User) → List (Argument User) → R) where
  reached-authenticated :
      (p : Passing User) (a : Authenticated User Exc) (scope : Scope User) (required : List String)
      (status_code : ℕ) (redirect : Option String)
      → (reached (
            authenticated
              (λ s. requires endpoint required status_code redirect (args_of p s) (kwargs_of p s))
              scope
              a)
          ≡ true)
        ↔ Grants required a
  unfolding has_scopes
  reached-authenticated p anonymous scope required status_code redirect =
      rw
        (reached-requires endpoint Exc p
          (record { auth = some (record { scopes = [] }); user = some none }) required status_code
          redirect)
        (empty_iff required)
  reached-authenticated p (identified creds user) scope required status_code redirect =
      rw
        (reached-requires endpoint Exc p (record { auth = some creds; user = some (some user) })
          required status_code redirect)
        (has_all_iff required creds.scopes)
  reached-authenticated p (refused e) scope required status_code redirect =
      (λ e. false≢true e, λ v. absurd v)
  reached-authenticated p (raised e) scope required status_code redirect =
      (λ e. false≢true e, λ v. absurd v)

  -- Let an endpoint require scopes, and let it be called behind the middleware with a backend, with
  -- the request among its arguments, by position or by keyword, and no other request before it. It
  -- gives its own answer exactly if the backend identified a user whose credentials hold each of the
  -- scopes, or nobody and no scope is required. In every other case (a scope is missing, the backend
  -- refused or raised) it does not run, whatever was in the request's scope before.
  pub call-requires :
      (p : Passing User) (authenticate : Scope User → Authenticated User Exc) (scope : Scope User)
      (required : List String) (status_code : ℕ) (redirect : Option String)
      → (reached (
            call
              (λ s. requires endpoint required status_code redirect (args_of p s) (kwargs_of p s))
              (some authenticate)
              scope)
          ≡ true)
        ↔ Grants required (authenticate scope)
  unfolding call
  call-requires p authenticate scope required status_code redirect =
      reached-authenticated p (authenticate scope) scope required status_code redirect
