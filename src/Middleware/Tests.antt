-- ===== src/Middleware/Tests.antt =====
-- The middleware on concrete requests.
use fastapi_turbo.Prelude.{
  same, ℕ, ◌≡◌, refl, ◌↔◌, ◌==◌, if◌then◌else◌, true, List, [], ◌∷◌, ◌++◌, map, none, some,
}
use fastapi_turbo.Middleware.TrustedHost.{
  contains, entry_for, before_first, http, forwards, call, is_valid_host, host_header, match_host,
}
use fastapi_turbo.Middleware.TrustedHost.Match.{
  name_of, call-subdomain, is_valid_host-port, match_host-registered,
}
use fastapi_turbo.Middleware.Auth.{Scope, Authenticated, identified, requires}
use fastapi_turbo.Middleware.Auth as Auth
use fastapi_turbo.Middleware.Auth.Grants.{
  Grants, Passing, by_keyword, args_of, kwargs_of, reached, call-requires,
}

abbrev first : ℕ
first = 1

abbrev second : ℕ
second = 2

-- ASCII upper case becomes lower case.
abbrev lower : ℕ → ℕ
lower c = if c == 65 then 97 else c

-- "Host: b.A:80"
abbrev headers : List (List ℕ × List ℕ)
headers = (104 ∷ 111 ∷ 115 ∷ 116 ∷ [], 98 ∷ 46 ∷ 65 ∷ 58 ∷ 56 ∷ 48 ∷ []) ∷ []

subdomain_example : (call lower http ((42 ∷ 46 ∷ 97 ∷ []) ∷ []) headers ≡ forwards) ↔ (
    (sub : List ℕ) × (map lower (name_of (host_header lower headers))
      ≡ sub ++ 46 ∷ map lower (97 ∷ [])))
subdomain_example = call-subdomain lower (97 ∷ []) headers refl refl

port_example :
    is_valid_host lower ((97 ∷ []) ∷ []) ((65 ∷ []) ++ 58 ∷ 56 ∷ [])
    ≡ is_valid_host lower ((97 ∷ []) ∷ []) (65 ∷ [])
unfolding contains
port_example = is_valid_host-port lower ((97 ∷ []) ∷ []) (65 ∷ []) (56 ∷ []) refl

registered_example :
    match_host lower
      ((98 ∷ [], some first) ∷ (65 ∷ [], some second) ∷ [])
      ((97 ∷ []) ++ 58 ∷ 56 ∷ [])
    ≡ some second
unfolding contains entry_for same before_first
registered_example =
    match_host-registered lower ((98 ∷ [], some first) ∷ []) [] (65 ∷ []) (97 ∷ []) (56 ∷ []) second
      refl refl refl

abbrev backend : Scope ℕ → Authenticated ℕ ℕ
backend scope = identified (record { scopes = "admin" ∷ [] }) 7

abbrev nobody : Scope ℕ
nobody = record { auth = none; user = none }

-- As the wrapper of the middlewares calls an endpoint: by keyword alone.
abbrev passed : Passing ℕ
passed = by_keyword 0 1 []

requires_example :
    (reached (
        Auth.call
          (λ s.
            requires
              (λ args kwargs. first)
              ("admin" ∷ [])
              403
              none
              (args_of passed s)
              (kwargs_of passed s))
          (some backend)
          nobody)
      ≡ true)
    ↔ Grants ("admin" ∷ []) (backend nobody)
requires_example =
    call-requires (λ args kwargs. first) passed backend nobody ("admin" ∷ []) 403 none
