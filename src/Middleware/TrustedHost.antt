-- ===== src/Middleware/TrustedHost.antt =====
-- `TrustedHostMiddleware` of python/fastapi_turbo/middleware/trustedhost.py, and the look-up of a
-- sub-application by host, `_match_host` in `FastAPI.host` (python/fastapi_turbo/applications.py).
-- Text is a list of code points. Headers are Latin-1, on which `str.lower` works code point by code
-- point, by a function that is Python's own.
pub mod Match
use fastapi_turbo.Prelude.{
  ℕ, Bool, true, false, not, ◌&&◌, ◌||◌, List, [], ◌∷◌, map, Option, none, some, ◌==◌,
  if◌then◌else◌, same,
}

-- `s.endswith(t)`.
unfoldable pub endswith : List ℕ → List ℕ → Bool
unfolding same
endswith [] t = same [] t
endswith (a ∷ s) t = same (a ∷ s) t || endswith s t

-- `s.split(c)[0]`.
unfoldable pub before_first : ℕ → List ℕ → List ℕ
before_first c [] = []
before_first c (a ∷ s) = if a == c then [] else a ∷ before_first c s

unfoldable pub contains : ℕ → List ℕ → Bool
contains c [] = false
contains c (a ∷ s) = a == c || contains c s

-- `pattern.startswith("*.") and host.endswith(pattern[1:])`.
unfoldable pub wildcard_match : List ℕ → List ℕ → Bool
unfolding endswith
wildcard_match [] host = false
wildcard_match (a ∷ []) host = false
wildcard_match (a ∷ b ∷ rest) host = (a == 42 && b == 46) && endswith host (b ∷ rest)

-- `list(allowed_hosts) if allowed_hosts else ["*"]`.
unfoldable pub allowed_of : Option (List (List ℕ)) → List (List ℕ)
allowed_of none = (42 ∷ []) ∷ []
allowed_of (some []) = (42 ∷ []) ∷ []
allowed_of (some (h ∷ hs)) = h ∷ hs

-- `"*" in self.allowed_hosts`.
unfoldable pub allow_all : List (List ℕ) → Bool
unfolding same
allow_all [] = false
allow_all (p ∷ ps) = same p (42 ∷ []) || allow_all ps

-- `scope["type"]`.
pub data Kind : Type 0 where
  http websocket other : Kind

-- The application is called; or the answer is 400, or a close with 1008.
pub data Decision : Type 0 where
  forwards bad_request policy_close : Decision

module _ (lower : ℕ → ℕ) where
  unfoldable pub pattern_match : List ℕ → List ℕ → Bool
  unfolding same wildcard_match
  pattern_match host p = same (map lower p) host || wildcard_match (map lower p) host

  unfoldable pub any_pattern : List ℕ → List (List ℕ) → Bool
  unfolding pattern_match
  any_pattern host [] = false
  any_pattern host (p ∷ ps) = pattern_match host p || any_pattern host ps

  -- `is_valid_host`.
  unfoldable pub is_valid_host : List (List ℕ) → List ℕ → Bool
  unfolding any_pattern before_first contains allow_all
  is_valid_host allowed host =
      allow_all allowed
      || any_pattern (map lower (if contains 58 host then before_first 58 host else host)) allowed

  -- The value of the first header that is called `host`, in any case.
  unfoldable pub host_header : List (List ℕ × List ℕ) → List ℕ
  unfolding same
  host_header [] = []
  host_header ((name, value) ∷ headers) =
      if same (map lower name) (104 ∷ 111 ∷ 115 ∷ 116 ∷ []) then value else host_header headers

  abbrev pub admitted : Kind → Bool → Decision
  admitted other valid = forwards
  admitted http true = forwards
  admitted http false = bad_request
  admitted websocket true = forwards
  admitted websocket false = policy_close

  -- `__call__`.
  unfoldable pub call : Kind → List (List ℕ) → List (List ℕ × List ℕ) → Decision
  unfolding is_valid_host host_header
  call kind allowed headers = admitted kind (is_valid_host allowed (host_header headers))

  -- `_match_host`: the registered hosts, in order, with their sub-applications.
  abbrev pub found_or : {App : Type 0} → Bool → Option App → Option App → Option App
  found_or true sub rest = sub
  found_or false sub rest = rest

  unfoldable pub entry_for : {App : Type 0} → List ℕ → List (List ℕ × Option App) → Option App
  unfolding same contains before_first
  entry_for hs [] = none
  entry_for hs ((name, none) ∷ entries) = entry_for hs entries
  entry_for hs ((name, some app) ∷ entries) =
      let hn = map lower name in
      found_or (same hn hs || (not (contains 46 hn) && same (before_first 46 hs) hn)) (some app)
        (entry_for hs entries)

  unfoldable pub match_host : {App : Type 0} → List (List ℕ × Option App) → List ℕ → Option App
  unfolding entry_for before_first
  match_host entries [] = none
  match_host entries (c ∷ header) = entry_for (map lower (before_first 58 (c ∷ header))) entries
