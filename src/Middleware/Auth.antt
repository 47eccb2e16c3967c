-- ===== src/Middleware/Auth.antt =====
-- python/fastapi_turbo/authentication.py: `AuthenticationMiddleware`, which asks a backend who makes the
-- request, and `requires`, which lets an endpoint run only with the scopes that it names. Backends and
-- endpoints are the program's own.
pub mod Grants
use fastapi_turbo.Prelude.{
  ℕ, String, Bool, true, false, ◌&&◌, ◌||◌, List, [], ◌∷◌, Option, none, some, if◌then◌else◌,
  str_eq,
}

-- `AuthCredentials`.
pub record AuthCredentials : Type 0 where
  pub scopes : List String

-- `request.scope["auth"]` and `request.scope["user"]`, an unauthenticated user being `none`.
pub record Scope (User : Type 0) : Type 0 where
  pub auth : Option AuthCredentials
  pub user : Option (Option User)

-- How `authenticate` ends: no credentials, credentials with a user, an `AuthenticationError`, or any
-- other exception.
pub data Authenticated (User Exc : Type 0) : Type 0 where
  anonymous : Authenticated User Exc
  identified : AuthCredentials → User → Authenticated User Exc
  refused raised : Exc → Authenticated User Exc

-- How the middleware ends: with what the rest answers to a request, with the answer of `on_error`, or
-- with an exception.
pub data Passed (A Exc : Type 0) : Type 0 where
  answered : A → Passed A Exc
  on_error raises : Exc → Passed A Exc

abbrev pub set_default : {A : Type 0} → Option A → A → Option A
set_default none a = some a
set_default (some b) a = some b

module _ {User Exc A : Type 0} (call_next : Scope User → A) where
  abbrev pub authenticated : Scope User → Authenticated User Exc → Passed A Exc
  authenticated scope anonymous =
      answered (call_next (record { auth = some (record { scopes = [] }); user = some none }))
  authenticated scope (identified creds user) =
      answered (call_next (record { auth = some creds; user = some (some user) }))
  authenticated scope (refused e) = on_error e
  authenticated scope (raised e) = raises e

  -- `AuthenticationMiddleware.__call__`.
  unfoldable pub call : Option (Scope User → Authenticated User Exc) → Scope User → Passed A Exc
  call none scope = answered (
      call_next (record {
        auth = set_default scope.auth (record { scopes = [] });
        user = set_default scope.user none;
      }))
  call (some authenticate) scope = authenticated scope (authenticate scope)

-- `s in granted`, and the `all` of `_has_scopes`.
unfoldable pub granted : String → List String → Bool
granted s [] = false
granted s (t ∷ ts) = str_eq t s || granted s ts

unfoldable pub has_all : List String → List String → Bool
unfolding granted
has_all [] scopes = true
has_all (s ∷ required) scopes = granted s scopes && has_all required scopes

-- `_has_scopes`.
unfoldable pub has_scopes : Option AuthCredentials → List String → Bool
unfolding has_all
has_scopes none required = false
has_scopes (some auth) required = has_all required auth.scopes

-- An argument of the endpoint is a request or another value.
pub data Argument (User : Type 0) : Type 0 where
  request : Scope User → Argument User
  value : Argument User

-- `_find_request`, in the positional arguments and then in the others.
unfoldable pub find_request :
    {User : Type 0} → List (Argument User) → List (Argument User) → Option (Scope User)
find_request [] [] = none
find_request [] (request scope ∷ kwargs) = some scope
find_request [] (value ∷ kwargs) = find_request [] kwargs
find_request (request scope ∷ args) kwargs = some scope
find_request (value ∷ args) kwargs = find_request args kwargs

-- What a call of the decorated endpoint comes to: the endpoint's own answer, a redirection with 303,
-- an answer with the status code, or the `RuntimeError` of an endpoint without a request.
pub data Reply (R : Type 0) : Type 0 where
  ran : R → Reply R
  redirected : String → Reply R
  forbidden : ℕ → Reply R
  no_request : Reply R

-- `_unauthorized`: an empty URL is no redirection.
abbrev pub unauthorized : {R : Type 0} → ℕ → Option String → Reply R
unauthorized status_code none = forbidden status_code
unauthorized status_code (some url) =
    if str_eq url "" then forbidden status_code else redirected url

module _ {User R : Type 0} (endpoint : List (Argument User) → List (Argument User) → R) where
  abbrev pub checked :
      List String
      → ℕ
      → Option String
      → List (Argument User)
      → List (Argument User)
      → Option (Scope User)
      → Reply R
  checked required status_code redirect args kwargs none = no_request
  checked required status_code redirect args kwargs (some scope) =
      if has_scopes scope.auth required
      then ran (endpoint args kwargs)
      else unauthorized status_code redirect

  -- `requires`.
  unfoldable pub requires :
      List String → ℕ → Option String → List (Argument User) → List (Argument User) → Reply R
  unfolding has_scopes find_request
  requires required status_code redirect args kwargs =
      checked required status_code redirect args kwargs (find_request args kwargs)
