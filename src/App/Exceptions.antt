-- ===== src/App/Exceptions.antt =====
-- The exception handlers of python/fastapi_turbo/applications.py: registration, the look-up by class,
-- by base class and by status, and what the wrapped handler, or the door's dependency step, makes of
-- an exception. Classes, handlers and responses are the program's own; a class and a status code
-- are told apart as `Key`s of one dictionary.
pub mod Lookup
pub mod Capture
use fastapi_turbo.Prelude.{
  ℕ, Bool, true, false, not, ◌&&◌, ◌||◌, List, [], ◌∷◌, ◌++◌, Option, none, some, ◌==◌,
  if◌then◌else◌,
}

-- A class is a number; `exception_class` is the class `Exception` itself.
pub data Key : Type 0 where
  cls : ℕ → Key
  status : ℕ → Key

abbrev pub same_key : Key → Key → Bool
same_key (cls a) (cls b) = a == b
same_key (status a) (status b) = a == b
same_key _ _ = false

-- An exception: its class, the rest of the class's `__mro__`, and an `int` `status_code`, if it has one.
pub record Exc : Type 0 where
  pub type : ℕ
  pub parents : List ℕ
  pub status_code : Option ℕ

-- `isinstance(exc, c)`.
abbrev pub member : ℕ → List ℕ → Bool
member c [] = false
member c (d ∷ ds) = d == c || member c ds

abbrev pub is_instance : Exc → ℕ → Bool
is_instance e c = e.type == c || member c e.parents

module _ {Handler : Type 0} where
  -- `self.exception_handlers[key] = func`, in the order of insertion.
  unfoldable pub register : Key → Handler → List (Key × Handler) → List (Key × Handler)
  register k h [] = (k, h) ∷ []
  register k h ((j, g) ∷ hs) = if same_key j k then (j, h) ∷ hs else (j, g) ∷ register k h hs

  unfoldable pub handler_of : Key → List (Key × Handler) → Option Handler
  handler_of k [] = none
  handler_of k ((j, h) ∷ hs) = if same_key j k then some h else handler_of k hs

  abbrev pub or_else : Option Handler → Option Handler → Option Handler
  or_else none o = o
  or_else (some h) o = some h

  -- The loop over `cls.__mro__[1:]`.
  unfoldable pub first_parent : List ℕ → List (Key × Handler) → Option Handler
  unfolding handler_of
  first_parent [] hs = none
  first_parent (c ∷ cs) hs = or_else (handler_of (cls c) hs) (first_parent cs hs)

  abbrev pub by_status : Option ℕ → List (Key × Handler) → Option Handler
  by_status none hs = none
  by_status (some n) hs = handler_of (status n) hs

  -- `_lookup_exception_handler`.
  unfoldable pub lookup_exception_handler : Exc → List (Key × Handler) → Option Handler
  unfolding handler_of first_parent
  lookup_exception_handler e hs =
      or_else (handler_of (cls e.type) hs)
        (or_else (first_parent e.parents hs) (by_status e.status_code hs))

  -- A registered class other than `Exception` matches.
  unfoldable pub handled_specific : ℕ → Exc → List (Key × Handler) → Bool
  handled_specific exception_class e [] = false
  handled_specific exception_class e ((cls c, h) ∷ hs) =
      (not (c == exception_class) && is_instance e c) || handled_specific exception_class e hs
  handled_specific exception_class e ((status n, h) ∷ hs) = handled_specific exception_class e hs

-- How the call of a handler ends: a response, `None`, or an exception of its own.
pub data Answer (Response : Type 0) : Type 0 where
  response : Response → Answer Response
  nothing : Answer Response
  fails : Answer Response

-- How the wrapped handler ends: with a response, or by raising the exception again.
pub data Ending (Response : Type 0) : Type 0 where
  returns : Response → Ending Response
  raises : Exc → Ending Response

-- What the endpoint itself did.
pub data Body (Response : Type 0) : Type 0 where
  result : Response → Body Response
  raised : Exc → Body Response

module _ {Handler Response : Type 0} (call : Handler → Exc → Answer Response) where
  abbrev pub answered : Answer Response → Option Response
  answered (response r) = some r
  answered nothing = none
  answered fails = none

  abbrev pub invoke_found : Exc → Option Handler → Option Response
  invoke_found e none = none
  invoke_found e (some h) = answered (call h e)

  -- `_invoke_exception_handler`: what the handler raises is dropped.
  unfoldable pub invoke_exception_handler : Exc → List (Key × Handler) → Option Response
  unfolding lookup_exception_handler
  invoke_exception_handler e hs = invoke_found e (lookup_exception_handler e hs)

  -- `_invoke_exception_handler_strict`: what the handler raises leaves the call.
  abbrev pub strict_found : Exc → Option Handler → Answer Response
  strict_found e none = nothing
  strict_found e (some h) = call h e

  unfoldable pub invoke_exception_handler_strict : Exc → List (Key × Handler) → Answer Response
  unfolding lookup_exception_handler
  invoke_exception_handler_strict e hs = strict_found e (lookup_exception_handler e hs)

  abbrev pub has : Option Response → Bool
  has none = false
  has (some r) = true

  abbrev pub reply_or_raise : Exc → Option Response → Ending Response
  reply_or_raise e none = raises e
  reply_or_raise e (some r) = returns r

  module _ (exception_class http_class : ℕ) where
    -- `_captured_server_exceptions` after the wrapper: all but an HTTPException, and all but one
    -- that a handler of a specific class answered.
    unfoldable pub capture : Exc → Option Response → List (Key × Handler) → List Exc → List Exc
    unfolding handled_specific
    capture e r hs captured =
        if not (is_instance e http_class) && not (has r && handled_specific exception_class e hs)
        then captured ++ e ∷ []
        else captured

    abbrev pub dispatched :
        Body Response → List (Key × Handler) → List Exc → Ending Response × List Exc
    dispatched (result r) hs captured = (returns r, captured)
    dispatched (raised e) hs captured =
        let r = invoke_exception_handler e hs in
        if is_instance e exception_class
        then (reply_or_raise e r, capture e r hs captured)
        else (raises e, captured)

    abbrev pub unwrapped : Body Response → Ending Response
    unwrapped (result r) = returns r
    unwrapped (raised e) = raises e

    -- `_wrap_with_exception_handlers`: the handlers at the time of the wrapping decide whether the
    -- handler is wrapped, those at the time of the call what is done; `except Exception` lets any other
    -- `BaseException` pass.
    unfoldable pub wrap_with_exception_handlers :
        List (Key × Handler)
        → Body Response
        → List (Key × Handler)
        → List Exc
        → Ending Response × List Exc
    unfolding invoke_exception_handler capture
    wrap_with_exception_handlers [] body hs captured = (unwrapped body, captured)
    wrap_with_exception_handlers (h ∷ at_wrap) body hs captured = dispatched body hs captured

    abbrev pub keep_dep :
        Exc → Option Response → List (Key × Handler) → List Exc → Option Response × List Exc
    keep_dep e none hs captured = (none, captured)
    keep_dep e (some r) hs captured =
        (some r, (if handled_specific exception_class e hs then captured else captured ++ e ∷ []))

    -- `_door_handle_dep_exception`: `none` leaves the exception to the Rust side.
    unfoldable pub door_handle_dep_exception :
        Exc → List (Key × Handler) → List Exc → Option Response × List Exc
    unfolding invoke_exception_handler handled_specific
    door_handle_dep_exception e [] captured = (none, captured)
    door_handle_dep_exception e (h ∷ hs) captured =
        if is_instance e http_class
        then (none, captured)
        else keep_dep e (invoke_exception_handler e (h ∷ hs)) (h ∷ hs) captured
