-- ===== src/Middleware/Shim.antt =====
-- `_make_asgi_middleware_shim` of python/fastapi_turbo/_middleware_wrap.py: a raw ASGI middleware made into
-- one that takes a request and `call_next`. The middleware is the program's own, up to what it sends,
-- how it ends, and its call of the application below it, whose messages pass through a `send` of the
-- middleware's. Making the instance, `receive` and Sentry's naming are not modelled.
pub mod Calls
mod Tests
use fastapi_turbo.Prelude.{ℕ, suc, Bool, true, false, List, [], ◌∷◌, ◌++◌, Option, none, some}

pub data Frame (Headers : Type 0) : Type 0 where
  start : ℕ → Headers → Frame Headers
  body : List ℕ → Frame Headers

-- A response; a streaming one has no `body`.
pub record Response (Headers : Type 0) : Type 0 where
  pub status : ℕ
  pub headers : Headers
  pub content : Option (List ℕ)

-- What `call_next` does: it gives a response, or raises.
pub data Next (Headers Exc : Type 0) : Type 0 where
  responds : Response Headers → Next Headers Exc
  fails : Exc → Next Headers Exc

-- A middleware. `calls_app` is `await self.app(scope, receive, send)`: what comes next may depend on the
-- messages that the application sent, and on what it raised.
pub data Script (Headers Exc : Type 0) : Type 0 where
  returns : Script Headers Exc
  raises : Exc → Script Headers Exc
  sends : Frame Headers → Script Headers Exc → Script Headers Exc
  calls_app : (List (Frame Headers) → Option Exc → Script Headers Exc) → Script Headers Exc

-- `captured`: the status and the headers, once there was a start, and the body.
pub record Captured (Headers : Type 0) : Type 0 where
  pub begun : Option (ℕ × Headers)
  pub content : List ℕ

abbrev pub nothing_captured : {Headers : Type 0} → Captured Headers
nothing_captured = record { begun = none; content = [] }

-- What was captured, what the middleware raised, and how often `call_next` was called.
abbrev pub Driven : Type 0 → Type 0 → Type 0
Driven Headers Exc = Captured Headers × Option Exc × ℕ

-- `_send`.
unfoldable pub capture : {Headers : Type 0} → Frame Headers → Captured Headers → Captured Headers
capture (start status headers) c = record c { begun = some (status, headers) }
capture (body chunk) c = record c { content = c.content ++ chunk }

abbrev pub content_of : Option (List ℕ) → List ℕ
content_of none = []
content_of (some bytes) = bytes

module _ {Headers Exc : Type 0} where
  -- What `_inner_asgi_proxy` sends: the response, or, before it raises again, a response of its own.
  abbrev pub proxy_frames : Response Headers → Next Headers Exc → List (Frame Headers)
  proxy_frames error (responds r) = start r.status r.headers ∷ body (content_of r.content) ∷ []
  proxy_frames error (fails e) =
      start error.status error.headers ∷ body (content_of error.content) ∷ []

  abbrev pub proxy_raises : Next Headers Exc → Option Exc
  proxy_raises (responds r) = none
  proxy_raises (fails e) = some e

  abbrev pub called_once : Driven Headers Exc → Driven Headers Exc
  called_once (c, e, n) = (c, e, suc n)

  -- `await instance(scope, _receive, _send)`; `error` is the response with the status 500.
  unfoldable pub drive :
      Response Headers
      → Next Headers Exc
      → Script Headers Exc
      → Captured Headers
      → Driven Headers Exc
  drive error next returns c = (c, none, 0)
  drive error next (raises e) c = (c, some e, 0)
  drive error next (sends f s) c = drive error next s (capture f c)
  drive error next (calls_app k) c =
      called_once (drive error next (k (proxy_frames error next) (proxy_raises next)) c)

  -- `convert` is the response made of an `HTTPException`, and none for any other exception.
  abbrev pub converted : Exc → Option (Response Headers) → Next Headers Exc
  converted e none = fails e
  converted e (some r) = responds r

  abbrev pub answer :
      (Exc → Option (Response Headers))
      → Next Headers Exc
      → Driven Headers Exc
      → Next Headers Exc × ℕ
  answer convert next (c, some e, n) = (converted e (convert e), n)
  answer convert next (c, none, n) = from_captured c.begun
    where
      from_captured : Option (ℕ × Headers) → Next Headers Exc × ℕ
      from_captured none = (next, suc n)
      from_captured (some (status, headers)) =
          (responds (record { status = status; headers = headers; content = some c.content }), n)

  -- `_shim`: what it answers, and how often it called `call_next`; `aside` is whether it is Sentry's
  -- middleware inside another one of Sentry's.
  unfoldable pub shim :
      Bool
      → Response Headers
      → (Exc → Option (Response Headers))
      → Next Headers Exc
      → Script Headers Exc
      → Next Headers Exc × ℕ
  shim true error convert next s = (next, 1)
  shim false error convert next s = answer convert next (drive error next s nothing_captured)
