-- ===== src/Middleware/Chain.antt =====
-- `_wrap_with_http_middlewares` of python/fastapi_turbo/_middleware_wrap.py: the chain of
-- `@app.middleware("http")` functions around an endpoint, driven without an event loop, and the fallback
-- `_drive_async_fallback` when something in it waits. What a middleware and an endpoint do is the
-- program's own, up to the points at which they wait, call the rest of the chain, or end. Requests,
-- validation errors that were put off, Sentry's hooks, the encoding of results and the `finally` that
-- runs tasks and teardowns are not modelled; an endpoint's result is a response, and a middleware is a
-- coroutine function or an object whose `__call__` is one.
pub mod Onion
pub mod Layers
pub mod Fallback
pub mod Finally
mod Tests
use mathlib.Core.List.{reverse}
use fastapi_turbo.Prelude.{
  ℕ, Bool, true, false, List, [], ◌∷◌, ◌++◌, Option, none, some, if◌then◌else◌,
}

-- What is raised: an exception of the program, or `_MiddlewareSuspendedError`, which is an `Exception`
-- too, so that the program can catch it.
pub data Raised (Exc : Type 0) : Type 0 where
  user : Exc → Raised Exc
  middleware_suspended : Raised Exc

-- How a call ends. `unawaited` is a coroutine returned in place of a response.
pub data Out (Response Exc : Type 0) : Type 0 where
  ok : Response → Out Response Exc
  unawaited : Out Response Exc
  fails : Raised Exc → Out Response Exc

-- The body of an endpoint: it does something that can be seen, waits, or ends.
pub data Body (Response Exc : Type 0) : Type 0 where
  returns : Response → Body Response Exc
  raises : Exc → Body Response Exc
  acts : ℕ → Body Response Exc → Body Response Exc
  awaits : Body Response Exc → Body Response Exc

-- An endpoint. `private` is what it raises when it is called with the framework's own keyword arguments,
-- such as `_middleware_request`, if it does not take them.
pub record Endpoint (Response Exc : Type 0) : Type 0 where
  pub body : Body Response Exc
  pub private : Option Exc

-- The body of a middleware; `next` is `await call_next(request)`, and what comes of it.
pub data Script (Response Exc : Type 0) : Type 0 where
  ends : Out Response Exc → Script Response Exc
  acts : ℕ → Script Response Exc → Script Response Exc
  awaits : Script Response Exc → Script Response Exc
  next : (Out Response Exc → Script Response Exc) → Script Response Exc

-- A coroutine function, or an object whose `__call__` is one.
pub record Middleware (Response Exc : Type 0) : Type 0 where
  pub is_function : Bool
  pub script : Script Response Exc

-- What could be seen of a call, in order, and how it ended.
abbrev pub Call : Type 0 → Type 0 → Type 0
Call Response Exc = List ℕ × Out Response Exc

module _ {Response Exc : Type 0} where
  abbrev pub seen : ℕ → Call Response Exc → Call Response Exc
  seen n call = (n ∷ call.0, call.1)

  abbrev pub after : Call Response Exc → Call Response Exc → Call Response Exc
  after first rest = (first.0 ++ rest.0, rest.1)

  -- `coro.send(None)` on the endpoint: the first wait ends it.
  unfoldable pub send_endpoint : Body Response Exc → Call Response Exc
  send_endpoint (returns r) = ([], ok r)
  send_endpoint (raises e) = ([], fails (user e))
  send_endpoint (acts n b) = seen n (send_endpoint b)
  send_endpoint (awaits b) = ([], fails middleware_suspended)

  -- What becomes of an exception of the endpoint: `convert` is the response made of an `HTTPException`
  -- or by a registered handler, if there is one.
  abbrev pub converted : (Exc → Option Response) → Exc → Option Response → Out Response Exc
  converted convert e (some r) = ok r
  converted convert e none = fails (user e)

  abbrev pub normalised : (Exc → Option Response) → Call Response Exc → Call Response Exc
  normalised convert (log, ok r) = (log, ok r)
  normalised convert (log, unawaited) = (log, unawaited)
  normalised convert (log, fails (user e)) = (log, converted convert e (convert e))
  normalised convert (log, fails middleware_suspended) = (log, fails middleware_suspended)

  -- `_call_handler_sync`, which takes the private arguments away.
  unfoldable pub call_handler_sync :
      (Exc → Option Response) → Endpoint Response Exc → Call Response Exc
  call_handler_sync convert endpoint = normalised convert (send_endpoint endpoint.body)

  -- `coro.send(None)` on one middleware around the rest of the chain.
  unfoldable pub send_middleware : Script Response Exc → Call Response Exc → Call Response Exc
  send_middleware (ends o) inner = ([], o)
  send_middleware (acts n s) inner = seen n (send_middleware s inner)
  send_middleware (awaits s) inner = ([], fails middleware_suspended)
  send_middleware (next k) inner = after inner (send_middleware (k inner.1) inner)

  -- `_run_chain`, on the middlewares from the outermost in.
  unfoldable pub run_chain : List (Middleware Response Exc) → Call Response Exc → Call Response Exc
  run_chain [] handler = handler
  run_chain (m ∷ ms) handler = send_middleware m.script (run_chain ms handler)

  -- The same on an event loop: a wait is only a wait.
  unfoldable pub run_endpoint : Body Response Exc → Call Response Exc
  run_endpoint (returns r) = ([], ok r)
  run_endpoint (raises e) = ([], fails (user e))
  run_endpoint (acts n b) = seen n (run_endpoint b)
  run_endpoint (awaits b) = run_endpoint b

  unfoldable pub run_middleware : Script Response Exc → Call Response Exc → Call Response Exc
  run_middleware (ends o) inner = ([], o)
  run_middleware (acts n s) inner = seen n (run_middleware s inner)
  run_middleware (awaits s) inner = run_middleware s inner
  run_middleware (next k) inner = after inner (run_middleware (k inner.1) inner)

  -- `build` of the fallback; an object whose `__call__` is a coroutine function is not awaited there.
  unfoldable pub build : List (Middleware Response Exc) → Call Response Exc → Call Response Exc
  build [] handler = handler
  build (m ∷ ms) handler =
      let inner = build ms handler in
      if m.is_function then run_middleware m.script inner else ([], unawaited)

  -- `call_handler` of the fallback, which leaves them in.
  abbrev pub with_private : Body Response Exc → Option Exc → Call Response Exc
  with_private b none = run_endpoint b
  with_private b (some e) = ([], fails (user e))

  -- `_drive_async_fallback`.
  unfoldable pub drive_async_fallback :
      List (Middleware Response Exc) → Endpoint Response Exc → Call Response Exc
  drive_async_fallback ms endpoint = build ms (with_private endpoint.body endpoint.private)

  abbrev pub unless_suspended : Call Response Exc → Call Response Exc → Call Response Exc
  unless_suspended (log, ok r) fallback = (log, ok r)
  unless_suspended (log, unawaited) fallback = (log, unawaited)
  unless_suspended (log, fails (user e)) fallback = (log, fails (user e))
  unless_suspended (log, fails middleware_suspended) fallback = (log ++ fallback.0, fallback.1)

  -- `wrapped_sync` up to its `finally`, on the middlewares in the order of declaration.
  unfoldable pub wrapped_sync :
      (Exc → Option Response)
      → List (Middleware Response Exc)
      → Endpoint Response Exc
      → Call Response Exc
  wrapped_sync convert ms endpoint =
      unless_suspended (run_chain (reverse ms) (call_handler_sync convert endpoint))
        (drive_async_fallback (reverse ms) endpoint)
