-- ===== src/Door/Mount/Render.antt =====
-- `_asgi_call_mounted` of python/fastapi_turbo/applications.py: the call of a mounted application, whose
-- `HTTPException` the application above it renders. What the mounted application sends and raises, and
-- what the handlers do, is theirs; the default handler is FastAPI's.
use mathlib.Core.Bool.{false≢true}
use fastapi_turbo.Prelude.{
  sym, not, ◌&&◌, ℕ, suc, ◌+◌, ◌≤◌, ◌≡◌, refl, Bool, true, false, List, [], ◌∷◌, ◌++◌, Option, none,
  some, arith, if◌then◌else◌,
}
use fastapi_turbo.App.Exceptions.{Key, Exc, lookup_exception_handler}

-- `http.response.start`, and any other message.
pub data Message : Type 0 where
  start other : Message

-- How a call ends: it returns, raises an `HTTPException`, or raises something else.
pub data Ended : Type 0 where
  returned : Ended
  http_exception : Exc → Ended
  exception : ℕ → Ended

-- What was sent, and how the call ended.
abbrev pub Call : Type 0
Call = List Message × Ended

-- `started`, which the `send` that is handed down sets.
unfoldable pub started : List Message → Bool
started [] = false
started (start ∷ ms) = true
started (other ∷ ms) = started ms

abbrev pub starts : List Message → ℕ
starts [] = 0
starts (start ∷ ms) = suc (starts ms)
starts (other ∷ ms) = starts ms

abbrev pub is_http : Ended → Bool
is_http (http_exception e) = true
is_http _ = false

starts-append : (ms ns : List Message) → starts (ms ++ ns) ≡ starts ms + starts ns
starts-append [] ns = omega arith
starts-append (start ∷ ms) ns = omega (arith, starts-append ms ns)
starts-append (other ∷ ms) ns = starts-append ms ns

starts-unstarted : (ms : List Message) → started ms ≡ false → starts ms ≡ 0
unfolding started
starts-unstarted [] q = refl
starts-unstarted (start ∷ ms) q = absurd (false≢true (sym q))
starts-unstarted (other ∷ ms) q = starts-unstarted ms q

started-append : (ms ns : List Message) → started ns ≡ true → started (ms ++ ns) ≡ true
unfolding started
started-append [] ns q = q
started-append (start ∷ ms) ns q = refl
started-append (other ∷ ms) ns q = started-append ms ns q

-- At most one response is begun, and an `HTTPException` is raised only when one was.
abbrev pub Proper : Call → Type 0
Proper call = (starts call.0 ≤ 1) × ((is_http call.1 && not (started call.0)) ≡ false)

and_never : (a b : Bool) → b ≡ true → (a && not b) ≡ false
and_never a b q = ground arith

render-Proper :
    (sent : List Message) (e : Exc) (r : Call) (b : Bool)
    → started sent ≡ b
    → starts sent ≤ 1
    → starts r.0 ≤ 1
    → started r.0 ≡ true
    → Proper (if b then (sent, http_exception e) else (sent ++ r.0, r.1))
render-Proper sent e r true q h k s = (h, and_never true (started sent) q)
render-Proper sent e r false q h k s = (
  omega (arith, starts-append sent r.0, starts-unstarted sent q, k),
  and_never (is_http r.1) (started (sent ++ r.0)) (started-append sent r.0 s),
)

module _ {Handler : Type 0} where
  abbrev pub or_default : Handler → Option Handler → Handler
  or_default default none = default
  or_default default (some h) = h

  -- The `except` block; `answer` is the call of a handler, and of the response that it gives.
  abbrev pub render :
      (Handler → Exc → Call) → Handler → List (Key × Handler) → List Message → Ended → Call
  render answer default hs sent returned = (sent, returned)
  render answer default hs sent (exception x) = (sent, exception x)
  render answer default hs sent (http_exception e) =
      let r = answer (or_default default (lookup_exception_handler e hs)) e in
      if started sent then (sent, http_exception e) else (sent ++ r.0, r.1)

  -- `_asgi_call_mounted`.
  unfoldable pub asgi_call_mounted :
      (Handler → Exc → Call) → Handler → List (Key × Handler) → Call → Call
  asgi_call_mounted answer default hs call = render answer default hs call.0 call.1

  -- Let the mounted application begin at most one response, and let every handler, in answer to any
  -- exception, begin just one. Then the whole call begins at most one response, and an `HTTPException`
  -- leaves it only if a response was begun.
  pub asgi_call_mounted-Proper :
      (answer : Handler → Exc → Call) (default : Handler) (hs : List (Key × Handler)) (call : Call)
      → starts call.0 ≤ 1
      → ((h : Handler) (e : Exc) → starts (answer h e).0 ≤ 1)
      → ((h : Handler) (e : Exc) → started (answer h e).0 ≡ true)
      → Proper (asgi_call_mounted answer default hs call)
  unfolding asgi_call_mounted
  asgi_call_mounted-Proper answer default hs (sent, returned) h k s = (h, refl)
  asgi_call_mounted-Proper answer default hs (sent, exception x) h k s = (h, refl)
  asgi_call_mounted-Proper answer default hs (sent, http_exception e) h k s =
      let handler = or_default default (lookup_exception_handler e hs) in
      render-Proper sent e (answer handler e) (started sent) refl h (k handler e) (s handler e)
