-- ===== src/Door/Oneshot.antt =====
-- `_asgi_oneshot_http` (python/fastapi_turbo/applications.py): one HTTP request through the in-process
-- door. The Rust engine is not part of the program here: the response it produces is given, with what
-- happens at each turn of the loop that sends it. Header names and bytes are numbers; `watch` is what
-- `_oneshot_needs_disconnect_watch` says. That sending the response's start or its last frame raises
-- is not modelled.
pub mod Frames
mod Tests
use fastapi_turbo.Prelude.{
  ℕ, Bool, true, false, not, ◌&&◌, ◌||◌, List, [], ◌∷◌, ◌++◌, map, Option, none, some, ◌==◌, ltb,
  if◌then◌else◌, same,
}

-- What `receive` gives: `http.disconnect`, or a part of the body with `more_body`.
pub data Received : Type 0 where
  disconnect : Received
  body : List ℕ → Bool → Received

-- The drained body; or the client is gone; or the loop still waits.
pub data Drained : Type 0 where
  complete : List ℕ → Drained
  gone waiting : Drained

abbrev pub drain_next : (List ℕ → Drained) → Bool → List ℕ → Drained
drain_next rest true bytes = rest bytes
drain_next rest false bytes = complete bytes

unfoldable pub drain_body : List Received → List ℕ → Drained
drain_body [] bytes = waiting
drain_body (disconnect ∷ ms) bytes = gone
drain_body (body part more ∷ ms) bytes = drain_next (drain_body ms) more (bytes ++ part)

-- A turn of the pump: whether the disconnect event is set, the chunk, and whether sending it raises.
pub record Turn : Type 0 where
  pub disconnected : Bool
  pub chunk : List ℕ
  pub send_fails : Bool

pub record Response : Type 0 where
  pub status : ℕ
  pub headers : List (List ℕ × List ℕ)
  pub turns : List Turn
  -- the event, at the turn on which `next_chunk` gives `None`, or raises
  pub disconnected_last : Bool
  pub breaks : Bool

-- `send` of `http.response.start` and of `http.response.body`, and `body_stream.close`.
pub data Frame : Type 0 where
  start : ℕ → List (List ℕ × List ℕ) → Frame
  chunk : List ℕ → Bool → Frame
  close : Frame

-- How the call ends: `True`, an exception of the handler's, that of `next_chunk`, or not yet.
pub data Returned (Exc : Type 0) : Type 0 where
  done broken pending : Returned Exc
  raised : Exc → Returned Exc

unfoldable pub bodiless : ℕ → Bool
bodiless status = ltb status 200 || status == 204 || status == 304

-- The headers without those of this name.
unfoldable pub without : (List ℕ → Bool) → List (List ℕ × List ℕ) → List (List ℕ × List ℕ)
without is_length [] = []
without is_length ((k, v) ∷ hs) =
    let rest = without is_length hs in if is_length k then rest else (k, v) ∷ rest

-- `k.lower() != b"content-length"` is a function of the header's name.
unfoldable pub out_headers : (List ℕ → Bool) → ℕ → List (List ℕ × List ℕ) → List (List ℕ × List ℕ)
unfolding bodiless
out_headers is_length status hs = if bodiless status then without is_length hs else hs

-- The turn on which there is no chunk: `next_chunk` gives `None`, or raises.
abbrev pub last_turn : Bool → Bool → List Frame × Bool
last_turn true breaks = (close ∷ [], false)
last_turn false true = ([], true)
last_turn false false = (chunk [] false ∷ [], false)

abbrev pub turned : Bool → Turn → List Frame × Bool → List Frame × Bool
turned true t rest = (close ∷ [], false)
turned false t rest = (chunk t.chunk true ∷ rest.0, rest.1)

-- The loop over `next_chunk`; `watch` is whether there is a disconnect event. What is sent, and whether
-- `next_chunk` raises, for which `breaks` is the last turn.
unfoldable pub pump : Bool → List Turn → Bool → Bool → List Frame × Bool
pump watch [] last breaks = last_turn (watch && last) breaks
pump watch (t ∷ ts) last breaks =
    turned ((watch && t.disconnected) || t.send_fails) t (pump watch ts last breaks)

module _ {Exc : Type 0} where
  -- The exceptions captured for this application, popped and cleared.
  abbrev pub surface : List Exc → Returned Exc
  surface [] = done
  surface (e ∷ es) = raised e

  -- An exception of `next_chunk` leaves the captured ones where they are.
  abbrev pub finish : Bool → List Exc → Returned Exc × List Exc
  finish true captured = (broken, captured)
  finish false captured = (surface captured, [])

  -- What was sent, how the call ends, and the captured exceptions that stay.
  abbrev pub respond :
      (List ℕ → Bool)
      → Bool
      → (List ℕ → Response × List Exc)
      → List Exc
      → Drained
      → List Frame × Returned Exc × List Exc
  respond is_length watch process captured gone = ([], done, captured)
  respond is_length watch process captured waiting = ([], pending, captured)
  respond is_length watch process captured (complete bytes) =
      let r = (process bytes).0 in
      let sent = pump watch r.turns r.disconnected_last r.breaks in
      let headers = out_headers is_length r.status r.headers in
      let end = finish sent.1 (captured ++ (process bytes).1) in
      (start r.status headers ∷ sent.0, end.0, end.1)

  -- `_asgi_oneshot_http`. `process` is the Rust engine on the body: its response, and the exceptions
  -- captured on the way.
  unfoldable pub asgi_oneshot_http :
      (List ℕ → Bool)
      → Bool
      → (List ℕ → Response × List Exc)
      → List Exc
      → List Received
      → List Frame × Returned Exc × List Exc
  asgi_oneshot_http is_length watch process captured ms =
      respond is_length watch process captured (drain_body ms [])
