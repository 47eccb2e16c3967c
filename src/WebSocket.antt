-- ===== src/WebSocket.antt =====
-- The class `WebSocket` of python/fastapi_turbo/websockets.py. The calls that it makes on the ASGI
-- `send` and on the Rust object are collected in `calls`, in order; what arrives stands in `inbox`
-- (ASGI) and `events` (Rust). Whether a call raises is the environment's, one `Link` for each
-- operation. An operation that would wait for ever on an empty channel returns `blocked`. Headers are
-- pairs of texts already.
pub mod Protocol
pub mod Legal
pub mod Close
pub mod Receive
pub mod CloseInfo
mod Tests
mod Socket
pub use Socket.*
use fastapi_turbo.Prelude.{
  ℕ, String, Bool, true, false, not, ◌&&◌, ◌||◌, List, [], ◌∷◌, ◌++◌, Option, none, some,
  if◌then◌else◌,
}

-- `_is_asgi`.
abbrev pub is_asgi : WebSocket → Bool
is_asgi s = not s.has_ws && s.has_send

-- `_asgi_send_close`: what `send` raises is dropped.
unfoldable pub asgi_send_close : ℕ → String → Link → WebSocket → WebSocket
asgi_send_close code reason k s =
    if s.asgi_closed
    then s
    else (let s' = record s { asgi_closed = true } in
        if s.has_send && not k.send_raises then emit (closes code reason) s' else s')

abbrev pub is_some : Option (ℕ × String) → Bool
is_some none = false
is_some (some p) = true

-- `_asgi_queue_close`.
unfoldable pub asgi_queue_close : ℕ → String → WebSocket → WebSocket
asgi_queue_close code reason s =
    if s.asgi_closed || is_some s.pending_close
    then s
    else record s { pending_close = some (code, reason) }

abbrev pub accept_from :
    List Message → Option String → Headers → Link → WebSocket → Result (Unit {0}) × WebSocket
accept_from [] sub headers k s = (err blocked, s)
accept_from (m ∷ inbox) sub headers k s =
    let s' = record s { inbox = inbox } in
    if not (is_connect m.kind)
    then (ok tt, record s' { state = disconnected })
    else if k.send_raises
    then (err send_failed, s')
    else (ok tt, record (emit (accepts sub headers) s') { state = connected })

unfoldable pub accept : Option String → Headers → Link → WebSocket → Result (Unit {0}) × WebSocket
accept sub headers k s =
    if not (is_connecting s.state)
    then (ok tt, s)
    else if s.has_ws
    then (if k.rust_raises
        then (err rust_failed, s)
        else (ok tt, record (emit (rust_accepts sub headers) s) { state = connected }))
    else if is_asgi s && s.has_receive
    then accept_from s.inbox sub headers k s
    else (ok tt, record s { state = connected })

-- `_reject`.
unfoldable pub reject : ℕ → Link → WebSocket → WebSocket
unfolding asgi_queue_close
reject status k s =
    let s' = record s { state = disconnected } in
    if s.has_ws
    then (if k.rust_raises then s' else emit (rust_rejects status) s')
    else if is_asgi s
    then asgi_queue_close 1006 "" s'
    else s'

-- `close`; where `close_and_wait` raises, the plain `close` is tried.
unfoldable pub close : ℕ → Option String → Link → WebSocket → WebSocket
unfolding asgi_send_close reject
close code reason k s =
    if is_disconnected s.state
    then s
    else (let s' = record s { last_close = some (code, or_empty reason) } in
        let s'' = record s' { state = disconnected } in
        if is_connecting s.state
        then (if is_asgi s then asgi_send_close code (or_empty reason) k s'' else reject 403 k s')
        else if s.has_ws
        then (if k.wait_raises && k.rust_raises
            then s''
            else emit (rust_closes code (or_empty reason)) s'')
        else if s.has_send
        then asgi_send_close code (or_empty reason) k s''
        else s'')

-- `self._send(message)`, awaited.
abbrev pub asgi_send : Call → Link → WebSocket → Result (Unit {0}) × WebSocket
asgi_send c k s =
    if not s.has_send
    then (err not_callable, s)
    else if k.send_raises
    then (err send_failed, s)
    else (ok tt, emit c s)

-- A send method of the Rust object.
abbrev pub rust_send : Call → Link → WebSocket → Result (Unit {0}) × WebSocket
rust_send c k s = if k.rust_raises then (err rust_failed, s) else (ok tt, emit c s)

unfoldable pub send_text : String → Link → WebSocket → Result (Unit {0}) × WebSocket
send_text text k s =
    if not (is_connected s.state)
    then (err runtime, s)
    else if s.has_ws
    then rust_send (rust_text text) k s
    else asgi_send (sends_text text) k s

unfoldable pub send_bytes : List ℕ → Link → WebSocket → Result (Unit {0}) × WebSocket
send_bytes bytes k s =
    if not (is_connected s.state)
    then (err runtime, s)
    else if s.has_ws
    then rust_send (rust_bytes bytes) k s
    else asgi_send (sends_bytes bytes) k s

pub data Outgoing : Type 0 where
  accept_message : Option String → Headers → Outgoing
  send_message : Option String → Option (List ℕ) → Outgoing
  close_message : ℕ → Option String → Outgoing
  other_message : Outgoing

-- `self._ws.send_…` of the low-level `send`: without a Rust object an `AttributeError`.
abbrev pub raw_send :
    Option String → Option (List ℕ) → Link → WebSocket → Result (Unit {0}) × WebSocket
raw_send (some text) bytes k s =
    if s.has_ws then rust_send (rust_text text) k s else (err no_attribute, s)
raw_send none (some bytes) k s =
    if s.has_ws then rust_send (rust_bytes bytes) k s else (err no_attribute, s)
raw_send none none k s = (ok tt, s)

-- `send`, the low-level one.
unfoldable pub send : Outgoing → Link → WebSocket → Result (Unit {0}) × WebSocket
unfolding accept close
send (accept_message sub headers) k s = accept sub headers k s
send (send_message text bytes) k s =
    if not (is_connected s.state) then (err runtime, s) else raw_send text bytes k s
send (close_message code reason) k s = (ok tt, close code reason k s)
send other_message k s = (ok tt, s)

module _ {Json : Type 0} (dumps : Json → Option String) (encode : String → List ℕ) where
  abbrev pub send_dumped : Bool → Option String → Link → WebSocket → Result (Unit {0}) × WebSocket
  send_dumped as_text none k s = (err bad_json, s)
  send_dumped as_text (some text) k s =
      if s.has_ws
      then rust_send (if as_text then rust_text text else rust_bytes (encode text)) k s
      else asgi_send (if as_text then sends_text text else sends_bytes (encode text)) k s

  -- `send_json` with a valid mode: "text", or "binary".
  unfoldable pub send_json : Json → Bool → Link → WebSocket → Result (Unit {0}) × WebSocket
  send_json data_ as_text k s =
      if not (is_connected s.state) then (err runtime, s) else send_dumped as_text (dumps data_) k s

-- The end of `_asgi_ws_door`: the queued close, if there is one, goes out.
abbrev pub flush_pending : Option (ℕ × String) → Link → WebSocket → WebSocket
flush_pending none k s = s
flush_pending (some (code, reason)) k s = asgi_send_close code reason k s

unfoldable pub flush : Link → WebSocket → WebSocket
unfolding asgi_send_close
flush k s = flush_pending s.pending_close k s
