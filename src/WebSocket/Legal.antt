-- ===== src/WebSocket/Legal.antt =====
-- The frames of an in-process (ASGI) socket obey the ASGI protocol, whatever the handler does and
-- whichever of its calls fail: at most one accept, data only after it, at most one close, and nothing
-- behind the close.
use fastapi_turbo.Prelude.{
  ℕ, ◌≡◌, ◌≢◌, refl, String, Bool, true, false, List, [], ◌∷◌, ◌++◌, Option, none, some, arith, inl,
  inr, Option-cases,
}
use fastapi_turbo.WebSocket.{
  WebSocket, State, connecting, connected, disconnected, Call, accepts, sends_text, sends_bytes,
  closes, Headers, Message, Event, Link, Outgoing, accept, reject, close, send_text, send_bytes,
  send, send_json, asgi_queue_close, asgi_send_close, flush, asgi_socket, or_empty, accept_message,
  send_message, close_message, other_message, Result,
}
use fastapi_turbo.WebSocket.Protocol.{
  Phase, handshake, up, down, and_then, replay, replay_from-snoc,
}
use fastapi_turbo.WebSocket.Receive.{receive, receive_text, receive_bytes, receive_json}

-- What the phase may be, by the state of the socket.
abbrev Fits : State → Bool → Option Phase → Type 0
Fits connecting closed (some handshake) = closed ≡ false
Fits connected closed (some up) = closed ≡ false
Fits disconnected closed (some handshake) = Unit
Fits disconnected closed (some up) = Unit
Fits disconnected closed (some down) = closed ≡ true
Fits _ _ _ = ⊥

record Inv (s : WebSocket) : Type 0 where
  no_ws : s.has_ws ≡ false
  sender : s.has_send ≡ true
  receiver : s.has_receive ≡ true
  fits : Fits s.state s.asgi_closed (replay s.calls)

snoc : (s : WebSocket) (c : Call) → replay (s.calls ++ c ∷ []) ≡ and_then (replay s.calls) c
snoc s c = replay_from-snoc (some handshake) s.calls c

-- Any change that keeps the channels, the state and the calls keeps the invariant.
down_Inv : (s : WebSocket) → Inv s → Inv (record s { state = disconnected })
down_Inv s v = ground arith

asgi_send_close-Inv :
    (code : ℕ) (reason : String) (k : Link) (s : WebSocket)
    → Inv s
    → s.state ≡ disconnected
    → Inv (asgi_send_close code reason k s)
unfolding asgi_send_close
asgi_send_close-Inv code reason k s v d = ground (arith, snoc s (closes code reason))

close-Inv :
    (code : ℕ) (reason : Option String) (k : Link) (s : WebSocket)
    → Inv s
    → Inv (close code reason k s)
unfolding close
close-Inv code reason k s v = ground (arith, snoc s (closes code (or_empty reason)))

send_text-Inv : (text : String) (k : Link) (s : WebSocket) → Inv s → Inv (send_text text k s).1
unfolding send_text
send_text-Inv text k s v = ground (arith, snoc s (sends_text text))

send_bytes-Inv : (bytes : List ℕ) (k : Link) (s : WebSocket) → Inv s → Inv (send_bytes bytes k s).1
unfolding send_bytes
send_bytes-Inv bytes k s v = ground (arith, snoc s (sends_bytes bytes))

reject-Inv : (status : ℕ) (k : Link) (s : WebSocket) → Inv s → Inv (reject status k s)
unfolding reject
reject-Inv status k s v = ground arith

asgi_queue_close-Inv :
    (code : ℕ) (reason : String) (s : WebSocket) → Inv s → Inv (asgi_queue_close code reason s)
unfolding asgi_queue_close
asgi_queue_close-Inv code reason s v = ground arith

accept-Inv :
    (sub : Option String) (headers : Headers) (k : Link) (s : WebSocket)
    → Inv s
    → Inv (accept sub headers k s).1
unfolding accept
accept-Inv sub headers k s v = ground (arith, snoc s (accepts sub headers))

send-Inv : (m : Outgoing) (k : Link) (s : WebSocket) → Inv s → Inv (send m k s).1
unfolding send
send-Inv (accept_message sub headers) k s v = accept-Inv sub headers k s v
send-Inv (close_message code reason) k s v = close-Inv code reason k s v
send-Inv (send_message text bytes) k s v = ground arith
send-Inv other_message k s v = v

receive_text-Inv :
    (text : Event → Result String) (bytes : Event → Result (List ℕ)) (s : WebSocket)
    → Inv s
    → Inv (receive_text text bytes s).1
unfolding receive_text
receive_text-Inv text bytes s v = ground arith

receive_bytes-Inv :
    (text : Event → Result String) (bytes : Event → Result (List ℕ)) (s : WebSocket)
    → Inv s
    → Inv (receive_bytes text bytes s).1
unfolding receive_bytes
receive_bytes-Inv text bytes s v = ground arith

receive-Inv : (info : List ℕ → ℕ × String) (s : WebSocket) → Inv s → Inv (receive info s).1
unfolding receive
receive-Inv info s v = ground arith

-- What a handler, or the code around it, may call.
pub data Op (Json : Type 0) : Type 0 where
  accepting : Option String → Headers → Link → Op Json
  sending : Outgoing → Link → Op Json
  text : String → Link → Op Json
  bytes : List ℕ → Link → Op Json
  json : Json → Bool → Link → Op Json
  closing : ℕ → Option String → Link → Op Json
  rejecting : ℕ → Link → Op Json
  queueing : ℕ → String → Op Json
  get get_text get_bytes : Op Json
  get_json : Bool → Op Json

-- The interpreter's `json` and UTF-8, and the Rust receiver, which an ASGI socket never calls.
pub record Codec (Json : Type 0) : Type 0 where
  pub dumps : Json → Option String
  pub encode : String → List ℕ
  pub loads : String → Option Json
  pub loads_bytes : List ℕ → Option Json
  pub rust_text : Event → Result String
  pub rust_bytes : Event → Result (List ℕ)
  pub info : List ℕ → ℕ × String

module _ {Json : Type 0} (c : Codec Json) where
  run_op : Op Json → WebSocket → WebSocket
  run_op (accepting sub headers k) s = (accept sub headers k s).1
  run_op (sending m k) s = (send m k s).1
  run_op (text t k) s = (send_text t k s).1
  run_op (bytes b k) s = (send_bytes b k s).1
  run_op (json j as_text k) s = (send_json c.dumps c.encode j as_text k s).1
  run_op (closing code reason k) s = close code reason k s
  run_op (rejecting status k) s = reject status k s
  run_op (queueing code reason) s = asgi_queue_close code reason s
  run_op get s = (receive c.info s).1
  run_op get_text s = (receive_text c.rust_text c.rust_bytes s).1
  run_op get_bytes s = (receive_bytes c.rust_text c.rust_bytes s).1
  run_op (get_json as_text) s =
      (receive_json c.rust_text c.rust_bytes c.loads c.loads_bytes as_text s).1

  unfoldable pub run : List (Op Json) → WebSocket → WebSocket
  unfolding run_op
  run [] s = s
  run (op ∷ ops) s = run ops (run_op op s)

  send_json-Inv :
      (j : Json) (as_text : Bool) (k : Link) (s : WebSocket)
      → Inv s
      → Inv (send_json c.dumps c.encode j as_text k s).1
  unfolding send_json
  send_json-Inv j as_text k s v = elim (Option-cases (c.dumps j)) [
    | inl none_left ↦ ground (arith, none_left)
    | inr (t, dumped) ↦
        ground (arith, dumped, snoc s (sends_text t), snoc s (sends_bytes (c.encode t)))
  ]

  receive_json-Inv :
      (as_text : Bool) (s : WebSocket)
      → Inv s
      → Inv (receive_json c.rust_text c.rust_bytes c.loads c.loads_bytes as_text s).1
  unfolding receive_json
  receive_json-Inv true s v = ground (arith, receive_text-Inv c.rust_text c.rust_bytes s v)
  receive_json-Inv false s v = ground (arith, receive_bytes-Inv c.rust_text c.rust_bytes s v)

  run_op-Inv : (op : Op Json) (s : WebSocket) → Inv s → Inv (run_op op s)
  unfolding run_op
  run_op-Inv (accepting sub headers k) s v = accept-Inv sub headers k s v
  run_op-Inv (sending m k) s v = send-Inv m k s v
  run_op-Inv (text t k) s v = send_text-Inv t k s v
  run_op-Inv (bytes b k) s v = send_bytes-Inv b k s v
  run_op-Inv (json j as_text k) s v = send_json-Inv j as_text k s v
  run_op-Inv (closing code reason k) s v = close-Inv code reason k s v
  run_op-Inv (rejecting status k) s v = reject-Inv status k s v
  run_op-Inv (queueing code reason) s v = asgi_queue_close-Inv code reason s v
  run_op-Inv get s v = receive-Inv c.info s v
  run_op-Inv get_text s v = receive_text-Inv c.rust_text c.rust_bytes s v
  run_op-Inv get_bytes s v = receive_bytes-Inv c.rust_text c.rust_bytes s v
  run_op-Inv (get_json as_text) s v = receive_json-Inv as_text s v

  run-Inv : (ops : List (Op Json)) (s : WebSocket) → Inv s → Inv (run ops s)
  unfolding run
  run-Inv [] s v = v
  run-Inv (op ∷ ops) s v = run-Inv ops (run_op op s) (run_op-Inv op s v)

  asgi_socket-Inv : (inbox : List Message) → Inv (asgi_socket inbox)
  asgi_socket-Inv inbox = ground arith

  flush-legal : (k : Link) (s : WebSocket) → Inv s → replay (flush k s).calls ≢ none
  unfolding flush
  flush-legal k s v = elim (Option-cases s.pending_close) [
    | inl empty ↦ ground (arith, empty)
    | inr (p, queued) ↦ ground (arith, queued, snoc s (closes p.0 p.1))
  ]

  -- From a new ASGI socket, after any sequence of operations, any of whose calls may fail, and the
  -- closing flush, the calls on `send` follow the protocol.
  pub run-legal :
      (inbox : List Message) (ops : List (Op Json)) (k : Link)
      → replay (flush k (run ops (asgi_socket inbox))).calls ≢ none
  run-legal inbox ops k =
      flush-legal k (run ops (asgi_socket inbox))
        (run-Inv ops (asgi_socket inbox) (asgi_socket-Inv inbox))

  abbrev Ended : List Call → WebSocket → Type 0
  Ended calls s = (s.has_ws ≡ false) × (s.state ≡ disconnected) × (s.calls ≡ calls)

  run_op-Ended :
      (calls : List Call) (op : Op Json) (s : WebSocket) → Ended calls s → Ended calls (run_op op s)
  unfolding run_op accept send send_text send_bytes send_json close reject asgi_queue_close receive
      receive_json
  run_op-Ended calls (accepting sub headers k) s v = ground arith
  run_op-Ended calls (sending (accept_message sub headers) k) s v = ground arith
  run_op-Ended calls (sending (close_message code reason) k) s v = ground arith
  run_op-Ended calls (sending _ k) s v = ground arith
  run_op-Ended calls (get_json true) s v = ground arith
  run_op-Ended calls (get_json false) s v = ground arith
  run_op-Ended calls op s v = ground arith

  -- A socket without a Rust object that is disconnected stays so, and calls `send` no more, whatever
  -- the handler goes on to do.
  pub run-disconnected :
      (ops : List (Op Json)) (s : WebSocket)
      → s.has_ws ≡ false
      → s.state ≡ disconnected
      → ((run ops s).state ≡ disconnected) × ((run ops s).calls ≡ s.calls)
  unfolding run
  run-disconnected ops s w d = let e = go ops s (w, d, refl) in (e.1, e.2)
    where
      go : (ops : List (Op Json)) (t : WebSocket) → Ended s.calls t → Ended s.calls (run ops t)
      go [] t v = v
      go (op ∷ ops) t v = go ops (run_op op t) (run_op-Ended s.calls op t v)
