-- ===== src/WebSocket/Socket.antt =====
-- The state of the class `WebSocket` of python/fastapi_turbo/websockets.py, its messages and its calls.
use fastapi_turbo.Prelude.{ℕ, String, Bool, true, false, List, [], ◌∷◌, ◌++◌, Option, none, some}

pub data State : Type 0 where
  connecting connected disconnected response : State

abbrev pub is_connecting : State → Bool
is_connecting connecting = true
is_connecting _ = false

abbrev pub is_connected : State → Bool
is_connected connected = true
is_connected _ = false

abbrev pub is_disconnected : State → Bool
is_disconnected disconnected = true
is_disconnected _ = false

abbrev pub Headers : Type 0
Headers = List (String × String)

pub data Call : Type 0 where
  accepts : Option String → Headers → Call
  sends_text : String → Call
  sends_bytes : List ℕ → Call
  closes : ℕ → String → Call
  rust_accepts : Option String → Headers → Call
  rust_rejects : ℕ → Call
  rust_text : String → Call
  rust_bytes : List ℕ → Call
  rust_closes : ℕ → String → Call

pub data Kind : Type 0 where
  connect receives disconnects other : Kind

-- A message off the ASGI channel; `none` where the key is missing.
pub record Message : Type 0 where
  pub kind : Kind
  pub text : Option String
  pub bytes : Option (List ℕ)
  pub code : Option ℕ
  pub reason : Option String

abbrev pub is_connect : Kind → Bool
is_connect connect = true
is_connect _ = false

abbrev pub is_disconnects : Kind → Bool
is_disconnects disconnects = true
is_disconnects _ = false

-- What the Rust receiver yields: a message, or a `RuntimeError` with its text.
pub data Event : Type 0 where
  arrived : Message → Event
  failed : List ℕ → Event

-- Whether the calls of one operation raise.
pub record Link : Type 0 where
  pub send_raises : Bool
  pub rust_raises : Bool
  pub wait_raises : Bool

pub record WebSocket : Type 0 where
  pub has_ws : Bool
  pub has_send : Bool
  pub has_receive : Bool
  pub state : State
  pub pending_close : Option (ℕ × String)
  pub asgi_closed : Bool
  pub last_close : Option (ℕ × String)
  pub inbox : List Message
  pub events : List Event
  pub calls : List Call

pub data Error : Type 0 where
  runtime no_attribute not_callable send_failed rust_failed blocked bad_json : Error
  disconnect : ℕ → String → Error

pub data Result {ℓ} (A : Type ℓ) : Type ℓ where
  ok : A → Result A
  err : Error → Result A

abbrev pub emit : Call → WebSocket → WebSocket
emit c s = record s { calls = s.calls ++ c ∷ [] }

abbrev pub or_empty : Option String → String
or_empty none = ""
or_empty (some r) = r

-- `__init__`, for an ASGI scope and for a Rust object.
abbrev pub asgi_socket : List Message → WebSocket
asgi_socket inbox = record {
  has_ws = false;
  has_send = true;
  has_receive = true;
  state = connecting;
  pending_close = none;
  asgi_closed = false;
  last_close = none;
  inbox = inbox;
  events = [];
  calls = [];
}

abbrev pub rust_socket : List Event → WebSocket
rust_socket events = record {
  has_ws = true;
  has_send = false;
  has_receive = false;
  state = connecting;
  pending_close = none;
  asgi_closed = false;
  last_close = none;
  inbox = [];
  events = events;
  calls = [];
}
