-- ===== src/WebSocket/Close.antt =====
-- Closing before the accept, and the low-level `send`, of python/fastapi_turbo/websockets.py.
use fastapi_turbo.Prelude.{
  ℕ, ◌≡◌, String, true, false, not, ◌&&◌, List, [], ◌∷◌, ◌++◌, Option, some, arith, if◌then◌else◌,
  append-nil,
}
use fastapi_turbo.WebSocket.{
  WebSocket, connecting, connected, disconnected, Call, sends_text, closes, Link, close, send_text,
  send, or_empty, send_message, ok, err, no_attribute, rust_rejects,
}

abbrev pub refusal : Link → WebSocket → ℕ → String → List Call
refusal k s code reason =
    if s.has_ws
    then (if k.rust_raises then [] else rust_rejects 403 ∷ [])
    else if s.has_send && not s.asgi_closed && not k.send_raises
    then closes code reason ∷ []
    else []

-- A close before the accept refuses the connection and accepts nothing: a Rust object is told to
-- refuse the handshake with 403, an ASGI channel gets the caller's own code and reason. The socket
-- is disconnected either way.
pub close-before_accept :
    (code : ℕ) (reason : Option String) (k : Link) (s : WebSocket)
    → s.state ≡ connecting
    → ((close code reason k s).calls ≡ s.calls ++ refusal k s code (or_empty reason))
      × ((close code reason k s).state ≡ disconnected)
unfolding close
close-before_accept code reason k s h = ground (arith, append-nil s.calls)

-- The low-level `send` of a text fails on every connected ASGI socket, whose `send_text` of the same
-- text calls `send`.
pub send-needs_rust :
    (t : String) (b : Option (List ℕ)) (k : Link) (s : WebSocket)
    → s.has_ws ≡ false
    → s.has_send ≡ true
    → s.state ≡ connected
    → k.send_raises ≡ false
    → (send (send_message (some t) b) k s ≡ (err no_attribute, s))
      × (send_text t k s ≡ (ok tt, record s { calls = s.calls ++ sends_text t ∷ [] }))
unfolding send send_text
send-needs_rust t b k s w h c r = (ground arith, ground arith)
