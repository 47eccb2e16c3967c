-- ===== src/WebSocket/Protocol.antt =====
-- The server's side of the ASGI WebSocket protocol, as the calls on `send` drive it.
use fastapi_turbo.Prelude.{◌≡◌, refl, List, [], ◌∷◌, ◌++◌, Option, none, some}
use fastapi_turbo.WebSocket.{Call, accepts, sends_text, sends_bytes, closes}

pub data Phase : Type 0 where
  handshake up down : Phase

abbrev pub next : Phase → Call → Option Phase
next handshake (accepts sub headers) = some up
next handshake (closes code reason) = some down
next up (sends_text text) = some up
next up (sends_bytes bytes) = some up
next up (closes code reason) = some down
next _ _ = none

abbrev pub and_then : Option Phase → Call → Option Phase
and_then none c = none
and_then (some p) c = next p c

abbrev pub replay_from : Option Phase → List Call → Option Phase
replay_from p [] = p
replay_from p (c ∷ cs) = replay_from (and_then p c) cs

-- The phase that the server is in after the calls; `none` where they break the protocol.
abbrev pub replay : List Call → Option Phase
replay cs = replay_from (some handshake) cs

pub replay_from-snoc :
    (p : Option Phase) (cs : List Call) (c : Call)
    → replay_from p (cs ++ c ∷ []) ≡ and_then (replay_from p cs) c
replay_from-snoc p [] c = refl
replay_from-snoc p (d ∷ cs) c = replay_from-snoc (and_then p d) cs c
