-- ===== src/WebSocket/Tests.antt =====
-- The WebSocket on concrete inputs: a socket of the in-process door.
use fastapi_turbo.Prelude.{
  ◌≡◌, ◌≢◌, refl, String, true, false, List, [], ◌∷◌, ◌++◌, map, Option, none, some, arith,
}
use fastapi_turbo.Prelude.Decimal.{show}
use fastapi_turbo.Prelude.Int.{pos}
use fastapi_turbo.WebSocket.{
  WebSocket, connected, disconnected, Message, Kind, connect, receives, disconnects, Event, Link,
  Result, ok, err, blocked, asgi_socket, sends_text, close, flush, send, send_text, send_message,
  no_attribute, or_empty,
}
use fastapi_turbo.WebSocket.Protocol.{replay}
use fastapi_turbo.WebSocket.Legal.{Op, Codec, run, run-legal, run-disconnected}
use fastapi_turbo.WebSocket.Close.{refusal, close-before_accept, send-needs_rust}
use fastapi_turbo.WebSocket.Receive.{finished, iter_text, iter_text-yields}
use fastapi_turbo.WebSocket.CloseInfo.{marker, close_info, close_info-marker}

abbrev steady : Link
steady = record { send_raises = false; rust_raises = false; wait_raises = false }

abbrev message : Kind → Option String → Message
message k text = record { kind = k; text = text; bytes = none; code = none; reason = none }

abbrev ready : WebSocket
ready =
    record (asgi_socket
      (message receives (some "a") ∷ message receives none ∷ message disconnects none ∷ [])) {
        state = connected;
      }

abbrev no_text : Event → Result String
no_text e = err blocked

iter_text_example : iter_text no_text (λ e. err blocked) 4 ready ≡ (
  map (λ m. or_empty m.text) (message receives (some "a") ∷ message receives none ∷ []),
  finished,
  record ready { inbox = []; state = disconnected },
)
iter_text_example =
    iter_text-yields no_text (λ e. err blocked) 4 ready
      (message receives (some "a") ∷ message receives none ∷ []) [] (message disconnects none) refl
      refl refl refl (refl, (refl, tt)) refl (omega arith)

close_example :
    ((close 4401 (some "auth") steady (asgi_socket [])).calls
      ≡ [] ++ refusal steady (asgi_socket []) 4401 "auth")
    × ((close 4401 (some "auth") steady (asgi_socket [])).state ≡ disconnected)
close_example = close-before_accept 4401 (some "auth") steady (asgi_socket []) refl

send_example :
    (send (send_message (some "x") none) steady ready ≡ (err no_attribute, ready))
    × (send_text "x" steady ready
        ≡ (ok tt, record ready { calls = ready.calls ++ sends_text "x" ∷ [] }))
send_example = send-needs_rust "x" none steady ready refl refl refl refl

close_info_example : close_info (marker (show 4001 ++ b':' ∷ b':' ∷ [])) ≡ (pos 4001, b':' ∷ [])
close_info_example = close_info-marker 4001 (b':' ∷ [])

abbrev codec : Codec String
codec = record {
  dumps = λ j. some j;
  encode = λ t. 63 ∷ [];
  loads = λ t. some t;
  loads_bytes = λ b. none;
  rust_text = no_text;
  rust_bytes = λ e. err blocked;
  info = λ text. (1006, "");
}

-- A handler that accepts, sends, closes, and goes on to send; the middle one of its calls fails.
abbrev handler : List (Op String)
handler =
    Op.accepting none [] steady
    ∷ Op.text "a" steady
    ∷ Op.queueing 1011 ""
    ∷ Op.text "b" (record steady { send_raises = true })
    ∷ Op.closing 1000 none steady
    ∷ Op.json "c" true steady
    ∷ Op.get_text
    ∷ []

legal_example :
    replay (flush steady (run codec handler (asgi_socket (message connect none ∷ [])))).calls ≢ none
legal_example = run-legal codec (message connect none ∷ []) handler steady

disconnected_example :
    ((run codec handler (record ready { state = disconnected })).state ≡ disconnected)
    × ((run codec handler (record ready { state = disconnected })).calls ≡ [])
disconnected_example =
    run-disconnected codec handler (record ready { state = disconnected }) refl refl
