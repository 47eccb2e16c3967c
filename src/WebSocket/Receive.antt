-- ===== src/WebSocket/Receive.antt =====
-- The receiving half of `WebSocket` of python/fastapi_turbo/websockets.py. What the Rust object makes
-- of an event for `receive_text` and `receive_bytes` is a parameter.
use fastapi_turbo.Prelude.{
  ℕ, zero, suc, ◌<◌, ◌≡◌, refl, ap, ◌∙◌, String, Bool, true, false, List, [], ◌∷◌, ◌++◌, Option,
  none, some, arith, if◌then◌else◌, length, map, All,
}
use fastapi_turbo.WebSocket.{
  WebSocket, disconnected, is_disconnected, Message, Kind, disconnects, is_disconnects, Event,
  arrived, failed, Result, ok, err, Error, runtime, blocked, bad_json, disconnect, not_callable,
  or_empty,
}

abbrev or_1000 : Option ℕ → ℕ
or_1000 none = 1000
or_1000 (some c) = c

abbrev or_no_bytes : Option (List ℕ) → List ℕ
or_no_bytes none = []
or_no_bytes (some b) = b

abbrev note_end : Kind → WebSocket → WebSocket
note_end k s = if is_disconnects k then record s { state = disconnected } else s

-- `receive` on the ASGI channel.
abbrev pub next_message : List Message → WebSocket → Result Message × WebSocket
next_message [] s = (err blocked, s)
next_message (m ∷ inbox) s = (ok m, note_end m.kind (record s { inbox = inbox }))

module _ (close_info : List ℕ → ℕ × String) where
  -- `receive` on the Rust channel: an error becomes a disconnect message.
  abbrev pub next_event : List Event → WebSocket → Result Message × WebSocket
  next_event [] s = (err blocked, s)
  next_event (arrived m ∷ events) s = (ok m, note_end m.kind (record s { events = events }))
  next_event (failed text ∷ events) s = (
    ok (record {
      kind = disconnects;
      text = none;
      bytes = none;
      code = some (close_info text).0;
      reason = some (close_info text).1;
    }),
    record s { events = events; state = disconnected },
  )

  unfoldable pub receive : WebSocket → Result Message × WebSocket
  receive s =
      if is_disconnected s.state
      then (err runtime, s)
      else if s.has_ws
      then next_event s.events s
      else if s.has_receive
      then next_message s.inbox s
      else (err not_callable, s)

-- `_asgi_receive_text` and `_asgi_receive_bytes` differ in the key that they read.
abbrev pub take_message {ℓ} :
    {A : Type ℓ} → (Message → A) → List Message → WebSocket → Result A × WebSocket
take_message key [] s = (err blocked, s)
take_message key (m ∷ inbox) s =
    let s' = record s { inbox = inbox } in
    if is_disconnects m.kind
    then (err (disconnect (or_1000 m.code) (or_empty m.reason)), record s' { state = disconnected })
    else (ok (key m), s')

abbrev pub asgi_receive {ℓ} : {A : Type ℓ} → (Message → A) → WebSocket → Result A × WebSocket
asgi_receive key s = if s.has_receive then take_message key s.inbox s else (err not_callable, s)

abbrev pub take_event {ℓ} :
    {A : Type ℓ} → (Event → Result A) → List Event → WebSocket → Result A × WebSocket
take_event yields [] s = (err blocked, s)
take_event yields (e ∷ events) s = (yields e, record s { events = events })

module _ (rust_text : Event → Result String) (rust_bytes : Event → Result (List ℕ)) where
  unfoldable pub receive_text : WebSocket → Result String × WebSocket
  receive_text s =
      if is_disconnected s.state
      then (err (disconnect 1000 "already disconnected"), s)
      else if s.has_ws
      then take_event rust_text s.events s
      else asgi_receive (λ m. or_empty m.text) s

  unfoldable pub receive_bytes : WebSocket → Result (List ℕ) × WebSocket
  receive_bytes s =
      if is_disconnected s.state
      then (err (disconnect 1000 "already disconnected"), s)
      else if s.has_ws
      then take_event rust_bytes s.events s
      else asgi_receive (λ m. or_no_bytes m.bytes) s

  module _ {Json : Type 0} (loads : String → Option Json) (loads_bytes : List ℕ → Option Json) where
    abbrev loaded : Option Json → Result Json
    loaded none = err bad_json
    loaded (some j) = ok j

    abbrev load {ℓ} :
        {A : Type ℓ} → (A → Option Json) → Result A × WebSocket → Result Json × WebSocket
    load from (ok a, s) = (loaded (from a), s)
    load from (err e, s) = (err e, s)

    -- `receive_json` with a valid mode: "text", or "binary".
    unfoldable pub receive_json : Bool → WebSocket → Result Json × WebSocket
    unfolding receive_text receive_bytes
    receive_json as_text s =
        if as_text then load loads (receive_text s) else load loads_bytes (receive_bytes s)

  -- How an iteration ends: by the return of the generator, by another exception, or never.
  pub data End : Type 0 where
    finished waits out_of_rounds : End
    raises : Error → End

  abbrev end_of : Error → End
  end_of runtime = finished
  end_of (disconnect c r) = finished
  end_of blocked = waits
  end_of e = raises e

  abbrev after :
      (WebSocket → List String × End × WebSocket)
      → Result String × WebSocket
      → List String × End × WebSocket
  after loop (ok t, s) = let (ts, e, s') = loop s in (t ∷ ts, e, s')
  after loop (err e, s) = ([], end_of e, s)

  -- `iter_text`, and the same loop by `__anext__`: what it yields.
  unfoldable pub iter_text : ℕ → WebSocket → List String × End × WebSocket
  unfolding receive_text
  iter_text zero s = ([], out_of_rounds, s)
  iter_text (suc rounds) s = after (λ s'. iter_text rounds s') (receive_text s)

  abbrev Data : Message → Type 0
  Data m = is_disconnects m.kind ≡ false

  receive_text-asgi :
      (s : WebSocket)
      → s.has_ws ≡ false
      → s.has_receive ≡ true
      → is_disconnected s.state ≡ false
      → receive_text s ≡ take_message (λ m. or_empty m.text) s.inbox s
  unfolding receive_text
  receive_text-asgi s w r n = ground arith

  take_message-Data :
      (m : Message) (inbox : List Message) (s : WebSocket)
      → Data m
      → take_message (λ m. or_empty m.text) (m ∷ inbox) s
        ≡ (ok (or_empty m.text), record s { inbox = inbox })
  take_message-Data m inbox s h = rw h

  take_message-end :
      (m : Message) (inbox : List Message) (s : WebSocket)
      → is_disconnects m.kind ≡ true
      → take_message (λ m. or_empty m.text) (m ∷ inbox) s ≡ (
        err (disconnect (or_1000 m.code) (or_empty m.reason)),
        record s { inbox = inbox; state = disconnected },
      )
  take_message-end m inbox s h = rw h

  -- On a connected ASGI socket, with the messages `ms` and then a disconnect in the channel,
  -- `iter_text` yields the text of each message in order ("" where it has none), returns, leaves
  -- what comes later unread and the socket disconnected.
  pub iter_text-yields :
      (rounds : ℕ) (s : WebSocket) (ms later : List Message) (d : Message)
      → s.has_ws ≡ false
      → s.has_receive ≡ true
      → is_disconnected s.state ≡ false
      → s.inbox ≡ ms ++ d ∷ later
      → All Data ms
      → is_disconnects d.kind ≡ true
      → length ms < rounds
      → iter_text rounds s ≡ (
        map (λ m. or_empty m.text) ms,
        finished,
        record s { inbox = later; state = disconnected },
      )
  unfolding iter_text
  iter_text-yields zero s ms later d w r n q h e l = elim l [ ]
  iter_text-yields (suc rounds) s [] later d w r n q h e l =
      ap (after (λ s'. iter_text rounds s')) (
        receive_text-asgi s w r n
        ∙ ap (λ inbox. take_message (λ m. or_empty m.text) inbox s) q
        ∙ take_message-end d later s e)
  iter_text-yields (suc rounds) s (m ∷ ms) later d w r n q h e l =
      let s' = record s { inbox = ms ++ d ∷ later } in
      let add = λ (p : List String × End × WebSocket). after (λ _. p) (ok (or_empty m.text), s') in
      ap (after (λ s'. iter_text rounds s')) (
        receive_text-asgi s w r n
        ∙ ap (λ inbox. take_message (λ m. or_empty m.text) inbox s) q
        ∙ take_message-Data m (ms ++ d ∷ later) s h.0)
      ∙ ap add (iter_text-yields rounds s' ms later d w r n refl h.1 e (omega arith))
