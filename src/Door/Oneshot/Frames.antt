-- ===== src/Door/Oneshot/Frames.antt =====
-- What the in-process door sends: the frames that the ASGI protocol asks for, and the whole body unless
-- the client is gone.
use fastapi_turbo.Prelude.{
  ℕ, ◌≡◌, refl, sym, ap, ◌∙◌, Bool, true, false, not, ◌&&◌, ◌||◌, List, [], ◌∷◌, ◌++◌, append_assoc,
  append-nil, map, all, if◌then◌else◌,
}
use fastapi_turbo.Door.Oneshot.{
  Received, disconnect, body, drain_body, Turn, Response, Frame, start, chunk, close, done,
  out_headers, last_turn, turned, pump, finish, respond, asgi_oneshot_http,
}

-- The client is there and sending succeeds.
abbrev pub free : Bool → Turn → Bool
free watch t = not ((watch && t.disconnected) || t.send_fails)

abbrev pub take_while : (Turn → Bool) → List Turn → List Turn
take_while p [] = []
take_while p (t ∷ ts) = let rest = take_while p ts in if p t then t ∷ rest else []

abbrev pub sent : Turn → Frame
sent t = chunk t.chunk true

-- The last thing done: the final frame, unless the response broke off, or the stream closed.
abbrev pub ending : Bool → Bool → List Frame
ending true false = chunk [] false ∷ []
ending true true = []
ending false breaks = close ∷ []

abbrev pub all_sent : Bool → List Turn → Bool → Bool
all_sent watch ts last = all (free watch) ts && not (watch && last)

pump-turn :
    (b : Bool) (t : Turn) (ts : List Turn) (more : List Frame × Bool) (f : List Turn → List Turn)
    (a breaks : Bool)
    → more ≡ (map sent (f ts) ++ ending a breaks, a && breaks)
    → turned b t more ≡ (
      map sent (if not b then t ∷ f ts else []) ++ ending (not b && a) breaks,
      (not b && a) && breaks,
    )
pump-turn true t ts more f a breaks e = refl
pump-turn false t ts more f a breaks e =
    ap (λ (r : List Frame × Bool). (chunk t.chunk true ∷ r.0, r.1)) e

and_assoc : (a b c : Bool) → ((a && b) && c) ≡ (a && (b && c))
and_assoc true b c = refl
and_assoc false b c = refl

last_turn-ending : (b breaks : Bool) → last_turn b breaks ≡ (ending (not b) breaks, not b && breaks)
last_turn-ending true breaks = refl
last_turn-ending false true = refl
last_turn-ending false false = refl

pub pump_lem :
    (watch : Bool) (ts : List Turn) (last breaks : Bool)
    → pump watch ts last breaks ≡ (
      map sent (take_while (free watch) ts) ++ ending (all_sent watch ts last) breaks,
      all_sent watch ts last && breaks,
    )
unfolding pump
pump_lem watch [] last breaks = last_turn-ending (watch && last) breaks
pump_lem watch (t ∷ ts) last breaks =
    pump-turn ((watch && t.disconnected) || t.send_fails) t ts (pump watch ts last breaks)
      (take_while (free watch)) (all_sent watch ts last) breaks (pump_lem watch ts last breaks)
    ∙ ap (λ b. (map sent (take_while (free watch) (t ∷ ts)) ++ ending b breaks, b && breaks))
        (sym (and_assoc (free watch t) (all (free watch) ts) (not (watch && last))))

abbrev pub more : List ℕ → Received
more part = body part true

abbrev pub concat : List (List ℕ) → List ℕ
concat [] = []
concat (p ∷ ps) = p ++ concat ps

drain_body-parts :
    (parts : List (List ℕ)) (ms : List Received) (bytes : List ℕ)
    → drain_body (map more parts ++ ms) bytes ≡ drain_body ms (bytes ++ concat parts)
unfolding drain_body
drain_body-parts [] ms bytes = ap (drain_body ms) (sym (append-nil bytes))
drain_body-parts (p ∷ ps) ms bytes =
    drain_body-parts ps ms (bytes ++ p) ∙ ap (drain_body ms) (append_assoc bytes p (concat ps))

module _ {Exc : Type 0} where
  -- The client sends its body in any number of parts, the last one marked as such. Then the engine gets
  -- the parts in order, joined; the door sends one start, then every chunk of the response, in order,
  -- up to the first turn on which the client is seen to be gone or sending raises. If there was such a
  -- turn, the stream is closed; otherwise the final frame is sent, unless the response breaks off, and
  -- then nothing more is sent, the call raises the error of the stream, and captured exceptions stay.
  -- In every other case the first captured exception is raised after that, and none stays behind.
  pub asgi_oneshot_http-streams :
      (is_length : List ℕ → Bool) (watch : Bool) (process : List ℕ → Response × List Exc)
      (captured : List Exc) (parts : List (List ℕ)) (final : List ℕ) (rest : List Received)
      → let r = (process (concat parts ++ final)).0 in
        let whole = all_sent watch r.turns r.disconnected_last in
        let end = finish (whole && r.breaks) (captured ++ (process (concat parts ++ final)).1) in
        asgi_oneshot_http is_length watch process captured
          (map more parts ++ body final false ∷ rest)
        ≡ (
          start r.status (out_headers is_length r.status r.headers)
                ∷ map sent (take_while (free watch) r.turns)
              ++ ending whole r.breaks,
          end.0,
          end.1,
        )
  unfolding asgi_oneshot_http drain_body
  asgi_oneshot_http-streams is_length watch process captured parts final rest =
      let bytes = concat parts ++ final in
      let r = (process bytes).0 in
      ap (respond is_length watch process captured)
        (drain_body-parts parts (body final false ∷ rest) [])
      ∙ ap
          (λ (s : List Frame × Bool). (
            start r.status (out_headers is_length r.status r.headers) ∷ s.0,
            (finish s.1 (captured ++ (process bytes).1)).0,
            (finish s.1 (captured ++ (process bytes).1)).1,
          ))
          (pump_lem watch r.turns r.disconnected_last r.breaks)

  -- If the client is gone before the last part of its body, the request never reaches the engine,
  -- whatever that would do: nothing is sent, the call returns, and captured exceptions stay as they
  -- were.
  pub asgi_oneshot_http-gone :
      (is_length : List ℕ → Bool) (watch : Bool) (process : List ℕ → Response × List Exc)
      (captured : List Exc) (parts : List (List ℕ)) (rest : List Received)
      → asgi_oneshot_http is_length watch process captured (map more parts ++ disconnect ∷ rest)
        ≡ ([], done, captured)
  unfolding asgi_oneshot_http drain_body
  asgi_oneshot_http-gone is_length watch process captured parts rest =
      ap (respond is_length watch process captured) (drain_body-parts parts (disconnect ∷ rest) [])
