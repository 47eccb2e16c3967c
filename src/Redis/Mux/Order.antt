-- ===== src/Redis/Mux/Order.antt =====
-- Whatever the interleaving of commands, flush callbacks, replies and cancellations, the bytes reach
-- the transport in the order in which the commands were submitted, and none is left behind.
use fastapi_turbo.Prelude.{
  ℕ, zero, suc, ◌≡◌, refl, ◌∙◌, Bool, true, not, ◌||◌, ltb, List, [], ◌∷◌, ◌++◌, arith,
  append_assoc, append-nil,
}
use fastapi_turbo.Redis.Reader.{Value, Got, gets}
use fastapi_turbo.Redis.Mux.{
  Mux, live, is_empty, send, tick, cancel, Received, deliver, go_on, on_got, settle, drain,
  data_received,
}

-- What may happen to a connected mux.
pub data Op : Type 0 where
  submit : List ℕ → Op
  run_soon : Op
  receive : ℕ → List ℕ → Op
  drop : ℕ → Op

-- The write side: all that the order of bytes depends on.
record SameWriter (m n : Mux) : Type 0 where
  transport : n.transport ≡ m.transport
  written : n.written ≡ m.written
  wbuf : n.wbuf ≡ m.wbuf
  flush_scheduled : n.flush_scheduled ≡ m.flush_scheduled
  soon : n.soon ≡ m.soon

-- A connection that holds what was submitted, and a flush callback for what waits.
pub record Carries (sent : List ℕ) (m : Mux) : Type 0 where
  pub is_up : m.transport ≡ live
  pub in_order : m.written ++ m.wbuf ≡ sent
  pub waiting : is_empty m.wbuf || m.flush_scheduled ≡ true
  pub scheduled : not m.flush_scheduled || ltb 0 m.soon ≡ true

Carries-same : {sent : List ℕ} {m n : Mux} → SameWriter m n → Carries sent m → Carries sent n
Carries-same s c = record {
  is_up = s.transport ∙ c.is_up;
  in_order = rw (s.written, s.wbuf) c.in_order;
  waiting = rw (s.wbuf, s.flush_scheduled) c.waiting;
  scheduled = rw (s.soon, s.flush_scheduled) c.scheduled;
}

waits_scheduled :
    {sent : List ℕ} {m : Mux} → Carries sent m → is_empty m.wbuf || ltb 0 m.soon ≡ true
waits_scheduled {m} c = ground arith

is_empty-nil : (xs : List ℕ) → is_empty xs ≡ true → xs ≡ []
is_empty-nil [] e = refl
is_empty-nil (x ∷ xs) e = cc

send-Carries :
    (bytes : List ℕ) {sent : List ℕ} {m : Mux}
    → Carries sent m
    → Carries (sent ++ bytes) (send bytes m).1
unfolding send
send-Carries bytes {sent} {m} c = ground (
  arith,
  is_empty-nil m.wbuf,
  append_assoc m.written m.wbuf bytes,
  append-nil m.written,
  append-nil (m.written ++ bytes),
)

tick-Carries : {sent : List ℕ} {m : Mux} → Carries sent m → Carries sent (tick m)
unfolding tick
tick-Carries {sent} {m} c =
    ground (arith, is_empty-nil m.wbuf, append-nil m.written, append-nil (m.written ++ m.wbuf))

cancel-Carries : (fut : ℕ) {sent : List ℕ} {m : Mux} → Carries sent m → Carries sent (cancel fut m)
unfolding cancel
cancel-Carries fut {sent} {m} c = ground arith

SameWriter-refl : (m : Mux) → SameWriter m m
SameWriter-refl m = record {
  transport = refl;
  written = refl;
  wbuf = refl;
  flush_scheduled = refl;
  soon = refl;
}

SameWriter-trans : {a b c : Mux} → SameWriter a b → SameWriter b c → SameWriter a c
SameWriter-trans s t = record {
  transport = t.transport ∙ s.transport;
  written = t.written ∙ s.written;
  wbuf = t.wbuf ∙ s.wbuf;
  flush_scheduled = t.flush_scheduled ∙ s.flush_scheduled;
  soon = t.soon ∙ s.soon;
}

module _ (loop : Mux → Received × Mux) (h : (m : Mux) → SameWriter m (loop m).1) where
  deliver-SameWriter :
      (v : Value) (waiters : List ℕ) (m : Mux) → SameWriter m (go_on loop m (deliver v waiters m)).1
  deliver-SameWriter v [] m = SameWriter-refl m
  deliver-SameWriter v (fut ∷ waiters) m =
      let n = record m { waiters = waiters; status = settle fut v m.status } in
      SameWriter-trans {b = n}
        (record {
          transport = refl;
          written = refl;
          wbuf = refl;
          flush_scheduled = refl;
          soon = refl;
        })
        (h n)

  on_got-SameWriter : (m : Mux) (g : Got × List ℕ) → SameWriter m (on_got loop m g).1
  on_got-SameWriter m (Got.more, rest) = SameWriter-refl m
  on_got-SameWriter m (Got.fault e, rest) = SameWriter-refl m
  on_got-SameWriter m (Got.value v, rest) =
      let n = record m { buffer = rest } in
      SameWriter-trans {b = n}
        (record {
          transport = refl;
          written = refl;
          wbuf = refl;
          flush_scheduled = refl;
          soon = refl;
        })
        (deliver-SameWriter v m.waiters n)

module _ (decodable : List ℕ → Bool) (stack : ℕ) where
  drain-SameWriter : (rounds : ℕ) (m : Mux) → SameWriter m (drain decodable stack rounds m).1
  unfolding drain
  drain-SameWriter zero m = SameWriter-refl m
  drain-SameWriter (suc rounds) m =
      on_got-SameWriter (λ n. drain decodable stack rounds n) (drain-SameWriter rounds) m
        (gets decodable stack m.buffer)

  -- Replies leave the write side alone.
  run_op : Op → Mux → Mux
  run_op (submit bytes) m = (send bytes m).1
  run_op run_soon m = tick m
  run_op (receive rounds bytes) m = (data_received decodable stack rounds bytes m).1
  run_op (drop fut) m = cancel fut m

  unfoldable pub run_ops : List Op → Mux → Mux
  unfolding run_op
  run_ops [] m = m
  run_ops (op ∷ ops) m = run_ops ops (run_op op m)

abbrev pub submitted : List Op → List ℕ
submitted [] = []
submitted (submit bytes ∷ ops) = bytes ++ submitted ops
submitted (op ∷ ops) = submitted ops

module _ (decodable : List ℕ → Bool) (stack : ℕ) where
  run_op-Carries :
      (op : Op) (sent : List ℕ) (m : Mux)
      → Carries sent m
      → Carries (sent ++ submitted (op ∷ [])) (run_op decodable stack op m)
  unfolding run_op data_received
  run_op-Carries (submit bytes) sent m c = rw append-nil (send-Carries bytes c)
  run_op-Carries run_soon sent m c = rw append-nil (tick-Carries c)
  run_op-Carries (receive rounds bytes) sent m c = rw append-nil (
      Carries-same
        (drain-SameWriter decodable stack rounds (record m { buffer = m.buffer ++ bytes }))
        (record {
          is_up = c.is_up;
          in_order = c.in_order;
          waiting = c.waiting;
          scheduled = c.scheduled;
        }))
  run_op-Carries (drop fut) sent m c = rw append-nil (cancel-Carries fut c)

  submitted-cons :
      (op : Op) (ops : List Op) → submitted (op ∷ ops) ≡ submitted (op ∷ []) ++ submitted ops
  submitted-cons (submit bytes) ops = rw append-nil
  submitted-cons run_soon ops = refl
  submitted-cons (receive rounds bytes) ops = refl
  submitted-cons (drop fut) ops = refl

  run_ops-Carries :
      (ops : List Op) (sent : List ℕ) (m : Mux)
      → Carries sent m
      → Carries (sent ++ submitted ops) (run_ops decodable stack ops m)
  unfolding run_ops
  run_ops-Carries [] sent m c = rw append-nil c
  run_ops-Carries (op ∷ ops) sent m c =
      rw (submitted-cons op ops, ← append_assoc)
        (run_ops-Carries ops (sent ++ submitted (op ∷ [])) (run_op decodable stack op m)
          (run_op-Carries op sent m c))

  -- From a connection that carries `sent`, after any sequence of submissions, flush callbacks,
  -- received bytes and cancellations, the bytes written, followed by the bytes that wait, are what
  -- was sent and submitted, in order; where bytes wait, a flush callback is scheduled.
  pub run_ops-in_order :
      (ops : List Op) (sent : List ℕ) (m : Mux)
      → Carries sent m
      → let n = run_ops decodable stack ops m in
        (n.written ++ n.wbuf ≡ sent ++ submitted ops) × (is_empty n.wbuf || ltb 0 n.soon ≡ true)
  run_ops-in_order ops sent m c =
      let d = run_ops-Carries ops sent m c in (d.in_order, waits_scheduled d)

  tick-flushes : {sent : List ℕ} (m : Mux) → Carries sent m → (tick m).written ≡ sent
  unfolding tick
  tick-flushes m c = ground (arith, c.in_order, is_empty-nil m.wbuf, append-nil m.written)

  -- After any such sequence, the next flush callback, if bytes wait at all, hands over every byte
  -- that was submitted.
  pub run_ops-tick :
      (ops : List Op) (sent : List ℕ) (m : Mux)
      → Carries sent m
      → (tick (run_ops decodable stack ops m)).written ≡ sent ++ submitted ops
  run_ops-tick ops sent m c =
      tick-flushes (run_ops decodable stack ops m) (run_ops-Carries ops sent m c)
