-- ===== src/Redis/Mux/Demux.antt =====
-- Replies meet the waiters first in, first out: the i-th reply settles the i-th future in line.
use fastapi_turbo.Prelude.{
  ℕ, zero, suc, ◌<◌, ◌≡◌, refl, ap, ◌∙◌, Bool, true, false, List, [], ◌∷◌, ◌++◌, Option, none, some,
  arith, ◌==◌, if◌then◌else◌, length, inl, inr, Bool-cases, ==_iff, ◌&&◌, ◌||◌, not,
}
use fastapi_turbo.Redis.Reader.{Value, Values, Got, gets}
use fastapi_turbo.Redis.Wire.{
  Replies, nil, cons, count, render_all, render, meaning, meanings, depth_all, AreWellFormed,
}
use fastapi_turbo.Redis.RoundTrip.{gets-render}
use fastapi_turbo.Redis.Mux.{
  Mux, Status, done, settled, settle, update, Received, drained, deliver, go_on, on_got, drain,
  data_received, lose_all, connection_lost, lost, absent,
}

-- The reply that is due to a future, by its place in the line.
abbrev pub reply_for : ℕ → List ℕ → Values → Option Value
reply_for fut [] vs = none
reply_for fut (w ∷ ws) Values.nil = none
reply_for fut (w ∷ ws) (Values.cons v vs) = if fut == w then some v else reply_for fut ws vs

-- A future that is done keeps its outcome; any other takes the reply that is due to it.
abbrev pub outcome : Status → Option Value → Status
outcome s none = s
outcome s (some v) = if done s then s else settled v

abbrev settle_all : List ℕ → Values → (ℕ → Status) → ℕ → Status
settle_all [] vs status = status
settle_all (w ∷ ws) Values.nil status = status
settle_all (w ∷ ws) (Values.cons v vs) status = settle_all ws vs (settle w v status)

done-settled : (v : Value) → done (settled v) ≡ true
done-settled (Value.mux_error line) = refl
done-settled v = refl

outcome-done : (s : Status) (o : Option Value) → done s ≡ true → outcome s o ≡ s
outcome-done s none h = refl
outcome-done s (some v) h = rw h

settle_self :
    (fut : ℕ) (v : Value) (status : ℕ → Status)
    → settle fut v status fut ≡ outcome (status fut) (some v)
settle_self fut v status = ground arith

done-settle : (fut : ℕ) (v : Value) (status : ℕ → Status) → done (settle fut v status fut) ≡ true
done-settle fut v status = rw (settle_self fut v status) (ground (arith, done-settled v))

settle_ne :
    (fut w : ℕ) (v : Value) (status : ℕ → Status)
    → (fut == w) ≡ false
    → settle w v status fut ≡ status fut
settle_ne fut w v status h = ground arith

settle_all_lem :
    (fut : ℕ) (ws : List ℕ) (vs : Values) (status : ℕ → Status)
    → settle_all ws vs status fut ≡ outcome (status fut) (reply_for fut ws vs)
settle_all_lem fut [] vs status = refl
settle_all_lem fut (w ∷ ws) Values.nil status = refl
settle_all_lem fut (w ∷ ws) (Values.cons v vs) status = elim (Bool-cases (fut == w)) [
  | inl same ↦
      let e : fut ≡ w = (==_iff fut w).0 same in
      rw same (
        settle_all_lem fut ws vs (settle w v status)
        ∙ outcome-done _ (reply_for fut ws vs) (rw (← e) (done-settle fut v status))
        ∙ rw (← e) (settle_self fut v status))
  | inr other ↦ rw other (
      settle_all_lem fut ws vs (settle w v status)
      ∙ ap (λ s. outcome s (reply_for fut ws vs)) (settle_ne fut w v status other))
]

module _ (decodable : List ℕ → Bool) (stack : ℕ) where
  drain-replies :
      (rounds : ℕ) (rs : Replies) (ws later tail : List ℕ) (m : Mux)
      → AreWellFormed decodable rs
      → depth_all rs < stack
      → gets decodable stack tail ≡ (Got.more, tail)
      → m.buffer ≡ render_all rs tail
      → m.waiters ≡ ws ++ later
      → length ws ≡ count rs
      → count rs < rounds
      → drain decodable stack rounds m ≡ (
        drained,
        record m { buffer = tail; waiters = later; status = settle_all ws (meanings rs) m.status },
      )
  unfolding drain render
  drain-replies zero rs ws later tail m w d t b q l h = elim h [ ]
  drain-replies (suc rounds) nil [] later tail m w d t b q l h =
      ap (on_got (λ n. drain decodable stack rounds n) m) (ap (gets decodable stack) b ∙ t) ∙ λ i.
      (drained, record m { buffer = b i; waiters = q i; status = m.status })
  drain-replies (suc rounds) nil (x ∷ ws) later tail m w d t b q l h = absurd (omega arith)
  drain-replies (suc rounds) (cons r rs) [] later tail m w d t b q l h = absurd (omega arith)
  drain-replies (suc rounds) (cons r rs) (x ∷ ws) later tail m w d t b q l h =
      let loop = λ (n : Mux). drain decodable stack rounds n in
      let m' = record m { buffer = render_all rs tail } in
      let n = record m' { waiters = ws ++ later; status = settle x (meaning r) m.status } in
      ap (on_got loop m) (
        ap (gets decodable stack) b
        ∙ gets-render decodable stack r (render_all rs tail) w.0 (omega arith))
      ∙ ap (λ line. go_on loop m' (deliver (meaning r) line m')) q
      ∙ drain-replies rounds rs ws later tail n w.1 (omega arith) t refl refl (omega arith)
          (omega arith)

  -- What `data_received` leaves behind when the buffer then holds the replies `rs` in full, followed
  -- by a tail in which no reply is complete.
  pub record Served (rs : Replies) (ws later tail : List ℕ) (m : Mux) (r : Received × Mux)
      : Type 0 where
    pub ended : r.0 ≡ drained
    pub left : r.1.buffer ≡ tail
    pub line : r.1.waiters ≡ later
    pub statuses :
        (fut : ℕ) → r.1.status fut ≡ outcome (m.status fut) (reply_for fut ws (meanings rs))

  -- With a future in line for each of the replies that the buffer then holds, `data_received` takes
  -- them all off, in order: the i-th future in line gets the i-th reply (none of a future that is
  -- done changes), the rest of the line waits on, and the incomplete tail stays in the buffer.
  pub data_received-Served :
      (rounds : ℕ) (rs : Replies) (ws later tail bytes : List ℕ) (m : Mux)
      → AreWellFormed decodable rs
      → depth_all rs < stack
      → gets decodable stack tail ≡ (Got.more, tail)
      → m.buffer ++ bytes ≡ render_all rs tail
      → m.waiters ≡ ws ++ later
      → length ws ≡ count rs
      → count rs < rounds
      → Served rs ws later tail m (data_received decodable stack rounds bytes m)
  unfolding data_received
  data_received-Served rounds rs ws later tail bytes m w d t b q l h =
      let e =
        drain-replies rounds rs ws later tail (record m { buffer = m.buffer ++ bytes }) w d t b q l
          h in
      record {
        ended = ap (λ (r : Received × Mux). r.0) e;
        left = ap (λ (r : Received × Mux). r.1.buffer) e;
        line = ap (λ (r : Received × Mux). r.1.waiters) e;
        statuses = λ fut.
            ap (λ (r : Received × Mux). r.1.status fut) e
            ∙ settle_all_lem fut ws (meanings rs) m.status;
      }

abbrev pub is_waiting : ℕ → List ℕ → Bool
is_waiting fut [] = false
is_waiting fut (w ∷ ws) = fut == w || is_waiting fut ws

lose_all-done :
    (fut : ℕ) (ws : List ℕ) (status : ℕ → Status)
    → done (status fut) ≡ true
    → lose_all ws status fut ≡ status fut
lose_all-done fut [] status h = refl
lose_all-done fut (w ∷ ws) status h =
    let kept : (if done (status w) then status else update status w lost) fut ≡ status fut =
      ground arith in
    lose_all-done fut ws (if done (status w) then status else update status w lost) (rw kept h)
    ∙ kept

lose_all_lem :
    (fut : ℕ) (ws : List ℕ) (status : ℕ → Status)
    → lose_all ws status fut
      ≡ (if is_waiting fut ws && not (done (status fut)) then lost else status fut)
lose_all_lem fut [] status = refl
lose_all_lem fut (w ∷ ws) status = ground (
  arith,
  lose_all_lem fut ws status,
  lose_all_lem fut ws (update status w lost),
  lose_all-done fut ws (update status w lost),
)

-- A lost connection leaves no future in the line waiting: each that was not done gets the
-- connection error, and every other future keeps its outcome.
pub connection_lost-settles :
    (m : Mux) (fut : ℕ)
    → ((connection_lost m).waiters ≡ [])
      × ((connection_lost m).transport ≡ absent)
      × ((connection_lost m).status fut
          ≡ (if is_waiting fut m.waiters && not (done (m.status fut)) then lost else m.status fut))
unfolding connection_lost
connection_lost-settles m fut = (refl, refl, lose_all_lem fut m.waiters m.status)
