-- ===== src/Redis/Mux.antt =====
-- `RedisMux` and `_MuxProtocol` of python/fastapi_turbo/contrib_redis.py: one connection that many
-- tasks share. A future is a number; `soon` counts the flush callbacks that the event loop holds.
-- The reader is the fallback `_PyReader`. `written` is what `transport.write` was given since the
-- connection was made.
pub mod Order
pub mod Demux
use fastapi_turbo.Prelude.{
  ℕ, zero, suc, ◌+◌, ◌-◌, Bool, true, false, not, ◌&&◌, List, [], ◌∷◌, ◌++◌, Option, none, some,
  ◌==◌, ltb, if◌then◌else◌,
}
use fastapi_turbo.Redis.Reader.{Value, Values, Fault, Got, gets}

pub data Transport : Type 0 where
  absent live closing : Transport

pub data Status : Type 0 where
  pending cancelled lost : Status
  result : Value → Status
  error : List ℕ → Status

pub record Mux : Type 0 where
  pub transport : Transport
  pub buffer : List ℕ
  pub waiters : List ℕ
  pub wbuf : List ℕ
  pub flush_scheduled : Bool
  pub connecting : Bool
  pub closed : Bool
  pub db : ℕ
  pub written : List ℕ
  pub soon : ℕ
  pub next_fut : ℕ
  pub status : ℕ → Status

abbrev pub is_live : Transport → Bool
is_live live = true
is_live _ = false

abbrev pub is_absent : Transport → Bool
is_absent absent = true
is_absent _ = false

abbrev pub is_empty : List ℕ → Bool
is_empty [] = true
is_empty (x ∷ xs) = false

abbrev pub done : Status → Bool
done pending = false
done _ = true

abbrev pub update : (ℕ → Status) → ℕ → Status → ℕ → Status
update status fut s g = if g == fut then s else status g

-- `transport.write`: a transport that is closing drops what it is given.
abbrev pub write : List ℕ → Mux → Mux
write bytes m = if is_live m.transport then record m { written = m.written ++ bytes } else m

-- `_send`; `none` is the `AttributeError` of a missing transport.
unfoldable pub send : List ℕ → Mux → Option ℕ × Mux
send encoded m =
    let fut = m.next_fut in
    let queued = record m {
      next_fut = suc fut;
      waiters = m.waiters ++ fut ∷ [];
      status = update m.status fut pending;
    } in
    if is_empty m.waiters && is_empty m.wbuf
    then (if is_absent m.transport then (none, queued) else (some fut, write encoded queued))
    else (
      some fut,
      (if m.flush_scheduled then record queued { wbuf = m.wbuf ++ encoded } else record queued {
        wbuf = m.wbuf ++ encoded;
        flush_scheduled = true;
        soon = suc m.soon;
      }),
    )

-- `_flush`.
unfoldable pub flush : Mux → Mux
flush m =
    let m' = record m { flush_scheduled = false } in
    if not (is_absent m.transport) && not (is_empty m.wbuf)
    then write m.wbuf (record m' { wbuf = [] })
    else m'

-- The event loop runs one scheduled flush, if it holds one.
unfoldable pub tick : Mux → Mux
unfolding flush
tick m = if ltb 0 m.soon then flush (record m { soon = m.soon - 1 }) else m

-- What a reply makes of the future that waits for it.
abbrev pub settled : Value → Status
settled (Value.mux_error line) = error line
settled v = result v

abbrev pub settle : ℕ → Value → (ℕ → Status) → ℕ → Status
settle fut v status = if done (status fut) then status else update status fut (settled v)

-- The task of a future is cancelled, or times out.
unfoldable pub cancel : ℕ → Mux → Mux
cancel fut m =
    if done (m.status fut) then m else record m { status = update m.status fut cancelled }

pub data Received : Type 0 where
  -- the loop ended at an incomplete reply
  drained : Received
  -- a reply with no waiter: `IndexError` of `popleft`
  unsolicited : Received
  -- `_parse` raised
  faulty : Fault → Received
  -- the rounds of the model ran out
  out_of_rounds : Received

abbrev pub deliver : Value → List ℕ → Mux → Option Mux
deliver v [] m = none
deliver v (fut ∷ waiters) m = some (record m { waiters = waiters; status = settle fut v m.status })

abbrev pub go_on : (Mux → Received × Mux) → Mux → Option Mux → Received × Mux
go_on loop m none = (unsolicited, m)
go_on loop m (some m') = loop m'

abbrev pub on_got : (Mux → Received × Mux) → Mux → Got × List ℕ → Received × Mux
on_got loop m (Got.more, rest) = (drained, m)
on_got loop m (Got.value v, rest) =
    let m' = record m { buffer = rest } in go_on loop m' (deliver v m.waiters m')
on_got loop m (Got.fault e, rest) = (faulty e, m)

module _ (decodable : List ℕ → Bool) (stack : ℕ) where
  -- The `while True` of `data_received`.
  unfoldable pub drain : ℕ → Mux → Received × Mux
  drain zero m = (out_of_rounds, m)
  drain (suc rounds) m = on_got (λ m'. drain rounds m') m (gets decodable stack m.buffer)

  unfoldable pub data_received : ℕ → List ℕ → Mux → Received × Mux
  data_received rounds bytes m = drain rounds (record m { buffer = m.buffer ++ bytes })

abbrev pub lose_all : List ℕ → (ℕ → Status) → ℕ → Status
lose_all [] status = status
lose_all (fut ∷ waiters) status =
    lose_all waiters (if done (status fut) then status else update status fut lost)

-- `_on_connection_lost`.
unfoldable pub connection_lost : Mux → Mux
connection_lost m = record m {
  transport = absent;
  waiters = [];
  status = lose_all m.waiters m.status;
}

-- `close`: the connection is reported lost later.
unfoldable pub close : Mux → Mux
close m = record m { closed = true; transport = absent }

pub data Connect : Type 0 where
  ready refused wait dial : Connect

-- The start of `connect`, up to its first `await`.
unfoldable pub connect : Mux → Connect × Mux
connect m =
    if is_live m.transport
    then (ready, m)
    else if m.closed
    then (refused, m)
    else if m.connecting
    then (wait, m)
    else (dial, record m { connecting = true })

-- `create_connection` has returned a transport; `select` is the encoded `SELECT` command.
unfoldable pub connected : List ℕ → Mux → Option ℕ × Mux
unfolding send
connected select m =
    let m' = record m {
      buffer = [];
      waiters = [];
      wbuf = [];
      flush_scheduled = false;
      transport = live;
      written = [];
    } in
    if m.db == 0 then (none, record m' { connecting = false }) else send select m'

-- The `finally` of `connect`: the racers that wait for the dial go on.
unfoldable pub end_connect : Mux → Mux
end_connect m = record m { connecting = false }

-- `execute` up to its first `await`: `none` where it has to connect first.
unfoldable pub execute : List ℕ → Mux → Option ℕ × Mux
unfolding send
execute encoded m = if is_live m.transport then send encoded m else (none, m)
