-- ===== src/Redis/Tests.antt =====
-- The Redis client on concrete inputs: a connection with two commands under way.
use fastapi_turbo.Prelude.{
  ◌==◌, ℕ, ◌≡◌, refl, Bool, true, false, String, List, [], ◌∷◌, ◌++◌, none, some, arith, ◌||◌, ◌&&◌,
  ltb, not, if◌then◌else◌,
}
use fastapi_turbo.Prelude.Int.{negsuc}
use fastapi_turbo.Redis.Reader.{gets, parse, Got, Value}
use fastapi_turbo.Redis.Wire.{
  Reply, number, simple, failure, bulk, replies, nil, cons, render, render_all, meaning,
}
use fastapi_turbo.Redis.RoundTrip.{gets-render}
use fastapi_turbo.Redis.Encode.{
  bytes, str, other, encode_command, byte_values, set_bytes, gets-encode_command,
  encode_command-none, set_bytes-eq-encode_command,
}
use fastapi_turbo.Redis.Mux.{
  Mux, live, absent, Status, pending, lost, done, is_empty, tick, data_received, connection_lost,
}
use fastapi_turbo.Redis.Mux.Order.{
  Op, submit, receive, drop, Carries, run_ops, submitted, run_ops-in_order, run_ops-tick,
}
use fastapi_turbo.Redis.Mux.Demux.{
  Served, is_waiting, data_received-Served, connection_lost-settles,
}

abbrev always : List ℕ → Bool
always line = true

-- An array of a bulk string with a line break in it, and a negative number.
abbrev two : Reply
two = replies (cons (bulk (1 ∷ 13 ∷ 10 ∷ [])) (cons (number (negsuc 4)) nil))

gets-render_example : gets always 3 (render two (43 ∷ [])) ≡ (Got.value (meaning two), 43 ∷ [])
gets-render_example = gets-render always 3 two (43 ∷ []) (tt, (tt, tt)) (omega arith)

abbrev no_text : String → List ℕ
no_text s = 63 ∷ []

abbrev no_float : ℕ → List ℕ
no_float x = 48 ∷ []

gets-encode_command_example :
    (out : List ℕ) × (encode_command no_text no_float (bytes (80 ∷ []) ∷ str "?" ∷ []) ≡ some out)
    × (gets always 2 (out ++ 43 ∷ [])
        ≡ (Got.value (Value.array (byte_values ((80 ∷ []) ∷ (63 ∷ []) ∷ []))), 43 ∷ []))
gets-encode_command_example =
    gets-encode_command no_text no_float always 2 (bytes (80 ∷ []) ∷ str "?" ∷ [])
      ((80 ∷ []) ∷ (63 ∷ []) ∷ []) (43 ∷ []) refl (omega arith)

encode_command-none_example : encode_command no_text no_float (str "x" ∷ other ∷ []) ≡ none
encode_command-none_example = encode_command-none no_text no_float (str "x" ∷ []) [] other refl

set_bytes_example :
    encode_command no_text no_float
      (bytes (b'S' ∷ b'E' ∷ b'T' ∷ []) ∷ bytes (107 ∷ []) ∷ bytes [] ∷ [])
    ≡ some (set_bytes (107 ∷ []) [])
set_bytes_example = set_bytes-eq-encode_command no_text no_float (107 ∷ []) []

-- Two commands wait for their replies, the first of them cancelled.
abbrev busy : Mux
busy = record {
  transport = live;
  buffer = 43 ∷ [];
  waiters = 0 ∷ 1 ∷ [];
  wbuf = [];
  flush_scheduled = false;
  connecting = false;
  closed = false;
  db = 0;
  written = 7 ∷ [];
  soon = 0;
  next_fut = 2;
  status = λ fut. if fut == 0 then Status.cancelled else pending;
}

-- "+a\r\n-b\r\n" of which the first byte had arrived, and an incomplete reply.
tail_incomplete : gets always 3 (36 ∷ []) ≡ (Got.more, 36 ∷ [])
unfolding gets parse
tail_incomplete = refl

arrived :
    (43 ∷ []) ++ (97 ∷ 13 ∷ 10 ∷ 45 ∷ 98 ∷ 13 ∷ 10 ∷ 36 ∷ [])
    ≡ render_all (cons (simple (97 ∷ [])) (cons (failure (98 ∷ [])) nil)) (36 ∷ [])
unfolding render
arrived = refl

data_received_example :
    Served always 3
      (cons (simple (97 ∷ [])) (cons (failure (98 ∷ [])) nil))
      (0 ∷ 1 ∷ [])
      []
      (36 ∷ [])
      busy
      (data_received always 3 4 (97 ∷ 13 ∷ 10 ∷ 45 ∷ 98 ∷ 13 ∷ 10 ∷ 36 ∷ []) busy)
data_received_example =
    data_received-Served always 3 4 (cons (simple (97 ∷ [])) (cons (failure (98 ∷ [])) nil))
      (0 ∷ 1 ∷ []) [] (36 ∷ []) (97 ∷ 13 ∷ 10 ∷ 45 ∷ 98 ∷ 13 ∷ 10 ∷ 36 ∷ []) busy
      (((λ e. omega arith), tt), ((((λ e. omega arith), tt), refl), tt)) (omega arith)
      tail_incomplete arrived refl refl (omega arith)

connection_lost_example :
    ((connection_lost busy).waiters ≡ [])
    × ((connection_lost busy).transport ≡ absent)
    × ((connection_lost busy).status 1
        ≡ (if is_waiting 1 busy.waiters && not (done (busy.status 1)) then lost else busy.status 1))
connection_lost_example = connection_lost-settles busy 1

abbrev traffic : List Op
traffic = submit (1 ∷ 2 ∷ []) ∷ drop 2 ∷ receive 3 (97 ∷ 13 ∷ 10 ∷ []) ∷ submit (3 ∷ []) ∷ []

busy-Carries : Carries (7 ∷ []) busy
busy-Carries = record { is_up = refl; in_order = refl; waiting = refl; scheduled = refl }

run_ops_example :
    ((run_ops always 3 traffic busy).written ++ (run_ops always 3 traffic busy).wbuf
      ≡ (7 ∷ []) ++ submitted traffic)
    × (is_empty (run_ops always 3 traffic busy).wbuf || ltb 0 (run_ops always 3 traffic busy).soon
        ≡ true)
run_ops_example = run_ops-in_order always 3 traffic (7 ∷ []) busy busy-Carries

run_ops-tick_example :
    (tick (run_ops always 3 traffic busy)).written ≡ (7 ∷ []) ++ submitted traffic
run_ops-tick_example = run_ops-tick always 3 traffic (7 ∷ []) busy busy-Carries
