-- ===== src/Door/Oneshot/Tests.antt =====
-- A request in two parts, and a response of two chunks on whose second turn the client is gone.
use fastapi_turbo.Prelude.{ℕ, ◌&&◌, ◌≡◌, refl, Bool, true, false, List, [], ◌∷◌, ◌++◌, map, same}
use fastapi_turbo.Door.Oneshot.{
  disconnect, body, Response, start, chunk, close, done, raised, out_headers, finish,
  asgi_oneshot_http, drain_body, pump, bodiless, without,
}
use fastapi_turbo.Door.Oneshot.Frames.{
  free, take_while, sent, ending, all_sent, more, asgi_oneshot_http-streams, asgi_oneshot_http-gone,
}

abbrev is_length : List ℕ → Bool
is_length k = same k (1 ∷ [])

-- The status is 204 for an empty body; the engine captures the first byte of the body.
abbrev process : List ℕ → Response × List ℕ
process [] = (
  record {
    status = 204;
    headers = (1 ∷ [], []) ∷ [];
    turns = [];
    disconnected_last = false;
    breaks = false;
  },
  [],
)
process (a ∷ bytes) = (
  record {
    status = 200;
    headers = (1 ∷ [], []) ∷ [];
    turns =
        record { disconnected = false; chunk = a ∷ []; send_fails = false }
        ∷ record { disconnected = true; chunk = bytes; send_fails = false }
        ∷ [];
    disconnected_last = false;
    breaks = false;
  },
  a ∷ [],
)

cut_short :
    asgi_oneshot_http is_length true process [] (more (5 ∷ []) ∷ body (6 ∷ []) false ∷ [])
    ≡ (start 200 ((1 ∷ [], []) ∷ []) ∷ chunk (5 ∷ []) true ∷ close ∷ [], raised 5, [])
unfolding asgi_oneshot_http drain_body pump out_headers bodiless without
cut_short = refl

streams_example :
    asgi_oneshot_http is_length true process []
      (map more ((5 ∷ []) ∷ []) ++ body (6 ∷ []) false ∷ [])
    ≡ (
      start 200 (out_headers is_length 200 ((1 ∷ [], []) ∷ []))
            ∷ map sent (take_while (free true) (process (5 ∷ 6 ∷ [])).0.turns)
          ++ ending (all_sent true (process (5 ∷ 6 ∷ [])).0.turns false) false,
      (finish (all_sent true (process (5 ∷ 6 ∷ [])).0.turns false && false) (5 ∷ [])).0,
      (finish (all_sent true (process (5 ∷ 6 ∷ [])).0.turns false && false) (5 ∷ [])).1,
    )
streams_example = asgi_oneshot_http-streams is_length true process [] ((5 ∷ []) ∷ []) (6 ∷ []) []

gone_example :
    asgi_oneshot_http is_length true process (7 ∷ []) (map more ((5 ∷ []) ∷ []) ++ disconnect ∷ [])
    ≡ ([], done, 7 ∷ [])
gone_example = asgi_oneshot_http-gone is_length true process (7 ∷ []) ((5 ∷ []) ∷ []) []
