-- ===== src/Redis/Encode.antt =====
-- `_encode_command` of python/fastapi_turbo/contrib_redis.py, and the commands that `get` and `set`
-- write out by hand. The UTF-8 encoder and `repr` of a float are the interpreter's.
use fastapi_turbo.Prelude.Int.{ℤ}
use fastapi_turbo.Prelude.Decimal.{show}
use fastapi_turbo.Prelude.{
  ℕ, suc, ◌<◌, ◌≡◌, refl, ap, ◌∙◌, String, List, [], ◌∷◌, ◌++◌, Option, none, some, length, arith,
  append_assoc, append-nil, Bool, map,
}
use fastapi_turbo.Redis.Wire.{
  Replies, bulk, replies, nil, cons, crlf, show_int, count, render, render_all, meanings, depth_all,
  AreWellFormed,
}
use fastapi_turbo.Redis.Reader.{gets, Got, Value, Values}
use fastapi_turbo.Redis.RoundTrip.{gets-render}

pub data Arg (Float : Type 0) : Type 0 where
  bytes : List ℕ → Arg Float
  str : String → Arg Float
  int : ℤ → Arg Float
  float : Float → Arg Float
  other : Arg Float

-- One bulk string, as the loop of `_encode_command` appends it.
abbrev pub chunk : List ℕ → List ℕ
chunk b = b'$' ∷ show (length b) ++ crlf (b ++ crlf [])

-- The bytes that `get` and `set` send, with `key` and `value` already bytes.
unfoldable pub get_bytes : List ℕ → List ℕ
get_bytes k =
    b'*'
    ∷ b'2'
    ∷ crlf (
        b'$'
        ∷ b'3'
        ∷ crlf (b'G' ∷ b'E' ∷ b'T' ∷ crlf (b'$' ∷ show (length k) ++ crlf (k ++ crlf []))))

unfoldable pub set_bytes : List ℕ → List ℕ → List ℕ
set_bytes k v =
    b'*'
    ∷ b'3'
    ∷ crlf (
        b'$'
        ∷ b'3'
        ∷ crlf (
            b'S'
            ∷ b'E'
            ∷ b'T'
            ∷ crlf (
                b'$' ∷ show (length k)
                ++ crlf (k ++ crlf (b'$' ∷ show (length v) ++ crlf (v ++ crlf []))))))

abbrev pub bulks : List (List ℕ) → Replies
bulks [] = nil
bulks (b ∷ bs) = cons (bulk b) (bulks bs)

abbrev pub byte_values : List (List ℕ) → Values
byte_values [] = Values.nil
byte_values (b ∷ bs) = Values.cons (Value.bytes b) (byte_values bs)

meanings-bulks : (ps : List (List ℕ)) → meanings (bulks ps) ≡ byte_values ps
meanings-bulks [] = refl
meanings-bulks (b ∷ bs) = ap (Values.cons (Value.bytes b)) (meanings-bulks bs)

count-bulks : (ps : List (List ℕ)) → count (bulks ps) ≡ length ps
count-bulks [] = refl
count-bulks (b ∷ bs) = ap suc (count-bulks bs)

depth-bulks : (ps : List (List ℕ)) → depth_all (bulks ps) ≡ 0
depth-bulks [] = refl
depth-bulks (b ∷ bs) = omega (arith, depth-bulks bs)

AreWellFormed-bulks : (d : List ℕ → Bool) (ps : List (List ℕ)) → AreWellFormed d (bulks ps)
AreWellFormed-bulks d [] = tt
AreWellFormed-bulks d (b ∷ bs) = (tt, AreWellFormed-bulks d bs)

render_all-append :
    (ps : List (List ℕ)) (rest : List ℕ)
    → render_all (bulks ps) [] ++ rest ≡ render_all (bulks ps) rest
unfolding render
render_all-append [] rest = refl
render_all-append (b ∷ bs) rest = simp (append_assoc, render_all-append bs rest)

render_command-append :
    (ps : List (List ℕ)) (rest : List ℕ)
    → render (replies (bulks ps)) [] ++ rest ≡ render (replies (bulks ps)) rest
unfolding render
render_command-append ps rest = simp (append_assoc, render_all-append ps rest)

module _ {Float : Type 0} (encode : String → List ℕ) (repr : Float → List ℕ) where
  -- `none` is the `TypeError`.
  abbrev pub payload : Arg Float → Option (List ℕ)
  payload (bytes b) = some b
  payload (str s) = some (encode s)
  payload (int n) = some (show_int n)
  payload (float x) = some (repr x)
  payload other = none

  abbrev pub with_payload : (List ℕ → Option (List ℕ)) → List ℕ → Option (List ℕ) → Option (List ℕ)
  with_payload go_on out none = none
  with_payload go_on out (some b) = go_on (out ++ chunk b)

  unfoldable pub encode_from : List ℕ → List (Arg Float) → Option (List ℕ)
  encode_from out [] = some out
  encode_from out (a ∷ args) = with_payload (λ o. encode_from o args) out (payload a)

  unfoldable pub encode_command : List (Arg Float) → Option (List ℕ)
  unfolding encode_from
  encode_command args = encode_from (b'*' ∷ show (length args) ++ crlf []) args

  encode_from-bulks :
      (out : List ℕ) (args : List (Arg Float)) (ps : List (List ℕ))
      → map payload args ≡ map some ps
      → encode_from out args ≡ some (out ++ render_all (bulks ps) [])
  unfolding encode_from render
  encode_from-bulks out [] [] e = rw append-nil
  encode_from-bulks out [] (b ∷ bs) e = cc
  encode_from-bulks out (a ∷ args) [] e = cc
  encode_from-bulks out (a ∷ args) (b ∷ bs) e =
      let here : payload a ≡ some b = cc in
      let later : map payload args ≡ map some bs = cc in
      ap (with_payload (λ o. encode_from o args) out) here
      ∙ encode_from-bulks (out ++ chunk b) args bs later
      ∙ simp append_assoc

  length-payloads :
      (args : List (Arg Float)) (ps : List (List ℕ))
      → map payload args ≡ map some ps
      → length args ≡ length ps
  length-payloads [] [] e = refl
  length-payloads [] (b ∷ bs) e = cc
  length-payloads (a ∷ args) [] e = cc
  length-payloads (a ∷ args) (b ∷ bs) e =
      let later : map payload args ≡ map some bs = cc in ap suc (length-payloads args bs later)

  -- Where every argument has bytes, the command is the RESP array of them as bulk strings.
  pub encode_command-render :
      (args : List (Arg Float)) (ps : List (List ℕ))
      → map payload args ≡ map some ps
      → encode_command args ≡ some (render (replies (bulks ps)) [])
  unfolding encode_command render
  encode_command-render args ps e =
      encode_from-bulks _ args ps e
      ∙ rw (length-payloads args ps e, count-bulks ps) (simp append_assoc)

  encode_from-none :
      (out : List ℕ) (before after : List (Arg Float)) (a : Arg Float)
      → payload a ≡ none
      → encode_from out (before ++ a ∷ after) ≡ none
  unfolding encode_from
  encode_from-none out [] after a e = rw e
  encode_from-none out (other ∷ before) after a e = refl
  encode_from-none out (bytes b ∷ before) after a e =
      encode_from-none (out ++ chunk (b)) before after a e
  encode_from-none out (str b ∷ before) after a e =
      encode_from-none (out ++ chunk (encode b)) before after a e
  encode_from-none out (int b ∷ before) after a e =
      encode_from-none (out ++ chunk (show_int b)) before after a e
  encode_from-none out (float b ∷ before) after a e =
      encode_from-none (out ++ chunk (repr b)) before after a e

  -- An argument without bytes (a `TypeError`) leaves nothing to send.
  pub encode_command-none :
      (before after : List (Arg Float)) (a : Arg Float)
      → payload a ≡ none
      → encode_command (before ++ a ∷ after) ≡ none
  unfolding encode_command
  encode_command-none before after a e =
      encode_from-none (b'*' ∷ show (length (before ++ a ∷ after)) ++ crlf []) before after a e

  -- The reader takes an encoded command back apart into the bytes of its arguments, whatever
  -- follows it in the buffer.
  pub gets-encode_command :
      (decodable : List ℕ → Bool) (f : ℕ) (args : List (Arg Float)) (ps : List (List ℕ))
      (rest : List ℕ)
      → map payload args ≡ map some ps
      → 1 < f
      → (out : List ℕ) × (encode_command args ≡ some out)
        × (gets decodable f (out ++ rest) ≡ (Got.value (Value.array (byte_values ps)), rest))
  gets-encode_command decodable f args ps rest e d = (
    render (replies (bulks ps)) [],
    encode_command-render args ps e,
    ap (gets decodable f) (render_command-append ps rest)
        ∙ gets-render decodable f (replies (bulks ps)) rest (AreWellFormed-bulks decodable ps)
            (omega (arith, depth-bulks ps))
        ∙ ap (λ vs. (Got.value (Value.array vs), rest)) (meanings-bulks ps),
  )

  -- `get` and `set` send what `_encode_command` makes of the three or two arguments.
  pub get_bytes-eq-encode_command :
      (k : List ℕ)
      → encode_command (bytes (b'G' ∷ b'E' ∷ b'T' ∷ []) ∷ bytes k ∷ []) ≡ some (get_bytes k)
  unfolding encode_command get_bytes show
  get_bytes-eq-encode_command k = refl

  pub set_bytes-eq-encode_command :
      (k v : List ℕ)
      → encode_command (bytes (b'S' ∷ b'E' ∷ b'T' ∷ []) ∷ bytes k ∷ bytes v ∷ [])
        ≡ some (set_bytes k v)
  unfolding encode_command set_bytes show
  set_bytes-eq-encode_command k v = simp append_assoc
