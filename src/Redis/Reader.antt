-- ===== src/Redis/Reader.antt =====
-- `_PyReader` of python/fastapi_turbo/contrib_redis.py: an incremental RESP2 parser over a byte
-- buffer. Positions are Python integers, with the meaning that Python gives a negative one in a
-- slice. The fuel of `parse` is the number of nested calls that the interpreter's stack allows.
use fastapi_turbo.Prelude.Int.{ℤ, pos, negsuc, ◌+ℤ◌, ◌-ℤ◌, lt_ℤ, eq_ℤ}
use fastapi_turbo.Prelude.Decimal.{int_of}
use fastapi_turbo.Prelude.{
  ℕ, zero, suc, ◌+◌, ◌-◌, min, Bool, false, ◌&&◌, List, [], ◌∷◌, Option, none, some, ◌==◌,
  if◌then◌else◌, length, take, drop,
}

-- What the reader returns; simple strings and bulk strings are both `bytes`.
mutual
  pub data Value : Type 0 where
    null : Value
    bytes : List ℕ → Value
    int : ℤ → Value
    mux_error : List ℕ → Value
    array : Values → Value

  pub data Values : Type 0 where
    nil : Values
    cons : Value → Values → Values

-- The exceptions that leave `_parse`.
pub data Fault : Type 0 where
  bad_int undecodable recursion_limit : Fault
  bad_type : List ℕ → Fault

pub data Outcome : Type 0 where
  incomplete : Outcome
  parsed : Value → ℤ → Outcome
  raised : Fault → Outcome

pub data Filled : Type 0 where
  short : Filled
  filled : Values → ℤ → Filled
  broken : Fault → Filled

-- The start or end of a slice, as an index into a buffer of the given length.
abbrev pub index : ℕ → ℤ → ℕ
index len (pos n) = min n len
index len (negsuc n) = len - suc n

abbrev pub slice : List ℕ → ℤ → ℤ → List ℕ
slice buf a b = let i = index (length buf) a in take (index (length buf) b - i) (drop i buf)

abbrev pub is_crlf : List ℕ → Bool
is_crlf (a ∷ b ∷ s) = a == 13 && b == 10
is_crlf _ = false

abbrev pub find_from : ℕ → List ℕ → Option ℕ
find_from i [] = none
find_from i (c ∷ s) = let rest = find_from (suc i) s in if is_crlf (c ∷ s) then some i else rest

-- `buf.find(b"\r\n", p)`.
abbrev pub find : List ℕ → ℤ → Option ℕ
find buf p = let i = index (length buf) p in find_from i (drop i buf)

abbrev pub is_kind : List ℕ → ℕ → Bool
is_kind (c ∷ []) k = c == k
is_kind _ k = false

abbrev pub filled_from : Value → Filled → Filled
filled_from v short = short
filled_from v (filled vs c) = filled (cons v vs) c
filled_from v (broken e) = broken e

abbrev pub with_item : (ℤ → Filled) → ℤ → Outcome → Filled
with_item go_on cursor incomplete = short
with_item go_on cursor (parsed v c) = filled_from v (go_on (cursor +ℤ c))
with_item go_on cursor (raised e) = broken e

-- The loop over the items of an array.
unfoldable pub items : (ℤ → Outcome) → ℕ → ℤ → Filled
items rec zero cursor = filled nil cursor
items rec (suc n) cursor = with_item (λ c. items rec n c) cursor (rec cursor)

-- The number of rounds of `range(n)`.
abbrev pub rounds : ℤ → ℕ
rounds (pos n) = n
rounds (negsuc n) = 0

abbrev pub parse_int : Option ℤ → ℤ → Outcome
parse_int none used = raised bad_int
parse_int (some n) used = parsed (int n) used

abbrev pub parse_bulk : List ℕ → ℤ → ℤ → Option ℤ → Outcome
parse_bulk buf p head_end none = raised bad_int
parse_bulk buf p head_end (some n) =
    if eq_ℤ n (negsuc 0)
    then parsed null (head_end -ℤ p)
    else if lt_ℤ (pos (length buf)) (head_end +ℤ n +ℤ pos 2)
    then incomplete
    else parsed (bytes (slice buf head_end (head_end +ℤ n))) (head_end +ℤ n +ℤ pos 2 -ℤ p)

abbrev pub close_array : ℤ → Filled → Outcome
close_array p short = incomplete
close_array p (filled vs cursor) = parsed (array vs) (cursor -ℤ p)
close_array p (broken e) = raised e

abbrev pub parse_array : (ℤ → Outcome) → ℤ → ℤ → Option ℤ → Outcome
parse_array rec p head_end none = raised bad_int
parse_array rec p head_end (some n) =
    if eq_ℤ n (negsuc 0)
    then parsed null (head_end -ℤ p)
    else close_array p (items rec (rounds n) head_end)

pub data Got : Type 0 where
  more : Got
  value : Value → Got
  fault : Fault → Got

abbrev pub got : List ℕ → Outcome → Got × List ℕ
got buf incomplete = (more, buf)
got buf (parsed v c) = (value v, drop (index (length buf) c) buf)
got buf (raised e) = (fault e, buf)

module _ (decodable : List ℕ → Bool) where
  abbrev pub parse_kind : (ℤ → Outcome) → List ℕ → ℤ → List ℕ → List ℕ → ℤ → Outcome
  parse_kind rec buf p kind line head_end =
      if is_kind kind b'+'
      then parsed (bytes line) (head_end -ℤ p)
      else if is_kind kind b':'
      then parse_int (int_of line) (head_end -ℤ p)
      else if is_kind kind b'-'
      then (if decodable line then parsed (mux_error line) (head_end -ℤ p) else raised undecodable)
      else if is_kind kind b'$'
      then parse_bulk buf p head_end (int_of line)
      else if is_kind kind b'*'
      then parse_array rec p head_end (int_of line)
      else raised (bad_type kind)

  abbrev pub parse_at : (ℤ → Outcome) → List ℕ → ℤ → Option ℕ → Outcome
  parse_at rec buf p none = incomplete
  parse_at rec buf p (some nl) =
      parse_kind rec buf p (slice buf p (p +ℤ pos 1)) (slice buf (p +ℤ pos 1) (pos nl))
        (pos (nl + 2))

  -- `decodable` says of which bytes `line.decode()` makes a text.
  unfoldable pub parse : ℕ → List ℕ → ℤ → Outcome
  parse zero buf p = raised recursion_limit
  parse (suc f) buf p = parse_at (λ c. parse f buf c) buf p (find buf p)

  -- `gets`: the reply and what is left of the buffer, `more` for `False`.
  unfoldable pub gets : ℕ → List ℕ → Got × List ℕ
  gets f buf = got buf (parse f buf (pos 0))
