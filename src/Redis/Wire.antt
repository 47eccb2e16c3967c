-- ===== src/Redis/Wire.antt =====
-- RESP2 as the protocol defines it: what a server writes, and the value that each reply stands for.
use fastapi_turbo.Prelude.Int.{ℤ, pos, negsuc}
use fastapi_turbo.Prelude.Decimal.{show}
use fastapi_turbo.Prelude.{ℕ, suc, ◌≡◌, ◌≢◌, Bool, true, List, ◌∷◌, ◌++◌, length, max, All}
use fastapi_turbo.Redis.Reader.{Value, Values}

mutual
  pub data Reply : Type 0 where
    simple : List ℕ → Reply
    failure : List ℕ → Reply
    number : ℤ → Reply
    null_bulk : Reply
    bulk : List ℕ → Reply
    null_array : Reply
    replies : Replies → Reply

  pub data Replies : Type 0 where
    nil : Replies
    cons : Reply → Replies → Replies

abbrev pub crlf : List ℕ → List ℕ
crlf rest = 13 ∷ 10 ∷ rest

abbrev pub show_int : ℤ → List ℕ
show_int (pos n) = show n
show_int (negsuc n) = b'-' ∷ show (suc n)

abbrev pub count : Replies → ℕ
count nil = 0
count (cons r rs) = suc (count rs)

unfoldable mutual
  -- The bytes of a reply, followed by `rest`.
  pub render : Reply → List ℕ → List ℕ
  render (simple line) rest = b'+' ∷ line ++ crlf rest
  render (failure line) rest = b'-' ∷ line ++ crlf rest
  render (number n) rest = b':' ∷ show_int n ++ crlf rest
  render null_bulk rest = b'$' ∷ b'-' ∷ b'1' ∷ crlf rest
  render (bulk data_) rest = b'$' ∷ show (length data_) ++ crlf (data_ ++ crlf rest)
  render null_array rest = b'*' ∷ b'-' ∷ b'1' ∷ crlf rest
  render (replies rs) rest = b'*' ∷ show (count rs) ++ crlf (render_all rs rest)

  pub render_all : Replies → List ℕ → List ℕ
  render_all nil rest = rest
  render_all (cons r rs) rest = render r (render_all rs rest)

abbrev mutual
  pub meaning : Reply → Value
  meaning (simple line) = Value.bytes line
  meaning (failure line) = Value.mux_error line
  meaning (number n) = Value.int n
  meaning null_bulk = Value.null
  meaning (bulk data_) = Value.bytes data_
  meaning null_array = Value.null
  meaning (replies rs) = Value.array (meanings rs)

  pub meanings : Replies → Values
  meanings nil = Values.nil
  meanings (cons r rs) = Values.cons (meaning r) (meanings rs)

-- How deep arrays nest.
abbrev mutual
  pub depth : Reply → ℕ
  depth (replies rs) = suc (depth_all rs)
  depth _ = 0

  pub depth_all : Replies → ℕ
  depth_all nil = 0
  depth_all (cons r rs) = max (depth r) (depth_all rs)

abbrev pub NotCr : ℕ → Type 0
NotCr c = c ≢ 13

-- A line holds no carriage return, and the text of an error can be decoded.
abbrev mutual
  pub IsWellFormed : (List ℕ → Bool) → Reply → Type 0
  IsWellFormed decodable (simple line) = All NotCr line
  IsWellFormed decodable (failure line) = All NotCr line × (decodable line ≡ true)
  IsWellFormed decodable (replies rs) = AreWellFormed decodable rs
  IsWellFormed decodable _ = Unit

  pub AreWellFormed : (List ℕ → Bool) → Replies → Type 0
  AreWellFormed decodable nil = Unit
  AreWellFormed decodable (cons r rs) = IsWellFormed decodable r × AreWellFormed decodable rs
