-- ===== src/Redis/Layout.antt =====
-- Where a text stands in a buffer, and what the reader's `find` and slices see there.
use fastapi_turbo.Prelude.Int.{pos}
use fastapi_turbo.Prelude.{
  ℕ, suc, ◌+◌, ◌≡◌, refl, ap, ◌∙◌, List, [], ◌∷◌, ◌++◌, some, arith, length, drop, take, All,
  length-append, drop-append, take-append, drop-drop,
}
use fastapi_turbo.Redis.Reader.{index, slice, find, find_from}
use fastapi_turbo.Redis.Wire.{crlf, NotCr}

-- From position `p` on, the buffer holds `rest` and nothing more.
pub record At (buf : List ℕ) (p : ℕ) (rest : List ℕ) : Type 0 where
  pub rest_eq : drop p buf ≡ rest
  pub size_eq : p + length rest ≡ length buf

pub At-start : (buf : List ℕ) → At buf 0 buf
At-start buf = record { rest_eq = refl; size_eq = omega arith }

pub At-append :
    (buf : List ℕ) (p : ℕ) (xs ys : List ℕ) → At buf p (xs ++ ys) → At buf (p + length xs) ys
At-append buf p xs ys h = record {
  rest_eq = drop-drop p (length xs) buf ∙ ap (drop (length xs)) h.rest_eq ∙ drop-append xs ys;
  size_eq = omega (arith, h.size_eq, length-append xs ys);
}

pub index-At :
    (buf : List ℕ) (p : ℕ) (rest : List ℕ) → At buf p rest → index (length buf) (pos p) ≡ p
index-At buf p rest h = omega (arith, h.size_eq)

pub slice-At :
    (buf : List ℕ) (p : ℕ) (xs ys : List ℕ)
    → At buf p (xs ++ ys)
    → slice buf (pos p) (pos (p + length xs)) ≡ xs
slice-At buf p xs ys h =
    let next = At-append buf p xs ys h in
    rw (index-At buf p (xs ++ ys) h, index-At buf (p + length xs) ys next, h.rest_eq)
      (ap (λ n. take n (xs ++ ys)) {y = length xs} (omega arith) ∙ take-append xs ys)

find_from-crlf :
    (i : ℕ) (line rest : List ℕ)
    → All NotCr line
    → find_from i (line ++ crlf rest) ≡ some (i + length line)
find_from-crlf i [] rest h = ap some (omega arith)
find_from-crlf i (c ∷ []) rest h = ground (arith, h.0)
find_from-crlf i (c ∷ d ∷ line) rest h =
    ground (arith, h.0, find_from-crlf (suc i) (d ∷ line) rest h.1)

pub find-At :
    (buf : List ℕ) (p : ℕ) (line rest : List ℕ)
    → All NotCr line
    → At buf p (line ++ crlf rest)
    → find buf (pos p) ≡ some (p + length line)
find-At buf p line rest h at = rw (index-At buf p _ at, at.rest_eq) (find_from-crlf p line rest h)
