-- ===== src/Redis/Header.antt =====
-- The header line of a reply: the kind byte, a line of text, and the line break.
use fastapi_turbo.Prelude.Int.{ℤ, pos, negsuc}
use fastapi_turbo.Prelude.Decimal.{
  show, show-IsDigit, is_digit, int_of, int_of-show, int_of-minus_show, IsDigit,
}
use fastapi_turbo.Prelude.{
  ℕ, suc, ◌+◌, ◌≡◌, refl, ap, ◌∙◌, Bool, true, List, [], ◌∷◌, ◌++◌, some, arith, length, All,
}
use fastapi_turbo.Redis.Reader.{slice, parse, parse_kind, parse_at}
use fastapi_turbo.Redis.Wire.{crlf, show_int, NotCr}
use fastapi_turbo.Redis.Layout.{At, At-append, slice-At, find-At}

pub NotCr-digits : (s : List ℕ) → All IsDigit s → All NotCr s
NotCr-digits [] h = tt
NotCr-digits (c ∷ s) h = let d : is_digit c ≡ true = h.0 in (ground arith, NotCr-digits s h.1)

pub NotCr-show_int : (n : ℤ) → All NotCr (show_int n)
NotCr-show_int (pos n) = NotCr-digits (show n) (show-IsDigit n)
NotCr-show_int (negsuc n) = (omega arith, NotCr-digits (show (suc n)) (show-IsDigit (suc n)))

pub int_of-show_int : (n : ℤ) → int_of (show_int n) ≡ some n
int_of-show_int (pos n) = int_of-show n
int_of-show_int (negsuc n) = int_of-minus_show (suc n)

pub int_of-minus_one : int_of (b'-' ∷ b'1' ∷ []) ≡ some (negsuc 0)
unfolding int_of
int_of-minus_one = refl

-- What follows the header line stands at the position that the parser goes on with.
pub At-header :
    (buf : List ℕ) (p k : ℕ) (line rest : List ℕ)
    → At buf p (k ∷ line ++ crlf rest)
    → At buf (p + suc (length line) + 2) rest
At-header buf p k line rest at =
    At-append buf (p + suc (length line)) (crlf []) rest (At-append buf p (k ∷ line) (crlf rest) at)

module _ (decodable : List ℕ → Bool) where
  -- One header line: the parser goes on with its kind byte and its text.
  pub parse_header :
      (f : ℕ) (buf : List ℕ) (p k : ℕ) (line rest : List ℕ)
      → NotCr k
      → All NotCr line
      → At buf p (k ∷ line ++ crlf rest)
      → parse decodable (suc f) buf (pos p)
        ≡ parse_kind decodable
            (λ c. parse decodable f buf c)
            buf
            (pos p)
            (k ∷ [])
            line
            (pos (p + suc (length line) + 2))
  unfolding parse
  parse_header f buf p k line rest hk hl at =
      let rec = λ (c : ℤ). parse decodable f buf c in
      let tail = At-append buf p (k ∷ []) (line ++ crlf rest) at in
      let nl_eq : p + suc (length line) ≡ p + 1 + length line = omega arith in
      let text_eq : slice buf (pos (p + 1)) (pos (p + suc (length line))) ≡ line =
        ap (λ n. slice buf (pos (p + 1)) (pos n)) nl_eq
        ∙ slice-At buf (p + 1) line (crlf rest) tail in
      ap (parse_at decodable rec buf (pos p)) (find-At buf p (k ∷ line) rest (hk, hl) at)
      ∙ ap
          (λ kind.
            parse_kind decodable rec buf (pos p) kind
              (slice buf (pos (p + 1)) (pos (p + suc (length line))))
              (pos (p + suc (length line) + 2)))
          (slice-At buf p (k ∷ []) (line ++ crlf rest) at)
      ∙ ap
          (λ text.
            parse_kind decodable rec buf (pos p) (k ∷ []) text (pos (p + suc (length line) + 2)))
          text_eq
