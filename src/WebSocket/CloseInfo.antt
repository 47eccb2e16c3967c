-- ===== src/WebSocket/CloseInfo.antt =====
-- `_extract_close_info_from_error` of python/fastapi_turbo/websockets.py, over character codes.
use fastapi_turbo.Prelude.Int.{ℤ, pos}
use fastapi_turbo.Prelude.Decimal.{int_of, show, show-IsDigit, is_digit, IsDigit, int_of-show}
use fastapi_turbo.Prelude.{
  ℕ, ◌≡◌, refl, ap, ◌∙◌, true, false, List, [], ◌∷◌, ◌++◌, Option, none, some, arith, ◌==◌, All,
  if◌then◌else◌,
}

-- "WS_CLOSED:"
abbrev pub marker : List ℕ → List ℕ
marker s = b'W' ∷ b'S' ∷ b'_' ∷ b'C' ∷ b'L' ∷ b'O' ∷ b'S' ∷ b'E' ∷ b'D' ∷ b':' ∷ s

-- The text behind a prefix, if it is there.
abbrev pub strip_prefix : List ℕ → List ℕ → Option (List ℕ)
strip_prefix [] s = some s
strip_prefix (c ∷ p) [] = none
strip_prefix (c ∷ p) (d ∷ s) = if c == d then strip_prefix p s else none

-- `text.partition(":")`, without the separator.
abbrev pub partition : List ℕ → List ℕ × List ℕ
partition [] = ([], [])
partition (c ∷ s) = let rest = partition s in if c == b':' then ([], s) else (c ∷ rest.0, rest.1)

abbrev pub coded : Option ℤ → List ℕ → List ℕ → ℤ × List ℕ
coded none reason msg = (pos 1000, msg)
coded (some code) reason msg = (code, reason)

abbrev pub unmarked : Option (List ℕ) → List ℕ → ℤ × List ℕ
unmarked none msg = (pos 1000, msg)
unmarked (some rest) msg = coded (int_of (partition rest).0) (partition rest).1 msg

-- `_extract_close_info_from_error`.
unfoldable pub close_info : List ℕ → ℤ × List ℕ
close_info msg = unmarked (strip_prefix (marker []) msg) msg

partition-digits :
    (code reason : List ℕ) → All IsDigit code → partition (code ++ b':' ∷ reason) ≡ (code, reason)
partition-digits [] reason h = refl
partition-digits (c ∷ code) reason h =
    let d : is_digit c ≡ true = h.0 in
    let other : (c == b':') ≡ false = ground arith in
    rw other (ap (λ (p : List ℕ × List ℕ). (c ∷ p.0, p.1)) (partition-digits code reason h.1))

-- The code and the reason that the Rust side writes into its error are both read back, whatever the
-- reason holds.
pub close_info-marker :
    (code : ℕ) (reason : List ℕ)
    → close_info (marker (show code ++ b':' ∷ reason)) ≡ (pos code, reason)
unfolding close_info
close_info-marker code reason =
    ap (λ (p : List ℕ × List ℕ). coded (int_of p.0) p.1 (marker (show code ++ b':' ∷ reason)))
      (partition-digits (show code) reason (show-IsDigit code))
    ∙ ap (λ o. coded o reason (marker (show code ++ b':' ∷ reason))) (int_of-show code)
