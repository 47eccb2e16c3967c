-- ===== src/Prelude/Decimal.antt =====
-- Python's `int(...)` on ASCII text and `"%d"` on a natural number, over character codes. The
-- interpreter's limit on the number of digits is taken to be off.
use Prim.Native.Nat.{ℕ, zero, suc, ◌+◌, ◌-◌, ◌*◌, ◌/◌, ◌%◌, ◌<◌}
use mathlib.Core.Path.{◌≡◌, refl, ap}
use mathlib.Core.Bool.{Bool, true, false, not, ◌&&◌, ◌||◌}
use mathlib.Core.Option
use mathlib.Core.Option.{Option, none, some}
use mathlib.Core.Logic.{inl, inr}
use mathlib.Core.List.{List, [], ◌∷◌, ◌++◌, reverse, reverse_aux, reverse-reverse}
use native.Mathlib.Omega.{arith}
use fastapi_turbo.Prelude.Tests.{ltb, leb, ◌==◌, if◌then◌else◌, Bool-cases}
use fastapi_turbo.Prelude.Lists.{All, All-append}
use fastapi_turbo.Prelude.Int.{ℤ, pos, negsuc, neg}

abbrev pub is_digit : ℕ → Bool
is_digit c = leb b'0' c && leb c b'9'

abbrev pub is_space : ℕ → Bool
is_space c = c == 32 || (leb 9 c && leb c 13)

-- One or more digits, with single underscores between them; `open` says that a digit must follow.
abbrev pub digits_from : Bool → ℕ → List ℕ → Option ℕ
digits_from gap acc [] = if gap then none else some acc
digits_from gap acc (c ∷ s) =
    let more = digits_from false (acc * 10 + (c - 48)) s in
    let skip = digits_from true acc s in
    if is_digit c then more else if c == b'_' && not gap then skip else none

abbrev pub signed : List ℕ → Option ℤ
signed [] = none
signed (c ∷ s) =
    if c == b'-'
    then Option.map (λ n. neg (pos n)) (digits_from true 0 s)
    else if c == b'+'
    then Option.map pos (digits_from true 0 s)
    else Option.map pos (digits_from true 0 (c ∷ s))

abbrev pub lstrip : List ℕ → List ℕ
lstrip [] = []
lstrip (c ∷ s) = let rest = lstrip s in if is_space c then rest else c ∷ s

abbrev pub strip : List ℕ → List ℕ
strip s = reverse (lstrip (reverse (lstrip s)))

unfoldable pub int_of : List ℕ → Option ℤ
int_of s = signed (strip s)

show_fuel : ℕ → ℕ → List ℕ
show_fuel zero n = []
show_fuel (suc f) n =
    let more = show_fuel f (n / 10) ++ (48 + n % 10) ∷ [] in
    if ltb n 10 then (48 + n) ∷ [] else more

-- `"%d" % n` for a natural number.
unfoldable pub show : ℕ → List ℕ
unfolding show_fuel
show n = show_fuel (suc n) n

abbrev pub IsDigit : ℕ → Type 0
IsDigit c = is_digit c ≡ true

All-reverse_aux :
    (P : ℕ → Type 0) (xs ys : List ℕ) → All P xs → All P ys → All P (reverse_aux xs ys)
All-reverse_aux P [] ys h k = k
All-reverse_aux P (x ∷ xs) ys h k = All-reverse_aux P xs (x ∷ ys) h.1 (h.0, k)

abbrev pub NotSpace : ℕ → Type 0
NotSpace c = is_space c ≡ false

lstrip_lem : (s : List ℕ) → All NotSpace s → lstrip s ≡ s
lstrip_lem [] h = refl
lstrip_lem (c ∷ s) h = rw h.0

NotSpace-digits : (s : List ℕ) → All IsDigit s → All NotSpace s
NotSpace-digits [] h = tt
NotSpace-digits (c ∷ s) h = let d : is_digit c ≡ true = h.0 in (ground arith, NotSpace-digits s h.1)

strip_lem : (s : List ℕ) → All NotSpace s → strip s ≡ s
strip_lem s h =
    rw (lstrip_lem s h, lstrip_lem (reverse s) (All-reverse_aux NotSpace s [] h tt))
      (reverse-reverse s)

-- One digit more at the end.
digits_from-snoc :
    (gap : Bool) (acc d n : ℕ) (s : List ℕ)
    → d < 10
    → digits_from gap acc s ≡ some n
    → digits_from gap acc (s ++ (48 + d) ∷ []) ≡ some (n * 10 + d)
digits_from-snoc gap acc d n [] h e = ground arith
digits_from-snoc gap acc d n (c ∷ s) h e =
    ground (
      arith,
      digits_from-snoc false (acc * 10 + (c - 48)) d n s h,
      digits_from-snoc true acc d n s h,
    )

digits_from-show_fuel : (f n : ℕ) → n < f → digits_from true 0 (show_fuel f n) ≡ some n
unfolding show_fuel
digits_from-show_fuel zero n h = elim h [ ]
digits_from-show_fuel (suc f) n h = elim (Bool-cases (ltb n 10)) [
  | inl small ↦ rw small (ground arith)
  | inr large ↦ rw large (
      rw
        (digits_from-snoc true 0 (n % 10) (n / 10) (show_fuel f (n / 10)) (omega arith)
          (digits_from-show_fuel f (n / 10) (ground arith)))
        (ap some (omega arith)))
]

IsDigit-show_fuel : (f n : ℕ) → All IsDigit (show_fuel f n)
unfolding show_fuel
IsDigit-show_fuel zero n = tt
IsDigit-show_fuel (suc f) n = elim (Bool-cases (ltb n 10)) [
  | inl small ↦ rw small (ground arith, tt)
  | inr large ↦ rw large (
      All-append IsDigit (show_fuel f (n / 10)) _ (IsDigit-show_fuel f (n / 10)) (ground arith, tt))
]

-- What is printed has decimal digits only.
pub show-IsDigit : (n : ℕ) → All IsDigit (show n)
unfolding show
show-IsDigit n = IsDigit-show_fuel (suc n) n

signed_digits :
    (s : List ℕ) (n : ℕ) → All IsDigit s → digits_from true 0 s ≡ some n → signed s ≡ some (pos n)
signed_digits [] n h e = cc
signed_digits (c ∷ s) n h e = let d : is_digit c ≡ true = h.0 in ground arith

-- Reading what was printed gives the number back.
pub int_of-show : (n : ℕ) → int_of (show n) ≡ some (pos n)
unfolding int_of show
int_of-show n = rw (strip_lem _ (NotSpace-digits _ (IsDigit-show_fuel (suc n) n))) (
    signed_digits _ n (IsDigit-show_fuel (suc n) n) (digits_from-show_fuel (suc n) n (omega arith)))

-- Reading a printed number behind a minus sign gives its negative.
pub int_of-minus_show : (n : ℕ) → int_of (b'-' ∷ show n) ≡ some (neg (pos n))
unfolding int_of show
int_of-minus_show n =
    rw (strip_lem (b'-' ∷ show n) (ground arith, NotSpace-digits _ (IsDigit-show_fuel (suc n) n)))
      (rw (digits_from-show_fuel (suc n) n (omega arith)))

int_of-show_example : int_of (show 1042) ≡ some (pos 1042)
unfolding int_of show
int_of-show_example = refl

int_of_signed : int_of (32 ∷ b'-' ∷ b'1' ∷ b'_' ∷ b'0' ∷ 10 ∷ []) ≡ some (negsuc 9)
unfolding int_of
int_of_signed = refl
