-- ===== src/Prelude/Text.antt =====
-- Text as lists of code points: Python's `==`, `str.startswith` and `str.rstrip("/")`.
use Prim.Native.Nat.{ℕ}
use mathlib.Core.Path.{◌≡◌, refl}
use mathlib.Core.Bool.{Bool, true, false, ◌&&◌}
use mathlib.Core.List.{List, [], ◌∷◌, ◌++◌}
use native.Mathlib.Omega.{arith}
use fastapi_turbo.Prelude.Tests.{◌==◌, ==_iff, if◌then◌else◌}
use fastapi_turbo.Prelude.Lists.{length, drop}

unfoldable pub same : List ℕ → List ℕ → Bool
same [] [] = true
same (a ∷ s) (b ∷ t) = a == b && same s t
same [] (b ∷ t) = false
same (a ∷ s) [] = false

pub same-eq : (s t : List ℕ) → same s t ≡ true → s ≡ t
unfolding same
same-eq [] [] e = refl
same-eq (a ∷ s) (b ∷ t) e = ground (arith, ==_iff a b, same-eq s t)
same-eq [] (b ∷ t) e = ground arith
same-eq (a ∷ s) [] e = ground arith

pub same_refl : (s : List ℕ) → same s s ≡ true
unfolding same
same_refl [] = refl
same_refl (a ∷ s) = ground (arith, ==_iff a a, same_refl s)

unfoldable pub startswith : List ℕ → List ℕ → Bool
startswith s [] = true
startswith [] (b ∷ t) = false
startswith (a ∷ s) (b ∷ t) = a == b && startswith s t

pub startswith-split : (s t : List ℕ) → startswith s t ≡ true → s ≡ t ++ drop (length t) s
unfolding startswith
startswith-split s [] e = refl
startswith-split [] (b ∷ t) e = ground arith
startswith-split (a ∷ s) (b ∷ t) e = ground (arith, ==_iff a b, startswith-split s t)

pub startswith-append : (s t : List ℕ) → startswith (s ++ t) s ≡ true
unfolding startswith
startswith-append [] t = refl
startswith-append (a ∷ s) t = ground (arith, ==_iff a a, startswith-append s t)

-- A code point before what is left: dropped when it is `/` and nothing is left.
abbrev pub keep : ℕ → List ℕ → List ℕ
keep a [] = if a == 47 then [] else a ∷ []
keep a (b ∷ s) = a ∷ b ∷ s

unfoldable pub rstrip_slash : List ℕ → List ℕ
rstrip_slash [] = []
rstrip_slash (a ∷ s) = keep a (rstrip_slash s)
