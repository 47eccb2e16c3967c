-- ===== src/Middleware/Session/Tests.antt =====
-- A session that is text, JSON that keeps it, and a digest and a base64 that are easy to compute.
use fastapi_turbo.Prelude.{
  ℕ, zero, suc, ◌%◌, ◌≡◌, refl, sym, ap, Bool, true, false, List, [], ◌∷◌, append-nil, Option, none,
  some, ◌==◌, if◌then◌else◌, length, All, arith,
}
use fastapi_turbo.Prelude.Int.{pos}
use fastapi_turbo.Middleware.Session.{◌>>=◌, initial, save}
use fastapi_turbo.Middleware.Session.RoundTrip.{Plain, IsBase64, kept, save-initial}

-- A number in unary, four characters for each one, and four that end it.
abbrev number : ℕ → List ℕ → List ℕ
number zero s = 98 ∷ 98 ∷ 98 ∷ 98 ∷ s
number (suc n) s = 97 ∷ 97 ∷ 97 ∷ 97 ∷ number n s

abbrev numbers : List ℕ → List ℕ
numbers [] = []
numbers (n ∷ s) = number n (numbers s)

abbrev one_more : Option (List ℕ) → Option (List ℕ)
one_more (some (n ∷ s)) = some (suc n ∷ s)
one_more _ = none

abbrev end_number : Option (List ℕ) → Option (List ℕ)
end_number none = none
end_number (some s) = some (0 ∷ s)

abbrev read : List ℕ → Option (List ℕ)
read (a ∷ b ∷ c ∷ d ∷ s) = let rest = read s in if a == 97 then one_more rest else end_number rest
read _ = some []

read-number : (n : ℕ) (s t : List ℕ) → read s ≡ some t → read (number n s) ≡ some (n ∷ t)
read-number zero s t e = ap end_number e
read-number (suc n) s t e = ap one_more (read-number n s t e)

read-numbers : (s : List ℕ) → read (numbers s) ≡ some s
read-numbers [] = refl
read-numbers (n ∷ s) = read-number n (numbers s) s (read-numbers s)

number-Plain : (n : ℕ) (s : List ℕ) → All Plain s → All Plain (number n s)
number-Plain zero s h =
    let plain : Plain 98 = (omega arith, refl, refl) in (plain, (plain, (plain, (plain, h))))
number-Plain (suc n) s h =
    let plain : Plain 97 = (omega arith, refl, refl) in
    (plain, (plain, (plain, (plain, number-Plain n s h))))

numbers-Plain : (s : List ℕ) → All Plain (numbers s)
numbers-Plain [] = tt
numbers-Plain (n ∷ s) = number-Plain n (numbers s) (numbers-Plain s)

length-number : (n : ℕ) (s : List ℕ) → length s % 4 ≡ 0 → length (number n s) % 4 ≡ 0
length-number zero s h = omega arith
length-number (suc n) s h = let more = length-number n s h in omega arith

length-numbers : (s : List ℕ) → length (numbers s) % 4 ≡ 0
length-numbers [] = refl
length-numbers (n ∷ s) = length-number n (numbers s) (length-numbers s)

numbers-IsBase64 : (s : List ℕ) → IsBase64 (numbers s)
numbers-IsBase64 s = record {
  digits = numbers s;
  padding = 0;
  text = sym (append-nil (numbers s));
  all_plain = numbers-Plain s;
  few = omega arith;
  in_fours = (let fours = length-numbers s in omega arith);
}

abbrev is_empty : List ℕ → Bool
is_empty [] = true
is_empty (c ∷ s) = false

abbrev digest : List ℕ → List ℕ
digest s = length s ∷ []

-- The client comes back ten seconds later, and the cookie may be an hour old.
save_example :
    (save some some numbers read digest is_empty [] 1000 [] (7 ∷ []) >>= λ set.
    some (initial some some numbers read digest is_empty [] (some (pos 3600)) 1010 (kept none set)))
    ≡ some (7 ∷ [])
save_example =
    save-initial some some numbers read digest numbers-IsBase64 read-numbers is_empty []
      (some (pos 3600)) 1000 1010 none [] (7 ∷ []) refl refl refl
