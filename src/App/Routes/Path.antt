-- ===== src/App/Routes/Path.antt =====
-- What the normalisation of a joined path leaves alone.
use mathlib.Core.List.{reverse, reverse-append, reverse-reverse}
use fastapi_turbo.Prelude.{
  ℕ, false, ◌≡◌, refl, sym, ap, ◌∙◌, List, [], ◌∷◌, ◌++◌, append-nil, ◌==◌, if◌then◌else◌,
}
use fastapi_turbo.App.Routes.{normalised, lstrip_slash, strip_slash, ends_in_slash}

ends_in_slash-append : (d : ℕ) (s : List ℕ) → ends_in_slash (s ++ d ∷ []) ≡ (d == 47)
ends_in_slash-append d [] = refl
ends_in_slash-append d (a ∷ []) = refl
ends_in_slash-append d (a ∷ b ∷ s) = ends_in_slash-append d (b ∷ s)

lstrip_slash-cons : (c : ℕ) (s : List ℕ) → (c == 47) ≡ false → lstrip_slash (c ∷ s) ≡ c ∷ s
lstrip_slash-cons c s n = rw n refl

strip_slash-inner :
    (c d : ℕ) (mid : List ℕ)
    → (c == 47) ≡ false
    → (d == 47) ≡ false
    → strip_slash (47 ∷ c ∷ mid ++ d ∷ []) ≡ c ∷ mid ++ d ∷ []
strip_slash-inner c d mid n o =
    let whole = (c ∷ mid) ++ d ∷ [] in
    let turned : reverse whole ≡ d ∷ reverse (c ∷ mid) = reverse-append (c ∷ mid) (d ∷ []) in
    ap (λ s. reverse (lstrip_slash (reverse s))) (lstrip_slash-cons c (mid ++ d ∷ []) n)
    ∙ ap (λ s. reverse (lstrip_slash s)) turned
    ∙ ap reverse (lstrip_slash-cons d (reverse (c ∷ mid)) o)
    ∙ ap reverse (sym turned)
    ∙ reverse-reverse whole

-- A joined path that begins with one slash and does not end in one is left as it is, whatever slashes stand
-- one behind the other inside it: only the two ends are normalised.
pub normalised-inner :
    (c d : ℕ) (mid : List ℕ)
    → (c == 47) ≡ false
    → (d == 47) ≡ false
    → normalised (47 ∷ c ∷ mid ++ d ∷ []) ≡ 47 ∷ c ∷ mid ++ d ∷ []
unfolding normalised
normalised-inner c d mid n o =
    ap (λ s. 47 ∷ s ++ (if ends_in_slash (47 ∷ c ∷ mid ++ d ∷ []) then 47 ∷ [] else []))
      (strip_slash-inner c d mid n o)
    ∙ ap (λ b. 47 ∷ (c ∷ mid ++ d ∷ []) ++ (if b then 47 ∷ [] else []))
        (ends_in_slash-append d (47 ∷ c ∷ mid) ∙ o)
    ∙ simp append-nil
