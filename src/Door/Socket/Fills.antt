-- ===== src/Door/Socket/Fills.antt =====
-- Matching against what it is to fill a pattern.
use mathlib.Core.Bool.{false≢true}
use fastapi_turbo.Prelude.{
  ℕ, ◌≡◌, refl, ap, ◌∙◌, Bool, true, false, List, [], ◌∷◌, ◌++◌, Option, none, some, ==_iff,
  if◌then◌else◌,
}
use fastapi_turbo.Door.Socket.{
  Piece, literal, segment, path, fits_segment, fits_path, Values, first_of, longer, stop,
  match_group, values_of, match_literal, match_pieces,
}

-- A value of a parameter: not empty, and of code points that the parameter allows.
abbrev pub Value : (ℕ → Bool) → List ℕ → Type 0
Value fits [] = ⊥
Value fits (c ∷ []) = fits c ≡ true
Value fits (c ∷ d ∷ v) = (fits c ≡ true) × Value fits (d ∷ v)

-- The text is the pattern with these values in place of the parameters, up to a last line feed.
pub data Fills : List Piece → Values → List ℕ → Type 0 where
  at_end : Fills [] [] []
  line_feed : Fills [] [] (10 ∷ [])
  fill_literal :
      {ps : List Piece} {vs : Values} {s : List ℕ} (l : List ℕ)
      → Fills ps vs s
      → Fills (literal l ∷ ps) vs (l ++ s)
  fill_segment :
      {ps : List Piece} {vs : Values} {s : List ℕ} (v : List ℕ)
      → Value fits_segment v
      → Fills ps vs s
      → Fills (segment ∷ ps) (v ∷ vs) (v ++ s)
  fill_path :
      {ps : List Piece} {vs : Values} {s : List ℕ} (v : List ℕ)
      → Value fits_path v
      → Fills ps vs s
      → Fills (path ∷ ps) (v ∷ vs) (v ++ s)

abbrev pub is_found {ℓ} : {A : Type ℓ} → Option A → Bool
is_found none = false
is_found (some a) = true

-- Completeness: what fills a pattern is found to match it.
first_of-found :
    (a b : Option (List ℕ × Values)) → is_found b ≡ true → is_found (first_of a b) ≡ true
first_of-found none b q = q
first_of-found (some r) b q = refl

longer-found :
    (c : ℕ) (a b : Option (List ℕ × Values))
    → is_found a ≡ true
    → is_found (first_of (longer c a) b) ≡ true
longer-found c (some r) b q = refl
longer-found c none b q = absurd (false≢true q)

stop-found : (c : ℕ) (o : Option Values) → is_found o ≡ true → is_found (stop c o) ≡ true
stop-found c none q = q
stop-found c (some vs) q = refl

if-found :
    (b : Bool) (o : Option (List ℕ × Values))
    → b ≡ true
    → is_found o ≡ true
    → is_found (if b then o else none) ≡ true
if-found true o q h = h
if-found false o q h = absurd (false≢true q)

match_group-found :
    (fits : ℕ → Bool) (rest : List ℕ → Option Values) (v s : List ℕ)
    → Value fits v
    → is_found (rest s) ≡ true
    → is_found (match_group fits rest (v ++ s)) ≡ true
unfolding match_group
match_group-found fits rest [] s h q = absurd h
match_group-found fits rest (c ∷ []) s h q =
    if-found (fits c) (first_of (longer c (match_group fits rest s)) (stop c (rest s))) h (
      first_of-found (longer c (match_group fits rest s)) (stop c (rest s))
        (stop-found c (rest s) q))
match_group-found fits rest (c ∷ d ∷ v) s h q =
    let more = match_group fits rest (d ∷ (v ++ s)) in
    if-found (fits c) (first_of (longer c more) (stop c (rest (d ∷ (v ++ s))))) h.0 (
      longer-found c more (stop c (rest (d ∷ (v ++ s))))
        (match_group-found fits rest (d ∷ v) s h.1 q))

values_of-found : (o : Option (List ℕ × Values)) → is_found o ≡ true → is_found (values_of o) ≡ true
values_of-found none q = q
values_of-found (some r) q = refl

match_literal-append :
    (l : List ℕ) (rest : List ℕ → Option Values) (s : List ℕ)
    → match_literal l rest (l ++ s) ≡ rest s
unfolding match_literal
match_literal-append [] rest s = refl
match_literal-append (a ∷ l) rest s =
    ap (λ b. if b then match_literal l rest (l ++ s) else none) ((==_iff a a).1 refl)
    ∙ match_literal-append l rest s

pub match_pieces-found :
    (ps : List Piece) (vs : Values) (s : List ℕ)
    → Fills ps vs s
    → is_found (match_pieces ps s) ≡ true
unfolding match_pieces
match_pieces-found _ _ _ at_end = refl
match_pieces-found _ _ _ line_feed = refl
match_pieces-found (literal l ∷ ps) vs _ (fill_literal {s = s} _ f) =
    ap is_found (match_literal-append l (match_pieces ps) s) ∙ match_pieces-found ps vs s f
match_pieces-found (segment ∷ ps) (v ∷ vs) _ (fill_segment {s = s} _ h f) =
    values_of-found (match_group fits_segment (match_pieces ps) (v ++ s))
      (match_group-found fits_segment (match_pieces ps) v s h (match_pieces-found ps vs s f))
match_pieces-found (path ∷ ps) (v ∷ vs) _ (fill_path {s = s} _ h f) =
    values_of-found (match_group fits_path (match_pieces ps) (v ++ s))
      (match_group-found fits_path (match_pieces ps) v s h (match_pieces-found ps vs s f))
