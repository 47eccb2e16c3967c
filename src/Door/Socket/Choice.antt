-- ===== src/Door/Socket/Choice.antt =====
-- A match is a filling, and the door takes the first route that the path fills.
use mathlib.Core.Bool.{false≢true}
use mathlib.Core.Path.{subst}
use fastapi_turbo.Prelude.{
  ℕ, ◌≡◌, ◌≢◌, refl, sym, ap, ◌∙◌, Bool, true, false, ◌⊎◌, inl, inr, Option-cases, List, [], ◌∷◌,
  ◌++◌, Option, none, some, ◌==◌, ==_iff, if◌then◌else◌, All,
}
use fastapi_turbo.Door.Socket.{
  Piece, literal, segment, path, fits_segment, fits_path, Values, first_of, longer, stop,
  match_group, values_of, match_literal, match_end, match_pieces, Row, runs, closes_1000, take_row,
  asgi_ws_door,
}
use fastapi_turbo.Door.Socket.Fills.{
  Value, Fills, at_end, line_feed, fill_literal, fill_segment, fill_path, is_found,
  match_pieces-found,
}

some_inj : {A : Type 0} (a b : A) → some a ≡ some b → a ≡ b
some_inj a b q = cc

none≢some : {A : Type 0} (a : A) → none ≢ some a
none≢some a q = cc

-- What a step of a group found: a longer run, or one that stops here.
Stepped : ℕ → Option (List ℕ × Values) → Option Values → List ℕ → Values → Type 0
Stepped c g r v vs =
    ((w : List ℕ) × (g ≡ some (w, vs)) × (v ≡ c ∷ w)) ⊎ ((v ≡ c ∷ []) × (r ≡ some vs))

group_step :
    (c : ℕ) (g : Option (List ℕ × Values)) (r : Option Values) (v : List ℕ) (vs : Values)
    → first_of (longer c g) (stop c r) ≡ some (v, vs)
    → Stepped c g r v vs
unfolding Stepped
group_step c (some (w, us)) r v vs q =
    let e = some_inj (c ∷ w, us) (v, vs) q in
    inl
      (w, ap (λ (p : List ℕ × Values). some (w, p.1)) e, sym (ap (λ (p : List ℕ × Values). p.0) e))
group_step c none (some us) v vs q =
    let e = some_inj (c ∷ [], us) (v, vs) q in
    inr (sym (ap (λ (p : List ℕ × Values). p.0) e), ap (λ (p : List ℕ × Values). some p.1) e)
group_step c none none v vs q = absurd (none≢some (v, vs) q)

if-some :
    (b : Bool) (o : Option (List ℕ × Values)) (p : List ℕ × Values)
    → (if b then o else none) ≡ some p
    → (b ≡ true) × (o ≡ some p)
if-some true o p q = (refl, q)
if-some false o p q = absurd (none≢some p q)

-- A group has matched this value, and the rest of the pattern what is left.
abbrev Grouped : (ℕ → Bool) → (List ℕ → Option Values) → List ℕ → List ℕ → Values → Type 0
Grouped fits rest s v vs = Value fits v × ((t : List ℕ) × (s ≡ v ++ t) × (rest t ≡ some vs))

longer-Value :
    (fits : ℕ → Bool) (c : ℕ) (w : List ℕ) → fits c ≡ true → Value fits w → Value fits (c ∷ w)
longer-Value fits c [] f h = f
longer-Value fits c (d ∷ w) f h = (f, h)

match_group-Grouped :
    (fits : ℕ → Bool) (rest : List ℕ → Option Values) (s v : List ℕ) (vs : Values)
    → match_group fits rest s ≡ some (v, vs)
    → Grouped fits rest s v vs
unfolding match_group Stepped
match_group-Grouped fits rest [] v vs q = absurd (none≢some (v, vs) q)
match_group-Grouped fits rest (c ∷ s) v vs q =
    let found = first_of (longer c (match_group fits rest s)) (stop c (rest s)) in
    let f = if-some (fits c) found (v, vs) q in
    let again = match_group-Grouped fits rest s in
    elim (group_step c (match_group fits rest s) (rest s) v vs f.1) [
      | inl (w, g, e) ↦
          let h = again w vs g in
          (
            subst (Value fits) (sym e) (longer-Value fits c w f.0 h.0),
            (h.1.0, ap (λ r. c ∷ r) h.1.1 ∙ ap (λ r. r ++ h.1.0) (sym e), h.1.2),
          )
      | inr (e, r) ↦ (subst (Value fits) (sym e) f.0, (s, ap (λ r. r ++ s) (sym e), r))
    ]

values_of-some :
    (o : Option (List ℕ × Values)) (vs : Values)
    → values_of o ≡ some vs
    → (v : List ℕ) × (us : Values) × (o ≡ some (v, us)) × (v ∷ us ≡ vs)
values_of-some none vs q = absurd (none≢some vs q)
values_of-some (some (v, us)) vs q = (v, us, refl, some_inj (v ∷ us) vs q)

literal_step :
    (b : Bool) (o : Option Values) (vs : Values)
    → (if b then o else none) ≡ some vs
    → (b ≡ true) × (o ≡ some vs)
literal_step true o vs q = (refl, q)
literal_step false o vs q = absurd (none≢some vs q)

match_literal-split :
    (l : List ℕ) (rest : List ℕ → Option Values) (s : List ℕ) (vs : Values)
    → match_literal l rest s ≡ some vs
    → (t : List ℕ) × (s ≡ l ++ t) × (rest t ≡ some vs)
unfolding match_literal
match_literal-split [] rest s vs q = (s, refl, q)
match_literal-split (a ∷ l) rest [] vs q = absurd (none≢some vs q)
match_literal-split (a ∷ l) rest (b ∷ s) vs q =
    let f = literal_step (a == b) (match_literal l rest s) vs q in
    let h = match_literal-split l rest s vs f.1 in
    (h.0, ap (λ c. c ∷ s) (sym ((==_iff a b).0 f.0)) ∙ ap (λ r. a ∷ r) h.1, h.2)

match_end-Fills : (s : List ℕ) (vs : Values) → match_end s ≡ some vs → Fills [] vs s
match_end-Fills [] vs q = subst (λ us. Fills [] us []) (some_inj [] vs q) at_end
match_end-Fills (c ∷ []) vs q =
    let f = literal_step (c == 10) (some []) vs q in
    subst (λ d. Fills [] vs (d ∷ [])) (sym ((==_iff c 10).0 f.0))
      (subst (λ us. Fills [] us (10 ∷ [])) (some_inj [] vs f.1) line_feed)
match_end-Fills (c ∷ d ∷ s) vs q = absurd (none≢some vs q)

pub match_pieces-Fills :
    (ps : List Piece) (vs : Values) (s : List ℕ) → match_pieces ps s ≡ some vs → Fills ps vs s
unfolding match_pieces
match_pieces-Fills [] vs s q = match_end-Fills s vs q
match_pieces-Fills (literal l ∷ ps) vs s q =
    let h = match_literal-split l (match_pieces ps) s vs q in
    subst (Fills (literal l ∷ ps) vs) (sym h.1) (fill_literal l (match_pieces-Fills ps vs h.0 h.2))
match_pieces-Fills (segment ∷ ps) vs s q =
    let o = values_of-some (match_group fits_segment (match_pieces ps) s) vs q in
    let g = match_group-Grouped fits_segment (match_pieces ps) s o.0 o.1 o.2 in
    subst (λ us. Fills (segment ∷ ps) us s) o.3
      (subst (Fills (segment ∷ ps) (o.0 ∷ o.1)) (sym g.1.1)
        (fill_segment o.0 g.0 (match_pieces-Fills ps o.1 g.1.0 g.1.2)))
match_pieces-Fills (path ∷ ps) vs s q =
    let o = values_of-some (match_group fits_path (match_pieces ps) s) vs q in
    let g = match_group-Grouped fits_path (match_pieces ps) s o.0 o.1 o.2 in
    subst (λ us. Fills (path ∷ ps) us s) o.3
      (subst (Fills (path ∷ ps) (o.0 ∷ o.1)) (sym g.1.1)
        (fill_path o.0 g.0 (match_pieces-Fills ps o.1 g.1.0 g.1.2)))

-- No values fill the pattern of the row.
abbrev pub Unfilled : List ℕ → Row → Type 0
Unfilled s r = (vs : Values) → ¬ Fills r.pieces vs s

Unfilled-none : (s : List ℕ) (r : Row) → Unfilled s r → match_pieces r.pieces s ≡ none
Unfilled-none s r h = elim (Option-cases (match_pieces r.pieces s)) [
  | inl q ↦ q
  | inr (vs, q) ↦ absurd (h vs (match_pieces-Fills r.pieces vs s q))
]

asgi_ws_door-passes :
    (before after : List Row) (s : List ℕ)
    → All (Unfilled s) before
    → asgi_ws_door (before ++ after) s ≡ asgi_ws_door after s
unfolding asgi_ws_door
asgi_ws_door-passes [] after s h = refl
asgi_ws_door-passes (r ∷ before) after s h =
    ap (λ o. take_row r.endpoint o (asgi_ws_door (before ++ after) s)) (Unfilled-none s r h.0)
    ∙ asgi_ws_door-passes before after s h.1

is_found-some : (o : Option Values) → is_found o ≡ true → (vs : Values) × (o ≡ some vs)
is_found-some none q = absurd (false≢true q)
is_found-some (some vs) q = (vs, refl)

-- If no values of the parameters fill the pattern of an earlier route to the path, and some fill that of
-- this one, then this route's endpoint is run, whatever routes come after it, with values that fill its
-- pattern to the path; a last line feed of the path is not looked at.
pub asgi_ws_door-first :
    (before after : List Row) (r : Row) (us : Values) (s : List ℕ)
    → All (Unfilled s) before
    → Fills r.pieces us s
    → (vs : Values) × (asgi_ws_door (before ++ r ∷ after) s ≡ runs r.endpoint vs)
      × Fills r.pieces vs s
unfolding asgi_ws_door
asgi_ws_door-first before after r us s h f =
    let m = is_found-some (match_pieces r.pieces s) (match_pieces-found r.pieces us s f) in
    (
      m.0,
      asgi_ws_door-passes before (r ∷ after) s h
          ∙ ap (λ o. take_row r.endpoint o (asgi_ws_door after s)) m.1,
      match_pieces-Fills r.pieces m.0 s m.1,
    )

-- If no values fill the pattern of any route, the socket is closed with 1000.
pub asgi_ws_door-closes :
    (rs : List Row) (s : List ℕ) → All (Unfilled s) rs → asgi_ws_door rs s ≡ closes_1000
unfolding asgi_ws_door
asgi_ws_door-closes [] s h = refl
asgi_ws_door-closes (r ∷ rs) s h =
    ap (λ o. take_row r.endpoint o (asgi_ws_door rs s)) (Unfilled-none s r h.0)
    ∙ asgi_ws_door-closes rs s h.1
