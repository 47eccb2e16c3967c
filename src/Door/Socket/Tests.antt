-- ===== src/Door/Socket/Tests.antt =====
-- The routes `/a` and `/{x}/{y:path}`, and the path `/b/c/d`.
use mathlib.Core.Bool.{false≢true}
use fastapi_turbo.Prelude.{ℕ, ◌≡◌, refl, sym, ap, ◌∙◌, false, true, List, [], ◌∷◌, ◌++◌, none}
use fastapi_turbo.Door.Socket.{
  literal, segment, path, Values, match_pieces, match_group, match_literal, Row, runs, asgi_ws_door,
}
use fastapi_turbo.Door.Socket.Fills.{
  Fills, at_end, fill_literal, fill_segment, fill_path, is_found, match_pieces-found,
}
use fastapi_turbo.Door.Socket.Choice.{Unfilled, asgi_ws_door-first}

abbrev plain : Row
plain = record { pieces = literal (47 ∷ 97 ∷ []) ∷ []; endpoint = 1 }

abbrev nested : Row
nested = record {
  pieces = literal (47 ∷ []) ∷ segment ∷ literal (47 ∷ []) ∷ path ∷ [];
  endpoint = 2;
}

abbrev below : List ℕ
below = 47 ∷ 98 ∷ 47 ∷ 99 ∷ 47 ∷ 100 ∷ []

found : asgi_ws_door (plain ∷ nested ∷ []) below ≡ runs 2 ((98 ∷ []) ∷ (99 ∷ 47 ∷ 100 ∷ []) ∷ [])
unfolding asgi_ws_door match_pieces match_group match_literal
found = refl

not_plain : match_pieces plain.pieces below ≡ none
unfolding match_pieces match_literal
not_plain = refl

unfilled : Unfilled below plain
unfilled vs f = no_match (ap is_found not_plain) (match_pieces-found plain.pieces vs below f)
  where
    no_match :
        is_found (match_pieces plain.pieces below) ≡ false
        → is_found (match_pieces plain.pieces below) ≡ true
        → ⊥
    no_match n y = false≢true (sym n ∙ y)

filled : Fills nested.pieces ((98 ∷ []) ∷ (99 ∷ 47 ∷ 100 ∷ []) ∷ []) below
filled = fill_literal (47 ∷ []) (
    fill_segment (98 ∷ []) refl
      (fill_literal (47 ∷ []) (fill_path (99 ∷ 47 ∷ 100 ∷ []) (refl, (refl, refl)) at_end)))

door_first_example :
    (vs : Values) × (asgi_ws_door ((plain ∷ []) ++ nested ∷ []) below ≡ runs 2 vs)
    × Fills nested.pieces vs below
door_first_example =
    asgi_ws_door-first (plain ∷ []) [] nested ((98 ∷ []) ∷ (99 ∷ 47 ∷ 100 ∷ []) ∷ []) below
      (unfilled, tt) filled
