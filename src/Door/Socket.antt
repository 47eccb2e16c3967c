-- ===== src/Door/Socket.antt =====
-- The in-process WebSocket door of python/fastapi_turbo/applications.py: the patterns of
-- `_ws_door_table`, how a path is matched against them, and which route `_asgi_ws_door` takes. Text is a
-- list of code points. A route's path is given as the pieces that the table's regular expression cuts
-- it into; the cache of the table is not modelled.
pub mod Fills
pub mod Choice
mod Tests
use fastapi_turbo.Prelude.{
  ℕ, Bool, true, false, not, List, [], ◌∷◌, ◌++◌, Option, none, some, ◌==◌, if◌then◌else◌,
}

-- A literal, or a parameter: `{name}`, or `{name:path}`, which may contain slashes. A parameter is
-- told by its position.
pub data Piece : Type 0 where
  literal : List ℕ → Piece
  segment path : Piece

-- `[^/]` and `.`, which does not match a line feed.
abbrev pub fits_segment : ℕ → Bool
fits_segment c = not (c == 47)

abbrev pub fits_path : ℕ → Bool
fits_path c = not (c == 10)

-- The values of the parameters, in order.
abbrev pub Values : Type 0
Values = List (List ℕ)

abbrev pub first_of : Option (List ℕ × Values) → Option (List ℕ × Values) → Option (List ℕ × Values)
first_of none o = o
first_of (some r) o = some r

abbrev pub longer : ℕ → Option (List ℕ × Values) → Option (List ℕ × Values)
longer c none = none
longer c (some (v, vs)) = some (c ∷ v, vs)

abbrev pub stop : ℕ → Option Values → Option (List ℕ × Values)
stop c none = none
stop c (some vs) = some (c ∷ [], vs)

-- A group `[...]+` before the rest of the pattern: the longest run for which the rest matches.
unfoldable pub match_group :
    (ℕ → Bool) → (List ℕ → Option Values) → List ℕ → Option (List ℕ × Values)
match_group fits rest [] = none
match_group fits rest (c ∷ s) =
    let found = first_of (longer c (match_group fits rest s)) (stop c (rest s)) in
    if fits c then found else none

abbrev pub values_of : Option (List ℕ × Values) → Option Values
values_of none = none
values_of (some (v, vs)) = some (v ∷ vs)

unfoldable pub match_literal : List ℕ → (List ℕ → Option Values) → List ℕ → Option Values
match_literal [] rest s = rest s
match_literal (a ∷ l) rest [] = none
match_literal (a ∷ l) rest (b ∷ s) =
    let found = match_literal l rest s in if a == b then found else none

-- `$`, which matches before a last line feed too.
abbrev pub match_end : List ℕ → Option Values
match_end [] = some []
match_end (c ∷ []) = if c == 10 then some [] else none
match_end (c ∷ d ∷ s) = none

-- `regex.match`, on the pattern that is made of the pieces.
unfoldable pub match_pieces : List Piece → List ℕ → Option Values
match_pieces [] s = match_end s
match_pieces (literal l ∷ ps) s = match_literal l (match_pieces ps) s
match_pieces (segment ∷ ps) s = values_of (match_group fits_segment (match_pieces ps) s)
match_pieces (path ∷ ps) s = values_of (match_group fits_path (match_pieces ps) s)

-- A row of the table: its pattern and its endpoint.
pub record Row : Type 0 where
  pub pieces : List Piece
  pub endpoint : ℕ

-- The endpoint is run with these parameters; or no route matches, and the socket is closed with 1000.
pub data Taken : Type 0 where
  runs : ℕ → Values → Taken
  closes_1000 : Taken

abbrev pub take_row : ℕ → Option Values → Taken → Taken
take_row endpoint none rest = rest
take_row endpoint (some vs) rest = runs endpoint vs

-- The choice of the route in `_asgi_ws_door`.
unfoldable pub asgi_ws_door : List Row → List ℕ → Taken
asgi_ws_door [] s = closes_1000
asgi_ws_door (r ∷ rs) s = take_row r.endpoint (match_pieces r.pieces s) (asgi_ws_door rs s)
