-- ===== src/Chess/Castling/Check.antt =====
-- `_validate_state` and `_validate_move` of tools/castling_runtime.py, with the checked values read,
-- and its three entry points on any two objects.
use openchess.Base.{
  Bool, false, ◌&&◌, not, Option, none, some, List, [], ◌∷◌, if◌then◌else◌, Text, codes, text_eq,
  text_in, keep_if,
}
use openchess.Base.Maybe.{◌>>=◌, ◌>>◌, guard}
use openchess.Python.Values.{Value, text, dict, Items, nil, item, Entries, end, entry, get, as_text}
use openchess.Jobs.Queue.Check.{keys_are, as_items}
use openchess.Chess.Castling.{
  Side, white, black, Right, white_short, white_long, black_short, black_long, Move, castle,
  king_move, rook_move_from, rook_capture_on, State, has,
}

-- `_VALID_SQUARES`
abbrev valid_squares : List Text
valid_squares =
    codes "a1"
    ∷ codes "b1"
    ∷ codes "c1"
    ∷ codes "d1"
    ∷ codes "e1"
    ∷ codes "f1"
    ∷ codes "g1"
    ∷ codes "h1"
    ∷ codes "a8"
    ∷ codes "b8"
    ∷ codes "c8"
    ∷ codes "d8"
    ∷ codes "e8"
    ∷ codes "f8"
    ∷ codes "g8"
    ∷ codes "h8"
    ∷ []

-- A piece token: a side and a kind.
token_ok : Text → Bool
unfolding has
token_ok (side ∷ kind ∷ []) = has side (codes "wb") && has kind (codes "kqrbnp")
token_ok _ = false

unfoldable read_occupied : Entries → Option (List (Text × Text))
unfolding token_ok
read_occupied end = some []
read_occupied (entry (text square) (text token) d) = do
  rest ← read_occupied d
  guard (text_in square valid_squares)
  guard (token_ok token)
  some ((square, token) ∷ rest)
read_occupied _ = none

unfoldable read_attacked : Items → Option (List Text)
read_attacked nil = some []
read_attacked (item (text square) vs) = do
  rest ← read_attacked vs
  guard (text_in square valid_squares)
  guard (not (text_in square rest))
  some (square ∷ rest)
read_attacked _ = none

unfoldable pub read_side : Value → Option Side
read_side (text t) =
    if text_eq t (codes "w") then some white else if text_eq t (codes "b") then some black else none
read_side _ = none

abbrev pub as_entries : Value → Option Entries
as_entries (dict i d) = some d
as_entries _ = none

-- `_validate_state`
unfoldable pub read_state : Value → Option State
unfolding read_occupied read_attacked read_side
read_state (dict i d) = do
  keys_are d (codes "rights" ∷ codes "occupied" ∷ codes "attacked" ∷ codes "side_to_move" ∷ [])
  rights ← get (codes "rights") d >>= as_text
  occ ← get (codes "occupied") d >>= as_entries
  occupied ← read_occupied occ
  att ← get (codes "attacked") d >>= as_items
  attacked ← read_attacked att
  side ← get (codes "side_to_move") d >>= read_side
  some (record { rights = rights; occupied = occupied; attacked = attacked; side_to_move = side })
read_state _ = none

unfoldable read_right : Value → Option Right
read_right (text t) =
    if text_eq t (codes "K")
    then some white_short
    else if text_eq t (codes "Q")
    then some white_long
    else if text_eq t (codes "k")
    then some black_short
    else if text_eq t (codes "q")
    then some black_long
    else none
read_right _ = none

-- A square of the loss tables.
unfoldable read_corner : Value → Option Text
read_corner (text t) =
    keep_if (text_in t (codes "h1" ∷ codes "a1" ∷ codes "h8" ∷ codes "a8" ∷ [])) (some t)
read_corner _ = none

unfoldable read_event : Text → Entries → Option Move
unfolding read_right read_side read_corner
read_event kind d =
    if text_eq kind (codes "castle")
    then (do
      keys_are d (codes "type" ∷ codes "right" ∷ [])
      right ← get (codes "right") d >>= read_right
      some (castle right))
    else if text_eq kind (codes "king_move")
    then (do
      keys_are d (codes "type" ∷ codes "side" ∷ [])
      side ← get (codes "side") d >>= read_side
      some (king_move side))
    else if text_eq kind (codes "rook_move_from")
    then (do
      keys_are d (codes "type" ∷ codes "square" ∷ [])
      square ← get (codes "square") d >>= read_corner
      some (rook_move_from square))
    else if text_eq kind (codes "rook_capture_on")
    then (do
      keys_are d (codes "type" ∷ codes "square" ∷ [])
      square ← get (codes "square") d >>= read_corner
      some (rook_capture_on square))
    else none

-- `_validate_move`
unfoldable pub read_move : Value → Option Move
unfolding read_event
read_move (dict i d) = do kind ← get (codes "type") d >>= as_text; read_event kind d
read_move _ = none
