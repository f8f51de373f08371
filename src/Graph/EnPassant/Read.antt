-- ===== src/Graph/EnPassant/Read.antt =====
-- `_read_state` and `_read_move` of graph/en_passant.py, with the checked values read.
use openchess.Base.{
  Bool, Option, Text, [], codes, false, if◌then◌else◌, leb, none, some, text_eq, ℕ, ◌&&◌, ◌+◌, ◌==◌,
  ◌∷◌,
}
use openchess.Chess.Castling.{has}
use openchess.Base.Maybe.{guard, ◌>>=◌, ◌>>◌}
use openchess.Python.Values.{Value, text, dict, Entries, end, entry, get, as_text, text_matching}
use openchess.Jobs.Queue.Check.{keys_are}
use openchess.Chess.Castling.Apply.{Board}
use openchess.Chess.Castling.Check.{read_side, as_entries}
use openchess.Graph.EnPassant.{State, Ply, MoveType, pawn_advance, ep_capture, quiet}

-- `square in _SQUARES`
unfoldable pub square_ok : Text → Bool
square_ok (f ∷ (r ∷ [])) = (leb b'a' f && leb f b'h') && (leb b'1' r && leb r b'8')
square_ok _ = false

-- `token in _PIECES`
unfoldable pub piece_ok : Text → Bool
piece_ok (side ∷ (kind ∷ [])) = has side (codes "wb") && has kind (codes "pnbrqk")
piece_ok _ = false

unfoldable pub read_occupied : Entries → Option Board
read_occupied end = some []
read_occupied (entry (text square) (text token) d) = do
  guard (square_ok square)
  guard (piece_ok token)
  rest ← read_occupied d
  some ((square, token) ∷ rest)
read_occupied _ = none

-- `sum(1 for token in occ.values() if token == king)`
unfoldable pub count_token : Text → Board → ℕ
count_token king [] = 0
count_token king ((sq, tok) ∷ occ) =
    let rest = count_token king occ in if text_eq tok king then rest + 1 else rest

-- `_read_state`
unfoldable pub read_position : Value → Option State
read_position (dict i d) = do
  keys_are d (codes "ep_target" ∷ (codes "occupied" ∷ (codes "side_to_move" ∷ [])))
  target ← get (codes "ep_target") d >>= as_text
  side ← get (codes "side_to_move") d >>= read_side
  entries ← get (codes "occupied") d >>= as_entries
  occ ← read_occupied entries
  guard (count_token (codes "wk") occ == 1)
  guard (count_token (codes "bk") occ == 1)
  some (record { ep_target = target; occupied = occ; side_to_move = side })
read_position _ = none

abbrev pub move_type_of : Text → Option MoveType
move_type_of t =
    if text_eq t (codes "pawn-advance")
    then some pawn_advance
    else if text_eq t (codes "ep-capture")
    then some ep_capture
    else if text_eq t (codes "quiet")
    then some quiet
    else none

abbrev pub type_read : Value → Option MoveType
type_read (text t) = move_type_of t
type_read _ = none

-- `_read_move`
unfoldable pub read_ply : Value → Option Ply
read_ply (dict i d) = do
  keys_are d (codes "type" ∷ (codes "from" ∷ (codes "to" ∷ [])))
  kind ← get (codes "type") d >>= type_read
  from ← get (codes "from") d >>= text_matching square_ok
  to ← get (codes "to") d >>= text_matching square_ok
  some (record { kind = kind; from = from; to = to })
read_ply _ = none
