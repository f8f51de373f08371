-- ===== src/Graph/Fen/Rules.antt =====
-- The position rules of `parse_fen` of graph/fen.py, and the whole of it. The homes are those of
-- data/contracts/castling.yaml and the ranks of an advance those of data/contracts/en_passant.yaml.
use openchess.Base.{
  Bool, Option, Result, Text, [], codes, false, if◌then◌else◌, leb, length, none, not, ok, or_else,
  require, some, text_eq, true, ℕ, ◌&&◌, ◌+◌, ◌-◌, ◌==◌, ◌>>=◌, ◌>>◌, ◌||◌, ◌∷◌,
}
use openchess.Python.Values.{Value, as_text}
use openchess.Graph.Fen.{Failure, impossible_position, malformed_fen, Board, Position, get}
use openchess.Graph.Fen.Attack.{attack, Square}
use openchess.Graph.Fen.Read.{read_fields}

-- The entries that pass a test, as the comprehensions over `board.items()` collect them.
unfoldable pub those : (ℕ → Bool) → Board → Board
those f [] = []
those f (p ∷ ps) = let rest = those f ps in if f p.piece then p ∷ rest else rest

abbrev pub only : Board → Option Square
only (p ∷ []) = some (p.file, p.rank)
only _ = none

-- `abs(a - b)`
abbrev pub distance : ℕ → ℕ → ℕ
distance a b = (a - b) + (b - a)

unfoldable pub adjacent : Square → Square → Bool
adjacent (wf, wr) (bf, br) = leb (distance wf bf) 1 && leb (distance wr br) 1

unfoldable pub back_pawn : Board → Bool
back_pawn [] = false
back_pawn (p ∷ ps) =
    (((p.piece == b'P') || (p.piece == b'p')) && ((p.rank == 1) || (p.rank == 8))) || back_pawn ps

abbrev pub is_upper : ℕ → Bool
is_upper c = leb b'A' c && leb c b'Z'

abbrev pub lower : ℕ → ℕ
lower c = if is_upper c then c + 32 else c

-- `sum(1 for pce in mine if pce.lower() == kind)`
abbrev pub have : ℕ → Board → ℕ
have kind mine = length (those (λ c. lower c == kind) mine)

-- The pawns, the pieces and the promotion budget of one side.
unfoldable pub feasible : Board → Bool
feasible mine =
    let pawns = have b'p' mine in
    let excess =
      (have b'q' mine - 1)
      + ((have b'r' mine - 2) + ((have b'b' mine - 2) + (have b'n' mine - 2))) in
    leb pawns 8 && (leb (length mine) 16 && leb excess (8 - pawns))

abbrev pub holds : Board → Square → ℕ → Bool
holds board (f, r) piece = elim (get f r board) [ some p ↦ p == piece | none ↦ false ]

abbrev pub vacant : Board → Square → Bool
vacant board (f, r) = elim (get f r board) [ some p ↦ false | none ↦ true ]

-- The king and the rook of a right on their homes.
unfoldable pub at_home : Board → ℕ → Bool
at_home board right =
    if right == b'K'
    then holds board (4, 1) b'K' && holds board (7, 1) b'R'
    else if right == b'Q'
    then holds board (4, 1) b'K' && holds board (0, 1) b'R'
    else if right == b'k'
    then holds board (4, 8) b'k' && holds board (7, 8) b'r'
    else holds board (4, 8) b'k' && holds board (0, 8) b'r'

unfoldable pub all_at_home : Board → Text → Bool
all_at_home board [] = true
all_at_home board (right ∷ rights) = at_home board right && all_at_home board rights

-- The advance that an en passant square records: whose pawn, from where and to where.
unfoldable pub ep_consistent : Board → Bool → ℕ → Option (ℕ × ℕ) → Bool
ep_consistent board white_to_move half none = true
ep_consistent board white_to_move half (some (file, rank)) =
    let white_advanced = rank == b'3' in
    let f = file - b'a' in
    let to_rank : ℕ = if white_advanced then 4 else 5 in
    let from_rank : ℕ = if white_advanced then 2 else 7 in
    (if white_advanced then not white_to_move else white_to_move)
    && (holds board (f, to_rank) (if white_advanced then b'P' else b'p')
        && (vacant board (f, rank - b'0') && (vacant board (f, from_rank) && (half == 0))))

abbrev pub white_to_move : Position → Bool
white_to_move p = text_eq p.color (codes "w")

-- The position rules, which all raise the same class.
unfoldable pub check_position : Position → Result Failure (Unit {0})
check_position p = do
  let white_moves = white_to_move p
  wk ← or_else impossible_position (only (those (λ c. c == b'K') p.board))
  bk ← or_else impossible_position (only (those (λ c. c == b'k') p.board))
  require (not (adjacent wk bk)) impossible_position
  require (not (back_pawn p.board)) impossible_position
  require (feasible (those is_upper p.board)) impossible_position
  require (feasible (those (λ c. not (is_upper c)) p.board)) impossible_position
  require (not (attack (if white_moves then bk else wk) p.board white_moves)) impossible_position
  require (all_at_home p.board p.rights) impossible_position
  require (ep_consistent p.board white_moves p.half p.ep_square) impossible_position

module _ (int_limit : ℕ) where
  -- the object is read as a text first
  unfoldable pub parse_fen : Value → Result Failure Position
  parse_fen fen = do
    t ← or_else malformed_fen (as_text fen)
    p ← or_else malformed_fen (read_fields int_limit t)
    check_position p
    ok p
