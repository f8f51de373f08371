-- ===== src/Chess/Castling/Apply.antt =====
-- `apply` of tools/castling_runtime.py on checked values.
use openchess.Base.{
  ◌>>=◌, ◌>>◌, ok, Result, require, Bool, false, ◌&&◌, ◌||◌, not, List, [], ◌∷◌, if◌then◌else◌,
  Text, codes, text_eq, text_in,
}
use openchess.Chess.Castling.{
  Failure, malformed, rights_malformed, rights_inconsistent, path_blocked, king_unmoved_required,
  through_check, Side, white, black, Right, Move, castle, king_move, rook_move_from,
  rook_capture_on, State, Course, course_of, king_loss, rook_loss, side_of, side_eq, letter, has,
  grammar_ok, canonical, held, less,
}

abbrev pub Board : Type 0
Board = List (Text × Text)

-- `occ.get(square) == token`
unfoldable pub stands : Text → Text → Board → Bool
stands square token [] = false
stands square token ((sq, tok) ∷ occ) =
    let rest = stands square token occ in if text_eq sq square then text_eq tok token else rest

-- `square in occ`
unfoldable pub occupied_on : Board → Text → Bool
occupied_on [] square = false
occupied_on ((sq, tok) ∷ occ) square = text_eq sq square || occupied_on occ square

unfoldable pub any_occupied : List Text → Board → Bool
unfolding occupied_on
any_occupied [] occ = false
any_occupied (square ∷ squares) occ = occupied_on occ square || any_occupied squares occ

unfoldable pub any_attacked : List Text → List Text → Bool
any_attacked [] att = false
any_attacked (square ∷ squares) att = text_in square att || any_attacked squares att

-- `{sq: tok for sq, tok in occ.items() if sq not in (king, rook)}`
unfoldable pub vacate : Text → Text → Board → Board
vacate king rook [] = []
vacate king rook ((sq, tok) ∷ occ) =
    let rest = vacate king rook occ in
    if text_eq sq king || text_eq sq rook then rest else (sq, tok) ∷ rest

-- `occ[square] = token`
unfoldable pub put : Text → Text → Board → Board
put square token [] = (square, token) ∷ []
put square token ((sq, tok) ∷ occ) =
    let rest = put square token occ in
    if text_eq sq square then (sq, token) ∷ occ else (sq, tok) ∷ rest

abbrev pub king_of : Side → Text
king_of white = codes "wk"
king_of black = codes "bk"

abbrev pub rook_of : Side → Text
rook_of white = codes "wr"
rook_of black = codes "br"

-- The board after the relocation.
abbrev pub relocated : Side → Course → Board → Board
relocated side p occ =
    put p.rook_to (rook_of side) (put p.king_to (king_of side) (vacate p.king p.rook occ))

-- The king and the rook stand on their home squares.
abbrev pub at_home : Right → State → Bool
at_home right s =
    let p = course_of right in
    stands p.king (king_of (side_of right)) s.occupied
    && stands p.rook (rook_of (side_of right)) s.occupied

abbrev pub clear : Right → State → Bool
clear right s = not (any_occupied (course_of right).empty_required s.occupied)

-- The king is attacked neither on its home square nor on its way nor where it arrives.
abbrev pub unattacked : Right → State → Bool
unattacked right s =
    let p = course_of right in
    not (
      text_in p.king s.attacked
      || text_in p.king_to s.attacked
      || any_attacked p.king_transit s.attacked)

-- The state after the castle.
abbrev pub castled : Right → State → State
castled right s = record s {
  rights = canonical (less (held s.rights) (king_loss (side_of right)));
  occupied = relocated (side_of right) (course_of right) s.occupied;
}

-- The castling branch of `apply`.
unfoldable pub apply_castle : Right → State → Result Failure State
unfolding stands any_occupied any_attacked vacate put
apply_castle right s = do
  require (side_eq (side_of right) s.side_to_move) malformed
  require (has (letter right) (held s.rights)) king_unmoved_required
  require (at_home right s) rights_inconsistent
  require (clear right s) path_blocked
  require (unattacked right s) through_check
  ok (castled right s)

-- The branch of `apply` for an event that only loses rights.
abbrev pub lose : Text → State → State
lose loss s = record s { rights = canonical (less (held s.rights) loss) }

unfoldable pub apply_event : Move → State → Result Failure State
unfolding apply_castle
apply_event (castle right) s = apply_castle right s
apply_event (king_move side) s = ok (lose (king_loss side) s)
apply_event (rook_move_from square) s = ok (lose (rook_loss square) s)
apply_event (rook_capture_on square) s = ok (lose (rook_loss square) s)

-- `apply`, once the state and the move are read
unfoldable pub apply_move : State → Move → Result Failure State
unfolding apply_event
apply_move s move = require (grammar_ok s.rights) rights_malformed >> apply_event move s

-- One event after another.
unfoldable pub run : List Move → State → Result Failure State
unfolding apply_move
run [] s = ok s
run (move ∷ moves) s = apply_move s move >>= λ next. run moves next
