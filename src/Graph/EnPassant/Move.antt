-- ===== src/Graph/EnPassant/Move.antt =====
-- `_capture` and `apply` of graph/en_passant.py on checked values, and the identity value.
use openchess.Base.{
  Bool, Option, Result, Text, [], codes, err, false, if◌then◌else◌, leb, none, not, ok, or_else,
  require, some, text_eq, true, ℕ, ◌&&◌, ◌+◌, ◌-◌, ◌==◌, ◌>>=◌, ◌>>◌, ◌||◌, ◌∷◌,
}
use openchess.Graph.Fen.Attack.{moved}
use openchess.Graph.Fen.Rules.{distance}
use openchess.Chess.Castling.{Side}
use openchess.Chess.Castling.Apply.{Board, occupied_on, stands, vacate, put}
use openchess.Graph.EnPassant.{
  State, Failure, target_malformed, capture_precondition, target_inconsistent, pinned_capture,
  stop_iteration, Ply, pawn_advance, ep_capture, quiet, MoveType, target_grammar_ok, other_side,
  target_rank, from_rank, to_rank, mover_rank, piece_of, first_code, second_code, attacked_by,
  negsuc, pos,
}

-- `occ.get(square)`
unfoldable pub token_on : Text → Board → Option Text
token_on square [] = none
token_on square ((sq, tok) ∷ occ) =
    let rest = token_on square occ in if text_eq sq square then some tok else rest

-- `next(sq for sq, token in occ.items() if token == king)`
unfoldable pub square_of : Text → Board → Option Text
square_of king [] = none
square_of king ((sq, tok) ∷ occ) =
    let rest = square_of king occ in if text_eq tok king then some sq else rest

-- The square of the pawn that a capture removes.
abbrev pub captured_square : Text → Side → Text
captured_square target side = first_code target ∷ (mover_rank side ∷ [])

-- The mover is a pawn beside the target's file, and the move ends on the target.
abbrev pub may_capture : Text → Board → Side → Text → Text → Bool
may_capture target occ side from to =
    text_eq to target
    && ((second_code from == mover_rank side)
        && ((distance (first_code from) (first_code target) == 1)
            && stands from (piece_of side b'p') occ))

-- The board after a capture.
abbrev pub captured_board : Text → Board → Side → Text → Text → Board
captured_board target occ side from to =
    put to (piece_of side b'p') (vacate from (captured_square target side) occ)

-- `_capture`
unfoldable pub capture : Text → Board → Side → Text → Text → Result Failure State
capture target occ side from to = do
  require (target_grammar_ok target) target_malformed
  require (not (text_eq target (codes "-"))) capture_precondition
  require (not (occupied_on occ target)) target_inconsistent
  require (second_code target == target_rank (other_side side)) target_inconsistent
  require (stands (captured_square target side) (piece_of (other_side side) b'p') occ)
      target_inconsistent
  require (may_capture target occ side from to) capture_precondition
  let result = captured_board target occ side from to
  king ← or_else stop_iteration (square_of (piece_of side b'k') result)
  require (not (attacked_by result king (other_side side))) pinned_capture
  ok (record { ep_target = codes "-"; occupied = result; side_to_move = other_side side })

-- A pawn that goes forward two squares from its start rank.
abbrev pub two_square_advance : MoveType → Text → Side → Text → Text → Bool
two_square_advance pawn_advance token side from to =
    (second_code token == b'p')
    && ((first_code from == first_code to)
        && ((second_code from == from_rank side) && (second_code to == to_rank side)))
two_square_advance _ token side from to = false

-- Any other move: the piece goes to its square, and the target is set anew.
unfoldable pub relocate : MoveType → State → Text → Text → Result Failure State
relocate kind s from to = do
  token ← or_else target_malformed (token_on from s.occupied)
  let side = s.side_to_move
  ok (record {
    ep_target =
        if two_square_advance kind token side from to
        then first_code to ∷ (target_rank side ∷ [])
        else codes "-";
    occupied = put to token (vacate from from s.occupied);
    side_to_move = other_side side;
  })

-- `apply` on checked values
unfoldable pub apply_ply : State → Ply → Result Failure State
apply_ply s m = elim m.kind [
  | ep_capture ↦ capture s.ep_target s.occupied s.side_to_move m.from m.to
  | pawn_advance ↦ relocate pawn_advance s m.from m.to
  | quiet ↦ relocate quiet s m.from m.to
]

abbrev pub succeeds : Result Failure State → Bool
succeeds (ok s) = true
succeeds (err e) = false

-- One round of `identity_value`: the capture from the neighbour file, if there is one.
unfoldable pub captures_from : State → Option ℕ → Bool
captures_from s none = false
captures_from s (some f) =
    leb f 7
    && succeeds (
        capture s.ep_target s.occupied s.side_to_move ((97 + f) ∷ (mover_rank s.side_to_move ∷ []))
          s.ep_target)

-- `identity_value` on a checked state
unfoldable pub identity_of : State → Text
identity_of s =
    let file_index = first_code s.ep_target - 97 in
    if text_eq s.ep_target (codes "-") || not (target_grammar_ok s.ep_target)
    then codes "-"
    else if captures_from s (moved file_index (negsuc 0))
        || captures_from s (moved file_index (pos 1))
    then s.ep_target
    else codes "-"
