-- ===== src/Chess/Turn.antt =====
-- The turn machine (tools/turn_runtime.py): its state, its moves, its transition. The tables are those
-- of data/contracts/turn.yaml.
pub mod Entry
pub mod Games
use openchess.Base.{
  ℕ, ◌+◌, Bool, true, false, Option, none, some, leb, if◌then◌else◌, Text, codes, text_eq, keep_if,
}
use openchess.Base.Maybe.{◌>>=◌}
use openchess.Python.Values.{Value, text, integer, pos, dict, Entries, end, entry, get}
use openchess.Chess.Castling.Check.{read_side}
use openchess.Chess.Castling.{Side, white, black}

pub data Failure : Type 0 where
  no_side_to_move bad_counter illegal_transition unknown_termination : Failure

-- The three declared fields.
pub record State : Type 0 where
  pub side_to_move : Side
  pub halfmove_clock : ℕ
  pub fullmove_number : ℕ

-- `_MOVE_KINDS`
pub data Kind : Type 0 where
  pawn_move capture quiet : Kind

-- `_RESET_WHEN`
abbrev pub resets : Kind → Bool
resets pawn_move = true
resets capture = true
resets quiet = false

abbrev pub kind_name : Kind → Text
kind_name pawn_move = codes "pawn_move"
kind_name capture = codes "capture"
kind_name quiet = codes "quiet"

unfoldable pub read_kind : Value → Option Kind
read_kind (text t) =
    if text_eq t (codes "pawn_move")
    then some pawn_move
    else if text_eq t (codes "capture")
    then some capture
    else if text_eq t (codes "quiet")
    then some quiet
    else none
read_kind _ = none

-- An exact int that is at least the declared minimum.
unfoldable pub at_least : ℕ → Value → Option ℕ
at_least min (integer (pos n)) = keep_if (leb min n) (some n)
at_least min _ = none

unfoldable pub side_in : Entries → Option Side
side_in d = get (codes "side_to_move") d >>= read_side

unfoldable pub counter_in : Text → ℕ → Entries → Option ℕ
unfolding at_least
counter_in field min d = get field d >>= at_least min

abbrev pub flip : Side → Side
flip white = black
flip black = white

abbrev pub next_number : Side → ℕ → ℕ
next_number white n = n
next_number black n = n + 1

-- The state after a move of the kind.
unfoldable pub after : Kind → State → State
after kind s = record {
  side_to_move = flip s.side_to_move;
  halfmove_clock = if resets kind then 0 else s.halfmove_clock + 1;
  fullmove_number = next_number s.side_to_move s.fullmove_number;
}

-- What `termination_for` reports.
pub data Status : Type 0 where
  fifty_move_claim seventyfive_move_auto : Status

unfoldable pub status : State → Option Status
status s =
    if leb 150 s.halfmove_clock
    then some seventyfive_move_auto
    else if leb 100 s.halfmove_clock
    then some fifty_move_claim
    else none

abbrev side_name : Side → Text
side_name white = codes "w"
side_name black = codes "b"

-- The dict that `apply_move` returns.
unfoldable pub encode_state : State → Value
encode_state s = dict 0 (
    entry (text (codes "side_to_move")) (text (side_name s.side_to_move)) (
      entry (text (codes "halfmove_clock")) (integer (pos s.halfmove_clock))
        (entry (text (codes "fullmove_number")) (integer (pos s.fullmove_number)) end)))
