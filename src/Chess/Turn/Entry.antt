-- ===== src/Chess/Turn/Entry.antt =====
-- The entry points of tools/turn_runtime.py, on any objects.
use openchess.Base.{
  ◌>>=◌, ◌>>◌, ok, err, Result, or_else, Option, List, ◌∷◌, [], Text, codes, text_in, if◌then◌else◌,
}
use openchess.Python.Values.{Value, null, text, dict}
use openchess.Jobs.Queue.Check.{keys_are}
use openchess.Chess.Castling.{Side}
use openchess.Chess.Turn.{
  Failure, no_side_to_move, bad_counter, illegal_transition, unknown_termination, State, read_kind,
  side_in, counter_in, after, Status, status,
}

-- `_validate_state`
unfoldable pub validate_state : Value → Result Failure State
unfolding side_in counter_in
validate_state (dict i d) = do
  side ← or_else no_side_to_move (side_in d)
  halfmove ← or_else bad_counter (counter_in (codes "halfmove_clock") 0 d)
  fullmove ← or_else bad_counter (counter_in (codes "fullmove_number") 1 d)
  or_else bad_counter
      (keys_are d (codes "side_to_move" ∷ codes "halfmove_clock" ∷ codes "fullmove_number" ∷ []))
  ok (record { side_to_move = side; halfmove_clock = halfmove; fullmove_number = fullmove })
validate_state _ = err bad_counter

-- `_TERMINATION_STATES`
abbrev termination_states : List Text
termination_states =
    codes "checkmate"
    ∷ codes "stalemate"
    ∷ codes "resignation"
    ∷ codes "timeout"
    ∷ codes "draw_agreement"
    ∷ codes "fifty_move_claim"
    ∷ codes "seventyfive_move_auto"
    ∷ codes "fivefold_auto"
    ∷ codes "threefold_claim"
    ∷ codes "insufficient_material"
    ∷ codes "variant_specific"
    ∷ []

-- The machine is open unless it has terminated.
unfoldable pub still_open : Value → Result Failure (Unit {0})
still_open null = ok tt
still_open (text t) =
    if text_in t termination_states then err illegal_transition else err unknown_termination
still_open _ = err unknown_termination

-- `apply_move`
unfoldable pub apply_move : Value → Value → Value → Result Failure State
unfolding validate_state still_open
apply_move state move terminated = do
  s ← validate_state state
  still_open terminated
  kind ← or_else illegal_transition (read_kind move)
  ok (after kind s)

-- `identity`: the side to move alone
unfoldable pub identity : Value → Result Failure Side
identity state = do s ← validate_state state; ok s.side_to_move

-- `termination_for`
unfoldable pub termination_for : Value → Result Failure (Option Status)
termination_for state = do s ← validate_state state; ok (status s)
