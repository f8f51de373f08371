-- ===== src/Graph/EnPassant/Entry.antt =====
-- `apply`, `identity_value` and `turn_transition` of graph/en_passant.py on any objects.
use openchess.Base.{Result, Text, ok, or_else, ◌>>=◌}
use openchess.Python.Values.{Value}
use openchess.Chess.Castling.{Side, white, black}
use openchess.Chess.Castling.Check.{read_side}
use openchess.Graph.EnPassant.{
  State, Failure, target_malformed, MoveType, pawn_advance, ep_capture, quiet,
}
use openchess.Graph.EnPassant.Read.{read_position, read_ply, type_read}
use openchess.Graph.EnPassant.Move.{apply_ply, identity_of}

-- `apply`
unfoldable pub apply : Value → Value → Result Failure State
apply state move = do
  s ← or_else target_malformed (read_position state)
  m ← or_else target_malformed (read_ply move)
  apply_ply s m

unfoldable pub identity_value : Value → Result Failure Text
identity_value state = do s ← or_else target_malformed (read_position state); ok (identity_of s)

-- What becomes of a counter of the turn machine.
pub data Effect : Type 0 where
  reset increment same : Effect

-- `turn_transition` on checked values
abbrev pub transition_of : MoveType → Side → Effect × Effect
transition_of kind side = (
  elim kind [ pawn_advance ↦ reset | ep_capture ↦ reset | quiet ↦ increment ],
  elim side [ white ↦ same | black ↦ increment ],
)

unfoldable pub turn_transition : Value → Value → Result Failure (Effect × Effect)
turn_transition move_type side = do
  kind ← or_else target_malformed (type_read move_type)
  s ← or_else target_malformed (read_side side)
  ok (transition_of kind s)
