-- ===== src/Chess/Castling/Entry.antt =====
-- The entry points of tools/castling_runtime.py, on any two objects.
use openchess.Base.{◌>>=◌, ◌>>◌, ok, err, Result, or_else, require, Text}
use openchess.Python.Values.{Value}
use openchess.Chess.Castling.{
  Failure, malformed, rights_malformed, State, Side, white, black, Move, castle, grammar_ok,
  side_of,
}
use openchess.Chess.Castling.Check.{read_state, read_move}
use openchess.Chess.Castling.Apply.{apply_move}

-- `apply`
unfoldable pub apply : Value → Value → Result Failure State
apply state move = do
  s ← or_else malformed (read_state state)
  m ← or_else malformed (read_move move)
  apply_move s m

-- `identity`: the rights, which participate
unfoldable pub identity : Value → Result Failure Text
identity state = do
  s ← or_else malformed (read_state state)
  require (grammar_ok s.rights) rights_malformed
  ok s.rights

pub data Increment : Type 0 where
  increment same : Increment

abbrev pub fullmove_of : Side → Increment
fullmove_of white = same
fullmove_of black = increment

abbrev turn_of : State → Move → Result Failure (Increment × Increment)
turn_of s (castle right) = do
  require (grammar_ok s.rights) rights_malformed
  ok (increment, fullmove_of (side_of right))
turn_of s _ = err malformed

-- `turn_effect`: the halfmove clock and the fullmove number
unfoldable pub turn_effect : Value → Value → Result Failure (Increment × Increment)
turn_effect state move = do
  s ← or_else malformed (read_state state)
  m ← or_else malformed (read_move move)
  turn_of s m
