-- ===== src/Chess/Linkage.antt =====
-- `turn_effect` of tools/castling_runtime.py against `apply_move` of tools/turn_runtime.py.
use openchess.Base.{refl, ◌≡◌, ℕ, ◌+◌, ok, some, OnOk, OnOk-bind, OnOk-at, or_else, require}
use openchess.Python.Values.{Value}
use openchess.Chess.Castling.{
  Right, Side, white, black, castle, side_of, malformed, rights_malformed, grammar_ok,
}
use openchess.Chess.Castling.Check.{read_state, read_move}
use openchess.Chess.Castling.Entry.{Increment, increment, same, turn_effect, fullmove_of}
use openchess.Chess.Turn.{State, quiet, after, next_number}

-- A counter under the effect that is reported for it.
abbrev pub counted : Increment → ℕ → ℕ
counted increment n = n + 1
counted same n = n

next_number-fullmove_of : (side : Side) (n : ℕ) → next_number side n ≡ counted (fullmove_of side) n
next_number-fullmove_of white n = refl
next_number-fullmove_of black n = refl

-- The effects reported for a castle of the right.
abbrev Reported : Right → Increment × Increment → Type 0
Reported right r = (r.0 ≡ increment) × (r.1 ≡ fullmove_of (side_of right))

turn_effect-Reported :
    (state move : Value) (right : Right)
    → read_move move ≡ some (castle right)
    → OnOk (Reported right) (turn_effect state move)
unfolding turn_effect
turn_effect-Reported state move right e =
    OnOk-bind (Reported right) (or_else malformed (read_state state)) _ λ s _. rw e (
      OnOk-bind (Reported right) (require (grammar_ok s.rights) rights_malformed) _
        λ _ _. (refl, refl))

-- The effects that `turn_effect` reports for a castle are those that the turn machine has for a quiet
-- move, when it is the turn of the side that castles.
pub turn_effect-after :
    (state move : Value) (right : Right) (t : State) (halfmove fullmove : Increment)
    → read_move move ≡ some (castle right)
    → turn_effect state move ≡ ok (halfmove, fullmove)
    → t.side_to_move ≡ side_of right
    → ((after quiet t).halfmove_clock ≡ counted halfmove t.halfmove_clock)
      × ((after quiet t).fullmove_number ≡ counted fullmove t.fullmove_number)
unfolding after
turn_effect-after state move right t halfmove fullmove e h turn =
    let reported = OnOk-at (Reported right) _ (turn_effect-Reported state move right e) h in
    (
      rw reported.0 refl,
      rw (reported.1, turn) (next_number-fullmove_of (side_of right) t.fullmove_number),
    )
