-- ===== src/Graph/EnPassant/Counters.antt =====
-- `turn_transition` of graph/en_passant.py against `apply_move` of tools/turn_runtime.py.
use openchess.Base.{ok, refl, some, ℕ, ◌+◌, ◌≡◌}
use mathlib.Core.Path.{subst}
use openchess.Python.Values.{Value}
use openchess.Chess.Castling.{Side, white, black}
use openchess.Chess.Castling.Check.{read_side}
use openchess.Chess.Turn.{Kind, pawn_move, capture, after, next_number}
use openchess.Graph.EnPassant.{MoveType, pawn_advance, ep_capture}
use openchess.Graph.EnPassant.Read.{type_read}
use openchess.Graph.EnPassant.Entry.{Effect, reset, increment, same, transition_of, turn_transition}

-- A counter under the effect that is reported for it.
unfoldable pub affected : Effect → ℕ → ℕ
affected reset n = 0
affected increment n = n + 1
affected same n = n

-- The kind of move that the turn machine has for a type.
unfoldable pub kind_of : MoveType → Kind
kind_of pawn_advance = pawn_move
kind_of ep_capture = capture
kind_of openchess.Graph.EnPassant.quiet = openchess.Chess.Turn.quiet

next_number-affected :
    (kind : MoveType) (side : Side) (n : ℕ)
    → next_number side n ≡ affected (transition_of kind side).1 n
unfolding affected
next_number-affected kind white n = refl
next_number-affected kind black n = refl

after-transition_of :
    (kind : MoveType) (t : openchess.Chess.Turn.State)
    → let r = transition_of kind t.side_to_move in
      ((after (kind_of kind) t).halfmove_clock ≡ affected r.0 t.halfmove_clock)
      × ((after (kind_of kind) t).fullmove_number ≡ affected r.1 t.fullmove_number)
unfolding after kind_of affected
after-transition_of pawn_advance t =
    (refl, next_number-affected pawn_advance t.side_to_move t.fullmove_number)
after-transition_of ep_capture t =
    (refl, next_number-affected ep_capture t.side_to_move t.fullmove_number)
after-transition_of openchess.Graph.EnPassant.quiet t =
    (refl, next_number-affected openchess.Graph.EnPassant.quiet t.side_to_move t.fullmove_number)

-- The effects that `turn_transition` reports for a move are those that the turn machine has for a move
-- of its kind, when it is the turn of the side that moves.
pub turn_transition-after :
    (move_type side : Value) (kind : MoveType) (t : openchess.Chess.Turn.State)
    (halfmove fullmove : Effect)
    → type_read move_type ≡ some kind
    → read_side side ≡ some t.side_to_move
    → turn_transition move_type side ≡ ok (halfmove, fullmove)
    → ((after (kind_of kind) t).halfmove_clock ≡ affected halfmove t.halfmove_clock)
      × ((after (kind_of kind) t).fullmove_number ≡ affected fullmove t.fullmove_number)
unfolding turn_transition
turn_transition-after move_type side kind t halfmove fullmove e_k e_s h =
    let effects : ok (transition_of kind t.side_to_move) ≡ ok (halfmove, fullmove) =
      rw (e_k, e_s) at h in
    let given : transition_of kind t.side_to_move ≡ (halfmove, fullmove) = cc (effects) in
    subst
      (λ (r : Effect × Effect).
        ((after (kind_of kind) t).halfmove_clock ≡ affected r.0 t.halfmove_clock)
        × ((after (kind_of kind) t).fullmove_number ≡ affected r.1 t.fullmove_number))
      given (after-transition_of kind t)
