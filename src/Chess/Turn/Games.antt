-- ===== src/Chess/Turn/Games.antt =====
-- Games on the turn machine of tools/turn_runtime.py.
use openchess.Chess.Castling.Check.{read_side}
use openchess.Base.{
  refl, ◌≡◌, ℕ, ◌+◌, ◌*◌, ◌≤◌, List, [], ◌∷◌, ok, Result, ◌>>=◌, arith, length, some, if◌then◌else◌,
  leb, none, ◌∙◌,
}
use openchess.Python.Values.{null, text}
use openchess.Chess.Castling.{white, black, Side}
use openchess.Chess.Turn.{
  flip, next_number, State, Kind, kind_name, after, encode_state, Failure, read_kind, quiet,
  pawn_move, capture, status, seventyfive_move_auto, fifty_move_claim,
}
use openchess.Chess.Turn.Entry.{validate_state, apply_move, termination_for}

-- The half moves played when the state is reached, counted from an empty game.
abbrev half_move : Side → ℕ
half_move white = 0
half_move black = 1

abbrev pub ply : State → ℕ
ply s = 2 * s.fullmove_number + half_move s.side_to_move

-- A game by `apply_move`, each call on the dict that the last one returned.
unfoldable pub play : List Kind → State → Result Failure State
play [] s = ok s
play (k ∷ ks) s = apply_move (encode_state s) (text (kind_name k)) null >>= λ t. play ks t

-- The moves one after another.
unfoldable pub afters : List Kind → State → State
afters [] s = s
afters (k ∷ ks) s = afters ks (after k s)

parts-valid :
    (side : Side) (n m : ℕ)
    → 1 ≤ m
    → validate_state
        (encode_state (record { side_to_move = side; halfmove_clock = n; fullmove_number = m }))
      ≡ ok (record { side_to_move = side; halfmove_clock = n; fullmove_number = m })
unfolding validate_state encode_state openchess.Python.Values.get openchess.Base.text_eq
    openchess.Python.Values.text_keys openchess.Base.text_in openchess.Chess.Turn.at_least read_side
parts-valid white n m h = ground arith
parts-valid black n m h = ground arith

validate_state-encode_state :
    (s : State) → 1 ≤ s.fullmove_number → validate_state (encode_state s) ≡ ok s
validate_state-encode_state s h = parts-valid s.side_to_move s.halfmove_clock s.fullmove_number h

read_kind-kind_name : (k : Kind) → read_kind (text (kind_name k)) ≡ some k
unfolding read_kind openchess.Base.text_eq
read_kind-kind_name pawn_move = refl
read_kind-kind_name capture = refl
read_kind-kind_name quiet = refl

-- What `apply_move` returns is accepted again, and no move of a declared kind is refused.
apply_move-encode_state :
    (k : Kind) (s : State)
    → 1 ≤ s.fullmove_number
    → apply_move (encode_state s) (text (kind_name k)) null ≡ ok (after k s)
unfolding apply_move openchess.Chess.Turn.Entry.still_open
apply_move-encode_state k s h = rw (validate_state-encode_state s h, read_kind-kind_name k) refl

ply-after : (k : Kind) (s : State) → ply (after k s) ≡ ply s + 1
unfolding after
ply-after k s = one s.side_to_move s.fullmove_number
  where
    one :
        (side : Side) (n : ℕ)
        → 2 * next_number side n + half_move (flip side) ≡ 2 * n + half_move side + 1
    one white n = omega arith
    one black n = omega arith

fullmove_number-after : (k : Kind) (s : State) → s.fullmove_number ≤ (after k s).fullmove_number
unfolding after
fullmove_number-after k s = more s.side_to_move s.fullmove_number
  where
    more : (side : Side) (n : ℕ) → n ≤ next_number side n
    more white n = omega arith
    more black n = omega arith

play-afters : (ks : List Kind) (s : State) → 1 ≤ s.fullmove_number → play ks s ≡ ok (afters ks s)
unfolding play afters
play-afters [] s h = refl
play-afters (k ∷ ks) s h =
    rw (apply_move-encode_state k s h)
      (play-afters ks (after k s) (omega (arith, fullmove_number-after k s)))

ply-afters : (ks : List Kind) (s : State) → ply (afters ks s) ≡ ply s + length ks
unfolding afters
ply-afters [] s = omega arith
ply-afters (k ∷ ks) s = omega (arith, ply-afters ks (after k s), ply-after k s)

-- A game of declared moves from a state that is in bounds is never refused, whatever its length: each
-- dict that `apply_move` returns is accepted by the next call, and each move counts one half move.
pub play-ply :
    (ks : List Kind) (s : State)
    → 1 ≤ s.fullmove_number
    → (t : State) × (play ks s ≡ ok t) × (ply t ≡ ply s + length ks)
play-ply ks s h = (afters ks s, play-afters ks s h, ply-afters ks s)

-- The moves after the last pawn move or capture, and those before the game if there was none.
abbrev pub quiet_run : ℕ → List Kind → ℕ
quiet_run n [] = n
quiet_run n (quiet ∷ ks) = quiet_run (n + 1) ks
quiet_run n (_ ∷ ks) = quiet_run 0 ks

halfmove_clock-afters :
    (ks : List Kind) (s : State) → (afters ks s).halfmove_clock ≡ quiet_run s.halfmove_clock ks
unfolding afters after
halfmove_clock-afters [] s = refl
halfmove_clock-afters (pawn_move ∷ ks) s = halfmove_clock-afters ks (after pawn_move s)
halfmove_clock-afters (capture ∷ ks) s = halfmove_clock-afters ks (after capture s)
halfmove_clock-afters (quiet ∷ ks) s = halfmove_clock-afters ks (after quiet s)

fullmove_number-afters :
    (ks : List Kind) (s : State) → s.fullmove_number ≤ (afters ks s).fullmove_number
unfolding afters
fullmove_number-afters [] s = omega arith
fullmove_number-afters (k ∷ ks) s =
    omega (arith, fullmove_number-after k s, fullmove_number-afters ks (after k s))

termination_for-encode_state :
    (s : State) → 1 ≤ s.fullmove_number → termination_for (encode_state s) ≡ ok (status s)
unfolding termination_for
termination_for-encode_state s h = rw (validate_state-encode_state s h) refl

-- At the end of a game of declared moves from a state that is in bounds, a draw can be claimed exactly
-- when the last 100 half moves or more were quiet, and is automatic from 150 on; the quiet half moves
-- that the first state counts are part of them if no pawn move or capture came since.
pub termination_for-play :
    (ks : List Kind) (s : State)
    → 1 ≤ s.fullmove_number
    → (t : State) × (play ks s ≡ ok t)
      × (termination_for (encode_state t)
          ≡ ok (
              if leb 150 (quiet_run s.halfmove_clock ks)
              then some seventyfive_move_auto
              else if leb 100 (quiet_run s.halfmove_clock ks)
              then some fifty_move_claim
              else none))
unfolding status
termination_for-play ks s h = (
  afters ks s,
  play-afters ks s h,
  termination_for-encode_state (afters ks s) (omega (arith, fullmove_number-afters ks s))
      ∙ rw (halfmove_clock-afters ks s) refl,
)
