-- ===== src/Chess/Castling/Runs.antt =====
-- Sequences of events of tools/castling_runtime.py.
use openchess.Base.{
  refl, ◌≡◌, true, false, Text, ℕ, arith, ◌∷◌, [], List, ok, err, if◌then◌else◌, OnOk, OnOk-bind,
  OnOk-at, require, sym, OnOk-weaken, Bool-cases, inl, inr,
}
use mathlib.Core.Path.{subst}
use openchess.Chess.Castling.{
  has, grammar_ok, canonical, held, less, State, Move, castle, king_move, rook_move_from,
  rook_capture_on, Right, letter, side_of, side_eq, king_loss, rook_loss, malformed,
  king_unmoved_required, rights_malformed, rights_inconsistent, path_blocked, through_check,
}
use openchess.Chess.Castling.Apply.{
  at_home, clear, unattacked, castled, apply_castle, apply_event, apply_move, run,
}
use openchess.Chess.Castling.Rights.{canonical-grammar_ok, has-after}

-- The rights after an event are the canonical text of those held before it less a loss.
abbrev Loses : State → State → Type 0
Loses s s' = (loss : Text) × (s'.rights ≡ canonical (less (held s.rights) loss))

apply_castle-Loses : (right : Right) (s : State) → OnOk (Loses s) (apply_castle right s)
unfolding apply_castle
apply_castle-Loses right s =
    let lost : Loses s (castled right s) = (king_loss (side_of right), refl) in
    OnOk-bind (Loses s) (require (side_eq (side_of right) s.side_to_move) malformed) _ λ _ _.
      OnOk-bind (Loses s) (require (has (letter right) (held s.rights)) king_unmoved_required) _
        λ _ _. OnOk-bind (Loses s) (require (at_home right s) rights_inconsistent) _ λ _ _.
          OnOk-bind (Loses s) (require (clear right s) path_blocked) _
            λ _ _. OnOk-bind (Loses s) (require (unattacked right s) through_check) _ λ _ _. lost

apply_event-Loses : (move : Move) (s : State) → OnOk (Loses s) (apply_event move s)
unfolding apply_event
apply_event-Loses (castle right) s = apply_castle-Loses right s
apply_event-Loses (king_move side) s = (king_loss side, refl)
apply_event-Loses (rook_move_from square) s = (rook_loss square, refl)
apply_event-Loses (rook_capture_on square) s = (rook_loss square, refl)

apply_move-Loses : (move : Move) (s : State) → OnOk (Loses s) (apply_move s move)
unfolding apply_move
apply_move-Loses move s =
    OnOk-bind (Loses s) (require (grammar_ok s.rights) rights_malformed) _
      λ _ _. apply_event-Loses move s

-- Nothing regains a right.
abbrev pub Within : State → State → Type 0
Within s s' = (c : ℕ) → has c (held s'.rights) ≡ true → has c (held s.rights) ≡ true

Loses-Within : (s s' : State) → Loses s s' → Within s s'
Loses-Within s s' (loss, e) c h =
    let kept = subst (λ r. has c (held r) ≡ true) e h in
    ground (arith, has-after c (held s.rights) loss)

run-Within : (moves : List Move) (s : State) → OnOk (Within s) (run moves s)
unfolding run
run-Within [] s = λ c h. h
run-Within (move ∷ moves) s = OnOk-bind (Within s) (apply_move s move) _ λ next e.
    OnOk-weaken (Within next) (Within s) (run moves next) (run-Within moves next)
      λ s' w c h. Loses-Within s next (OnOk-at (Loses s) _ (apply_move-Loses move s) e) c (w c h)

-- A right that is not held can be exercised after no sequence of events: the castle is refused, because
-- the right is not held or because it is not the turn of its side.
pub run-lost :
    (moves : List Move) (s s' : State) (right : Right)
    → run moves s ≡ ok s'
    → has (letter right) (held s.rights) ≡ false
    → apply_castle right s'
      ≡ err (if side_eq (side_of right) s'.side_to_move then king_unmoved_required else malformed)
unfolding apply_castle
run-lost moves s s' right h lost = elim (Bool-cases (side_eq (side_of right) s'.side_to_move)) [
  | inl e ↦ rw (e, gone) refl
  | inr e ↦ rw e refl
]
  where
    gone : has (letter right) (held s'.rights) ≡ false
    gone = elim (Bool-cases (has (letter right) (held s'.rights))) [
      | inl e ↦ cc (OnOk-at (Within s) _ (run-Within moves s) h (letter right) e, lost)
      | inr e ↦ e
    ]

run-grammar :
    (moves : List Move) (s : State)
    → grammar_ok s.rights ≡ true
    → OnOk (λ s'. grammar_ok s'.rights ≡ true) (run moves s)
unfolding run
run-grammar [] s g = g
run-grammar (move ∷ moves) s g =
    OnOk-bind (λ s'. grammar_ok s'.rights ≡ true) (apply_move s move) _
      λ next e.
        let loses = OnOk-at (Loses s) _ (apply_move-Loses move s) e in
        run-grammar moves next
          (subst (λ r. grammar_ok r ≡ true) (sym loses.1) (canonical-grammar_ok _))

-- For canonical rights at the start, no sequence of events regains a right, and the rights stay
-- canonical.
pub run-rights :
    (moves : List Move) (s s' : State)
    → grammar_ok s.rights ≡ true
    → run moves s ≡ ok s'
    → (grammar_ok s'.rights ≡ true)
      × ((c : ℕ) → has c (held s'.rights) ≡ true → has c (held s.rights) ≡ true)
run-rights moves s s' g h = (
  OnOk-at (λ t. grammar_ok t.rights ≡ true) _ (run-grammar moves s g) h,
  OnOk-at (Within s) _ (run-Within moves s) h,
)
