-- ===== src/Chess/Castling/Board.antt =====
-- What a castle of tools/castling_runtime.py does to the position.
use mathlib.Core.Path.{subst, ap}
use openchess.Base.{
  refl, ◌≡◌, true, false, Bool, Text, ℕ, Bool-cases, inl, inr, ◌∷◌, [], ok, if◌then◌else◌, text_eq,
  ◌||◌, ◌&&◌, not, text_eq_comm, text_eq_sound, sym, ◌∙◌, OnOk, OnOk-bind, OnOk-at, require, codes,
  require-eq-ok,
}
use openchess.Chess.Castling.{
  Right, State, course_of, side_of, side_eq, letter, has, held, king_loss, malformed,
  king_unmoved_required, rights_inconsistent, path_blocked, through_check,
}
use openchess.Chess.Castling.Apply.{
  Board, stands, vacate, put, king_of, rook_of, at_home, clear, unattacked, castled, apply_castle,
}
use openchess.Chess.Castling.Rights.{has-after}

-- A test tells apart two squares on which it differs.
differ : (f : Text → Bool) (a b : Text) (x : Bool) → f a ≡ x → f b ≡ not x → text_eq a b ≡ false
differ f a b x p q = elim (Bool-cases (text_eq a b)) [
  | inl e ↦ absurd (both x (subst (λ i. f i ≡ x) (text_eq_sound a b e) p) q)
  | inr e ↦ e
]
  where
    both : (y : Bool) → f b ≡ y → f b ≡ not y → ⊥
    both true h k = cc
    both false h k = cc

-- A change on one square shows on this one only.
pub stands-put :
    (square token other t : Text) (occ : Board)
    → stands other t (put square token occ)
      ≡ (if text_eq square other then text_eq token t else stands other t occ)
unfolding stands put
stands-put square token other t [] = refl
stands-put square token other t ((sq, tok) ∷ occ) = elim (Bool-cases (text_eq sq square)) [
  | inl e ↦
      let same : text_eq sq other ≡ text_eq square other =
        ap (λ i. text_eq i other) (text_eq_sound sq square e) in
      rw (e, same)
        (elim (Bool-cases (text_eq square other)) [ inl q ↦ rw q refl | inr q ↦ rw q refl ])
  | inr e ↦ elim (Bool-cases (text_eq sq other)) [
    | inl q ↦
        let apart : text_eq square other ≡ false =
          ap (λ i. text_eq square i) (sym (text_eq_sound sq other q))
          ∙ text_eq_comm square sq
          ∙ e in
        rw (e, q, apart) refl
    | inr q ↦ rw (e, q, stands-put square token other t occ) refl
  ]
]

pub stands-vacate :
    (king rook square t : Text) (occ : Board)
    → stands square t (vacate king rook occ)
      ≡ (if text_eq square king || text_eq square rook then false else stands square t occ)
unfolding stands vacate
stands-vacate king rook square t [] =
    elim (Bool-cases (text_eq square king || text_eq square rook)) [
      | inl q ↦ rw q refl
      | inr q ↦ rw q refl
    ]
stands-vacate king rook square t ((sq, tok) ∷ occ) =
    let home = λ (i : Text). text_eq i king || text_eq i rook in
    let rest = stands-vacate king rook square t occ in
    elim (Bool-cases (text_eq sq king || text_eq sq rook)) [
      | inl e ↦ elim (Bool-cases (text_eq square king || text_eq square rook)) [
        | inl q ↦ rw (e, rest, q) refl
        | inr q ↦ rw (e, rest, q, differ home sq square true e q) refl
      ]
      | inr e ↦ elim (Bool-cases (text_eq square king || text_eq square rook)) [
        | inl q ↦ rw (e, rest, q, differ home sq square false e q) refl
        | inr q ↦ rw (e, rest, q) refl
      ]
    ]

-- Whether a piece stands on a square after a castle of the right, from what stands there before.
abbrev pub afterwards : Right → State → Text → Text → Bool
afterwards right s square token =
    let p = course_of right in
    if text_eq p.rook_to square
    then text_eq (rook_of (side_of right)) token
    else if text_eq p.king_to square
    then text_eq (king_of (side_of right)) token
    else if text_eq square p.king || text_eq square p.rook
    then false
    else stands square token s.occupied

-- What has passed the tests of a castle.
abbrev Passed : Right → State → State → Type 0
Passed right s s' =
    (castled right s ≡ s')
    × (side_eq (side_of right) s.side_to_move ≡ true)
    × (has (letter right) (held s.rights) ≡ true)
    × (at_home right s ≡ true)
    × (clear right s ≡ true)
    × (unattacked right s ≡ true)

apply_castle-Passed : (right : Right) (s : State) → OnOk (Passed right s) (apply_castle right s)
unfolding apply_castle
apply_castle-Passed right s =
    let P = Passed right s in
    OnOk-bind P (require (side_eq (side_of right) s.side_to_move) malformed) _ λ _ turn.
      OnOk-bind P (require (has (letter right) (held s.rights)) king_unmoved_required) _ λ _ kept.
        OnOk-bind P (require (at_home right s) rights_inconsistent) _ λ _ home.
          OnOk-bind P (require (clear right s) path_blocked) _ λ _ way.
            OnOk-bind P (require (unattacked right s) through_check) _ λ _ safe. (
              refl,
              require-eq-ok _ _ turn,
              require-eq-ok _ _ kept,
              require-eq-ok _ _ home,
              require-eq-ok _ _ way,
              require-eq-ok _ _ safe,
            )

stands-relocated :
    (right : Right) (s : State) (square token : Text)
    → stands square token (castled right s).occupied ≡ afterwards right s square token
stands-relocated right s square token =
    let p = course_of right in
    let side = side_of right in
    stands-put p.rook_to (rook_of side) square token
      (put p.king_to (king_of side) (vacate p.king p.rook s.occupied))
    ∙ ap (λ b. if text_eq p.rook_to square then text_eq (rook_of side) token else b)
        (stands-put p.king_to (king_of side) square token (vacate p.king p.rook s.occupied)
          ∙ ap (λ b. if text_eq p.king_to square then text_eq (king_of side) token else b)
              (stands-vacate p.king p.rook square token s.occupied))

-- A castle that succeeds was the turn of its side and held its right; afterwards the king and the rook
-- stand on their target squares, their home squares are empty, and every other square is as it was;
-- the rights held are those of before, less both of the side; turn and attacks are as they were.
pub apply_castle-effect :
    (right : Right) (s s' : State) (square token : Text) (c : ℕ)
    → apply_castle right s ≡ ok s'
    → (side_eq (side_of right) s.side_to_move ≡ true)
      × (has (letter right) (held s.rights) ≡ true)
      × (stands square token s'.occupied ≡ afterwards right s square token)
      × (has c (held s'.rights) ≡ (
          has c (codes "KQkq")
          && (has c (held s.rights) && not (has c (king_loss (side_of right))))))
      × (s'.attacked ≡ s.attacked)
      × (s'.side_to_move ≡ s.side_to_move)
apply_castle-effect right s s' square token c h =
    let passed = OnOk-at (Passed right s) _ (apply_castle-Passed right s) h in
    subst
      (λ (t : State).
        (side_eq (side_of right) s.side_to_move ≡ true)
        × (has (letter right) (held s.rights) ≡ true)
        × (stands square token t.occupied ≡ afterwards right s square token)
        × (has c (held t.rights) ≡ (
            has c (codes "KQkq")
            && (has c (held s.rights) && not (has c (king_loss (side_of right))))))
        × (t.attacked ≡ s.attacked)
        × (t.side_to_move ≡ s.side_to_move))
      passed.0
      (
        passed.1,
        passed.2,
        stands-relocated right s square token,
        has-after c (held s.rights) (king_loss (side_of right)),
        refl,
        refl,
      )
