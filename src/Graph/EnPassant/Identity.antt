-- ===== src/Graph/EnPassant/Identity.antt =====
-- The identity value of graph/en_passant.py against the captures that `apply` admits.
use openchess.Base.{
  &&-eq-true, Bool-cases, OnOk-at, Option, Result, Text, [], arith, codes, err, false, inl, inr,
  leb, ltb, ltb→le, ltb→lt, none, ok, refl, some, sym, text_eq, text_eq_refl, true, ℕ, ◌+◌, ◌-◌,
  ◌↔◌, ◌∙◌, ◌∷◌, ◌≡◌, ◌≤◌,
}
use openchess.Graph.Fen.Attack.{moved}
use openchess.Chess.Castling.{Side, white}
use mathlib.Core.Path.{subst}
use openchess.Chess.Castling.{Side, white, black}
use openchess.Graph.EnPassant.{
  State, ep_capture, Failure, target_grammar_ok, mover_rank, first_code, second_code, negsuc, pos,
}
use openchess.Graph.EnPassant.Read.{square_ok}
use openchess.Graph.EnPassant.Move.{apply_ply, captures_from, identity_of, succeeds}
use openchess.Graph.EnPassant.Effect.{square_ok-codes, capture-Captures, Captures}

-- A capture onto the target that `apply` admits.
pub record Capturable (s : State) : Type 0 where
  pub from : Text
  pub square : square_ok from ≡ true
  pub after : State
  pub admitted :
      apply_ply s (record { kind = ep_capture; from = from; to = s.ep_target }) ≡ ok after

succeeds-ok : (m : Result Failure State) → succeeds m ≡ true → (t : State) × (m ≡ ok t)
succeeds-ok (ok t) h = (t, refl)
succeeds-ok (err e) h = cc

captures_from-Capturable : (s : State) (o : Option ℕ) → captures_from s o ≡ true → Capturable s
unfolding captures_from square_ok apply_ply
captures_from-Capturable s none h = cc
captures_from-Capturable s (some f) h =
    let parts = &&-eq-true _ _ h in
    let done = succeeds-ok _ parts.1 in
    record {
      from = (97 + f) ∷ (mover_rank s.side_to_move ∷ []);
      square = neighbour f s.side_to_move parts.0;
      after = done.0;
      admitted = done.1;
    }
  where
    neighbour :
        (f : ℕ) (side : Side)
        → leb f 7 ≡ true
        → square_ok ((97 + f) ∷ (mover_rank side ∷ [])) ≡ true
    neighbour f white h = ground arith
    neighbour f black h = ground arith

not-none : (t : Text) → text_eq t (codes "-") ≡ false → codes "-" ≡ t → ⊥
not-none t n e = cc (n, subst (λ u. text_eq u (codes "-") ≡ true) e (text_eq_refl (codes "-")))

identity_of-Capturable :
    (s : State)
    → text_eq s.ep_target (codes "-") ≡ false
    → identity_of s ≡ s.ep_target
    → Capturable s
unfolding identity_of
identity_of-Capturable s n h =
    let fi = first_code s.ep_target - 97 in
    elim (Bool-cases (target_grammar_ok s.ep_target)) [
      | inr g ↦ absurd (not-none s.ep_target n (rw (n, g) at h))
      | inl g ↦ elim (Bool-cases (captures_from s (moved fi (negsuc 0)))) [
        | inl l ↦ captures_from-Capturable s (moved fi (negsuc 0)) l
        | inr l ↦ elim (Bool-cases (captures_from s (moved fi (pos 1)))) [
          | inl r ↦ captures_from-Capturable s (moved fi (pos 1)) r
          | inr r ↦ absurd (not-none s.ep_target n (rw (n, g, l, r) at h))
        ]
      ]
    ]

captures_from-neighbour :
    (s : State) (f : ℕ) (c : Capturable s)
    → first_code c.from ≡ 97 + f
    → second_code c.from ≡ mover_rank s.side_to_move
    → captures_from s (some f) ≡ true
unfolding captures_from apply_ply
captures_from-neighbour s f c e r =
    let codes_ = square_ok-codes c.from c.square in
    let small : leb f 7 ≡ true = ground (arith, codes_.2, e) in
    let named : c.from ≡ ((97 + f) ∷ (mover_rank s.side_to_move ∷ [])) =
      codes_.0 ∙ rw (e, r) refl in
    rw (small, sym named, c.admitted) refl

grammar-file :
    (target : Text)
    → target_grammar_ok target ≡ true
    → text_eq target (codes "-") ≡ false
    → (97 ≤ first_code target) × (first_code target ≤ 104)
unfolding target_grammar_ok
grammar-file target g n = (ground (arith, g, n), ground (arith, g, n))

Capturable-identity_of : (s : State) → Capturable s → identity_of s ≡ s.ep_target
unfolding identity_of apply_ply moved
Capturable-identity_of s c =
    let target = s.ep_target in
    let needs =
      OnOk-at (Captures target s.occupied s.side_to_move c.from target) _
        (capture-Captures target s.occupied s.side_to_move c.from target) c.admitted in
    let fi = first_code target - 97 in
    let bounds = grammar-file target needs.grammar needs.named in
    let own = square_ok-codes c.from c.square in
    elim (Bool-cases (ltb (first_code c.from) (first_code target))) [
      | inl l ↦
          let below = ltb→lt (first_code c.from) (first_code target) l in
          let first : first_code c.from ≡ 97 + (fi - 1) =
            omega (arith, below, needs.beside, bounds, own.1) in
          let positive : ltb 0 fi ≡ true = ground (arith, below, bounds, own.1) in
          rw
            (
              needs.named,
              needs.grammar,
              positive,
              captures_from-neighbour s (fi - 1) c first needs.rank,
            )
            refl
      | inr l ↦
          let above = ltb→le (first_code c.from) (first_code target) l in
          let first : first_code c.from ≡ 97 + (fi + 1) =
            omega (arith, above, needs.beside, bounds) in
          let right = captures_from-neighbour s (fi + 1) c first needs.rank in
          elim (Bool-cases (captures_from s (moved fi (negsuc 0)))) [
            | inl x ↦ rw (needs.named, needs.grammar, x) refl
            | inr x ↦ rw (needs.named, needs.grammar, x, right) refl
          ]
    ]

-- The identity value of a state with a target is this target exactly when `apply` admits a capture
-- onto it from some square.
pub identity_of_iff :
    (s : State)
    → text_eq s.ep_target (codes "-") ≡ false
    → (identity_of s ≡ s.ep_target) ↔ Capturable s
identity_of_iff s n = (identity_of-Capturable s n, Capturable-identity_of s)
