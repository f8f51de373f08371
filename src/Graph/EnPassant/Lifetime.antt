-- ===== src/Graph/EnPassant/Lifetime.antt =====
-- How long an en passant target of graph/en_passant.py lives.
use openchess.Base.{
  &&-eq-true, ==→eq, Bool, Bool-cases, OnOk, OnOk-at, OnOk-bind, OnOk-weaken, Text, [], arith,
  codes, false, if◌then◌else◌, inl, inr, ok, or_else, or_else-eq-ok, refl, some, text_eq,
  text_eq_comm, text_eq_refl, text_eq_sound, true, ◌||◌, ◌∙◌, ◌∷◌, ◌≡◌, ◌⊎◌,
}
use openchess.Chess.Castling.Apply.{vacate, stands}
use openchess.Graph.EnPassant.Read.{square_ok}
use openchess.Chess.Castling.Board.{stands-put}
use mathlib.Core.Path.{subst, sym, ap}
use openchess.Chess.Castling.{Side, white, black}
use openchess.Graph.EnPassant.{
  ep_capture, quiet, State, Ply, pawn_advance, other_side, target_malformed, first_code,
  second_code, from_rank, to_rank, target_rank, MoveType, mover_rank, Board, piece_of,
}
use openchess.Graph.EnPassant.Move.{
  apply_ply, relocate, token_on, two_square_advance, captured_square,
}
use openchess.Graph.EnPassant.Effect.{capture-Captures, Captures, square_ok-codes, capture-effect}

-- The move was the advance of a pawn by two squares over the target.
pub record Advances (side : Side) (m : Ply) (target : Text) : Type 0 where
  pub advance : m.kind ≡ pawn_advance
  pub file : first_code m.from ≡ first_code m.to
  pub start : second_code m.from ≡ from_rank side
  pub end : second_code m.to ≡ to_rank side
  pub passed : target ≡ (first_code m.to ∷ (target_rank side ∷ []))

-- The piece that a move took from the board before stands where it arrived.
record Arrives (occ : Board) (m : Ply) (occ' : Board) : Type 0 where
  pub piece : Text
  pub taken : token_on m.from occ ≡ some piece
  pub placed : (token : Text) → stands m.to token occ' ≡ text_eq piece token

-- After a move the target is none, unless the move was an advance over it.
Targeted : Side → Board → Ply → State → Type 0
Targeted side occ m s =
    (s.side_to_move ≡ other_side side)
    × ((s.ep_target ≡ codes "-") ⊎ (Advances side m s.ep_target × Arrives occ m s.occupied))

advance-of :
    (token : Text) (side : Side) (m : Ply)
    → two_square_advance m.kind token side m.from m.to ≡ true
    → Advances side m (first_code m.to ∷ (target_rank side ∷ []))
advance-of token side m e =
    let parts = advanced m.kind refl e in
    record { advance = parts.0; file = parts.1; start = parts.2; end = parts.3; passed = refl }
  where
    advanced :
        (kind : MoveType)
        → m.kind ≡ kind
        → two_square_advance kind token side m.from m.to ≡ true
        → (m.kind ≡ pawn_advance)
          × (first_code m.from ≡ first_code m.to)
          × (second_code m.from ≡ from_rank side)
          × (second_code m.to ≡ to_rank side)
    advanced pawn_advance k h =
        let at = &&-eq-true _ _ (&&-eq-true _ _ h).1 in
        let ranks = &&-eq-true _ _ at.1 in (k, ==→eq _ _ at.0, ==→eq _ _ ranks.0, ==→eq _ _ ranks.1)
    advanced ep_capture k h = cc
    advanced quiet k h = cc

relocate-Targeted :
    (s : State) (m : Ply)
    → OnOk (Targeted s.side_to_move s.occupied m) (relocate m.kind s m.from m.to)
unfolding relocate Targeted
relocate-Targeted s m =
    let side = s.side_to_move in
    OnOk-bind (Targeted side s.occupied m) (or_else target_malformed (token_on m.from s.occupied)) _
      λ token found. elim (Bool-cases (two_square_advance m.kind token side m.from m.to)) [
        | inl e ↦ (
          refl,
          rw e (
              inr (
                advance-of token side m e,
                record {
                  piece = token;
                  taken = or_else-eq-ok _ _ found;
                  placed = λ t.
                      stands-put m.to token m.to t (vacate m.from m.from s.occupied)
                      ∙ rw (text_eq_refl m.to) refl;
                },
              )),
        )
        | inr e ↦ (refl, rw e (inl refl))
      ]

apply_ply-Targeted :
    (s : State) (kind : MoveType) (from to : Text)
    → let m : Ply = record { kind = kind; from = from; to = to } in
      OnOk (Targeted s.side_to_move s.occupied m) (apply_ply s m)
unfolding apply_ply Targeted
apply_ply-Targeted s pawn_advance from to =
    relocate-Targeted s (record { kind = pawn_advance; from = from; to = to })
apply_ply-Targeted s quiet from to =
    relocate-Targeted s (record { kind = quiet; from = from; to = to })
apply_ply-Targeted s ep_capture from to =
    OnOk-weaken (Captures s.ep_target s.occupied s.side_to_move from to)
      (Targeted s.side_to_move s.occupied (record { kind = ep_capture; from = from; to = to })) _
      (capture-Captures s.ep_target s.occupied s.side_to_move from to)
      λ t c. (
        sym (ap (λ (u : State). u.side_to_move) c.result),
        inl (sym (ap (λ (u : State). u.ep_target) c.result)),
      )

same_rank : (side : Side) → mover_rank (other_side side) ≡ to_rank side
same_rank white = refl
same_rank black = refl

other_side-twice : (side : Side) → other_side (other_side side) ≡ side
other_side-twice white = refl
other_side-twice black = refl

captured-arrived :
    (side : Side) (m : Ply) (target : Text)
    → square_ok m.to ≡ true
    → Advances side m target
    → captured_square target (other_side side) ≡ m.to
captured-arrived side m target square a = rw a.passed (
    ap (λ r. first_code m.to ∷ (r ∷ [])) (same_rank side ∙ sym a.end)
    ∙ sym (square_ok-codes m.to square).0)

emptied :
    (a b c x y : Bool)
    → a ≡ false
    → c ≡ true
    → (if a then x else if b || c then false else y) ≡ false
emptied a b c x y h k = ground arith

-- A capture that succeeds right after a move to a square follows the advance of a pawn by two squares:
-- the piece that moved was a pawn of the side that moved, and it stands where it arrived; the capture
-- ends on the square that this pawn passed, and after it no piece stands where the pawn arrived.
pub capture-follows :
    (s s' s'' : State) (m : Ply) (from to token : Text)
    → square_ok m.to ≡ true
    → apply_ply s m ≡ ok s'
    → apply_ply s' (record { kind = ep_capture; from = from; to = to }) ≡ ok s''
    → Advances s.side_to_move m to
      × (token_on m.from s.occupied ≡ some (piece_of s.side_to_move b'p'))
      × (stands m.to (piece_of s.side_to_move b'p') s'.occupied ≡ true)
      × (stands m.to token s''.occupied ≡ false)
unfolding apply_ply Targeted
capture-follows s s' s'' m from to token square h e =
    let side = s.side_to_move in
    let t = OnOk-at (Targeted side s.occupied m) _ (apply_ply-Targeted s m.kind m.from m.to) h in
    let needs =
      OnOk-at (Captures s'.ep_target s'.occupied s'.side_to_move from to) _
        (capture-Captures s'.ep_target s'.occupied s'.side_to_move from to) e in
    let effect = capture-effect s'.ep_target s'.occupied s'.side_to_move from to s'' m.to token e in
    elim t.1 [
      | inl none_left ↦
          absurd
            (cc (needs.named, text_eq_refl (codes "-"), ap (λ x. text_eq x (codes "-")) none_left))
      | inr (a, arrived) ↦
          let gone : captured_square s'.ep_target s'.side_to_move ≡ m.to =
            rw t.0 (captured-arrived side m s'.ep_target square a) in
          let own : piece_of (other_side s'.side_to_move) b'p' ≡ piece_of side b'p' =
            ap (λ i. piece_of i b'p') (ap other_side t.0 ∙ other_side-twice side) in
          let there : stands m.to (piece_of side b'p') s'.occupied ≡ true =
            subst (λ q. stands q (piece_of side b'p') s'.occupied ≡ true) gone
              (subst
                (λ i. stands (captured_square s'.ep_target s'.side_to_move) i s'.occupied ≡ true)
                own needs.victim) in
          let pawn : arrived.piece ≡ piece_of side b'p' =
            text_eq_sound _ _ (sym (arrived.placed (piece_of side b'p')) ∙ there) in
          let apart : text_eq to m.to ≡ false =
            text_eq_comm to m.to
            ∙ subst (λ q. text_eq q to ≡ false) gone
                (subst (λ q. text_eq (captured_square s'.ep_target s'.side_to_move) q ≡ false)
                  (sym needs.arrives) effect.2) in
          let at : text_eq m.to (captured_square s'.ep_target s'.side_to_move) ≡ true =
            rw gone (text_eq_refl m.to) in
          (
            subst (λ x. Advances side m x) (sym needs.arrives) a,
            arrived.taken ∙ ap some pawn,
            there,
            effect.1 ∙ emptied _ (text_eq m.to from) _ _ _ apart at,
          )
    ]
