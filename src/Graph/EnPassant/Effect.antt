-- ===== src/Graph/EnPassant/Effect.antt =====
-- What an en passant capture of graph/en_passant.py needs and what it does.
use openchess.Base.{
  &&-eq-true, ==→eq, Bool, OnOk, OnOk-at, OnOk-bind, Text, [], ap, arith, codes, false,
  if◌then◌else◌, not, ok, or_else, or_else-eq-ok, refl, require, require-eq-ok, some, sym, text_eq,
  text_eq_sound, true, ◌==◌, ◌||◌, ◌∙◌, ◌∷◌, ◌≡◌, ◌≤◌,
}
use openchess.Graph.EnPassant.Read.{square_ok}
use openchess.Graph.Fen.Rules.{distance}
use mathlib.Core.Path.{subst}
use openchess.Chess.Castling.{Side, white, black}
use openchess.Chess.Castling.Apply.{Board, occupied_on, stands, vacate}
use openchess.Chess.Castling.Board.{stands-put, stands-vacate}
use openchess.Graph.EnPassant.{
  State, target_malformed, capture_precondition, target_inconsistent, pinned_capture,
  stop_iteration, target_grammar_ok, other_side, target_rank, mover_rank, piece_of, first_code,
  second_code, attacked_by,
}
use openchess.Graph.EnPassant.Move.{
  capture, captured_board, captured_square, may_capture, square_of,
}

-- What a capture that succeeds had before it, and what it leaves.
pub record Captures (target : Text) (occ : Board) (side : Side) (from to : Text) (s : State)
    : Type 0 where
  pub grammar : target_grammar_ok target ≡ true
  pub named : text_eq target (codes "-") ≡ false
  pub vacant : occupied_on occ target ≡ false
  pub opposed : second_code target ≡ target_rank (other_side side)
  pub victim : stands (captured_square target side) (piece_of (other_side side) b'p') occ ≡ true
  pub arrives : to ≡ target
  pub rank : second_code from ≡ mover_rank side
  pub beside : distance (first_code from) (first_code target) ≡ 1
  pub mover : stands from (piece_of side b'p') occ ≡ true
  pub king : Text
  pub found : square_of (piece_of side b'k') (captured_board target occ side from to) ≡ some king
  pub safe : attacked_by (captured_board target occ side from to) king (other_side side) ≡ false
  pub result :
      record {
        ep_target = codes "-";
        occupied = captured_board target occ side from to;
        side_to_move = other_side side;
      }
      ≡ s

-- A square that is read is its two characters.
pub square_ok-codes :
    (from : Text)
    → square_ok from ≡ true
    → (from ≡ (first_code from ∷ (second_code from ∷ [])))
      × (97 ≤ first_code from)
      × (first_code from ≤ 104)
unfolding square_ok
square_ok-codes (f ∷ (r ∷ [])) h = (refl, ground arith, ground arith)
square_ok-codes [] h = cc
square_ok-codes (f ∷ []) h = cc
square_ok-codes (f ∷ (r ∷ (c ∷ s))) h = cc

not-eq-true : (b : Bool) → not b ≡ true → b ≡ false
not-eq-true true h = cc
not-eq-true false h = refl

pub capture-Captures :
    (target : Text) (occ : Board) (side : Side) (from to : Text)
    → OnOk (Captures target occ side from to) (capture target occ side from to)
unfolding capture
capture-Captures target occ side from to =
    let P = Captures target occ side from to in
    let after = captured_board target occ side from to in
    OnOk-bind P (require (target_grammar_ok target) target_malformed) _ λ _ g.
      OnOk-bind P (require (not (text_eq target (codes "-"))) capture_precondition) _ λ _ n.
        OnOk-bind P (require (not (occupied_on occ target)) target_inconsistent) _ λ _ v.
          OnOk-bind P
            (require (second_code target == target_rank (other_side side)) target_inconsistent) _
            λ _ o.
              OnOk-bind P
                (require
                  (stands (captured_square target side) (piece_of (other_side side) b'p') occ)
                  target_inconsistent)
                _
                λ _ p.
                  OnOk-bind P (require (may_capture target occ side from to) capture_precondition) _
                    λ _ m.
                      OnOk-bind P (or_else stop_iteration (square_of (piece_of side b'k') after)) _
                        λ king k.
                          OnOk-bind P
                            (require (not (attacked_by after king (other_side side)))
                              pinned_capture)
                            (λ _. ok (record {
                              ep_target = codes "-";
                              occupied = after;
                              side_to_move = other_side side;
                            }))
                            λ _ a.
                              let may = &&-eq-true _ _ (require-eq-ok _ _ m) in
                              let at = &&-eq-true _ _ may.1 in
                              let near = &&-eq-true _ _ at.1 in
                              record {
                                grammar = require-eq-ok _ _ g;
                                named = not-eq-true _ (require-eq-ok _ _ n);
                                vacant = not-eq-true _ (require-eq-ok _ _ v);
                                opposed = ==→eq _ _ (require-eq-ok _ _ o);
                                victim = require-eq-ok _ _ p;
                                arrives = text_eq_sound _ _ may.0;
                                rank = ==→eq _ _ at.0;
                                beside = ==→eq _ _ near.0;
                                mover = near.1;
                                king = king;
                                found = or_else-eq-ok _ _ k;
                                safe = not-eq-true _ (require-eq-ok _ _ a);
                                result = refl;
                              }

pub captured-apart :
    (target : Text) (side : Side)
    → second_code target ≡ target_rank (other_side side)
    → text_eq (captured_square target side) target ≡ false
unfolding text_eq
captured-apart [] side e = refl
captured-apart (f ∷ []) side e = ground arith
captured-apart (f ∷ (r ∷ t)) white e = ground arith
captured-apart (f ∷ (r ∷ t)) black e = ground arith

-- A capture that succeeds ends on the target with the pawn of the mover, and empties the square that
-- it comes from and that of the captured pawn, which is not the target; every other square is as it
-- was. The king of the mover is not attacked on the board that results.
pub capture-effect :
    (target : Text) (occ : Board) (side : Side) (from to : Text) (s : State) (square token : Text)
    → capture target occ side from to ≡ ok s
    → (to ≡ target)
      × (stands square token s.occupied ≡ (
          if text_eq to square
          then text_eq (piece_of side b'p') token
          else if text_eq square from || text_eq square (captured_square target side)
          then false
          else stands square token occ))
      × (text_eq (captured_square target side) target ≡ false)
      × ((king : Text) × (square_of (piece_of side b'k') s.occupied ≡ some king)
          × (attacked_by s.occupied king (other_side side) ≡ false))
capture-effect target occ side from to s square token h =
    let c =
      OnOk-at (Captures target occ side from to) _ (capture-Captures target occ side from to) h in
    let board = ap (λ (t : State). t.occupied) c.result in
    let victim = captured_square target side in
    (
      c.arrives,
      ap (stands square token) (sym board)
          ∙ stands-put to (piece_of side b'p') square token (vacate from victim occ)
          ∙ ap (λ b. if text_eq to square then text_eq (piece_of side b'p') token else b)
              (stands-vacate from victim square token occ),
      captured-apart target side c.opposed,
      (
        c.king,
        subst (λ b. square_of (piece_of side b'k') b ≡ some c.king) board c.found,
        subst (λ b. attacked_by b c.king (other_side side) ≡ false) board c.safe,
      ),
    )
