-- ===== src/Graph/Fen/Unseen.antt =====
-- The position rule of graph/fen.py on the king of the side that is not to move.
use openchess.Base.{
  All, Bool, List, OnOk, OnOk-always, OnOk-at, OnOk-bind, Text, [], arith, false, if◌then◌else◌,
  not, ok, or_else, or_else-eq-ok, refl, require, require-eq-ok, some, sym, true, ℕ, ◌==◌, ◌||◌,
  ◌∷◌, ◌≡◌,
}
use mathlib.Core.Path.{subst}
use openchess.Python.Values.{Value, as_text}
use openchess.Graph.Fen.{Board, Position, impossible_position, malformed_fen}
use openchess.Graph.Fen.Attack.{
  Square, Delta, step, walk, any, attack, rook_directions, bishop_directions, sees, straight,
  diagonal, leaper_attacks,
}
use openchess.Graph.Fen.Read.{read_fields}
use openchess.Graph.Fen.Rules.{
  those, only, adjacent, back_pawn, feasible, is_upper, all_at_home, ep_consistent, white_to_move,
  check_position, parse_fen,
}
use openchess.Graph.Fen.Sight.{Sees, Moving, walk_iff}

-- From the squares next to the king on, no wanted piece is the first in the direction.
unfoldable pub Unseen : Board → Text → Square → Delta → Type 0
Unseen board want king d = (f r : ℕ) → step king d ≡ some (f, r) → ¬ (Sees board want d f r)

or-eq-false : (a b : Bool) → (a || b) ≡ false → (a ≡ false) × (b ≡ false)
or-eq-false true b h = cc
or-eq-false false b h = (refl, h)

any-Unseen :
    (board : Board) (want : Text) (king : Square) (ds : List Delta)
    → All Moving ds
    → any (λ d. walk 8 board want d (step king d)) ds ≡ false
    → All (Unseen board want king) ds
unfolding any Unseen
any-Unseen board want king [] m h = tt
any-Unseen board want king (d ∷ ds) (m, ms) h =
    let parts = or-eq-false (walk 8 board want d (step king d)) _ h in
    (
      λ f r e sight.
          let reached : walk 8 board want d (step king d) ≡ true =
            subst (λ s. walk 8 board want d s ≡ true) (sym e)
              ((walk_iff board want d 8 f r m (omega arith)).1 sight) in
          cc (reached, parts.0),
      any-Unseen board want king ds ms parts.1,
    )

attack-Unseen :
    (king : Square) (board : Board) (white : Bool)
    → attack king board white ≡ false
    → All (Unseen board (straight white) king) rook_directions
      × All (Unseen board (diagonal white) king) bishop_directions
unfolding attack Moving
attack-Unseen king board white h =
    let sliders =
      or-eq-false (leaper_attacks king board white)
        (sees board (straight white) king rook_directions
          || sees board (diagonal white) king bishop_directions)
        h in
    let both =
      or-eq-false (sees board (straight white) king rook_directions)
        (sees board (diagonal white) king bishop_directions) sliders.1 in
    (
      any-Unseen board (straight white) king rook_directions (tt, (tt, (tt, (tt, tt)))) both.0,
      any-Unseen board (diagonal white) king bishop_directions (tt, (tt, (tt, (tt, tt)))) both.1,
    )

-- The only king of the side that is not to move, which no slider of the other side sees.
pub record Sheltered (p : Position) : Type 0 where
  pub king : Square
  pub found :
      only (those (λ c. if white_to_move p then c == b'k' else c == b'K') p.board) ≡ some king
  pub lines : All (Unseen p.board (straight (white_to_move p)) king) rook_directions
  pub diagonals : All (Unseen p.board (diagonal (white_to_move p)) king) bishop_directions

not-eq-true : (b : Bool) → not b ≡ true → b ≡ false
not-eq-true true h = cc
not-eq-true false h = refl

chosen :
    (p : Position) (wk bk : Square) (white : Bool)
    → white_to_move p ≡ white
    → only (those (λ c. c == b'K') p.board) ≡ some wk
    → only (those (λ c. c == b'k') p.board) ≡ some bk
    → only (those (λ c. if white_to_move p then c == b'k' else c == b'K') p.board)
      ≡ some (if white_to_move p then bk else wk)
chosen p wk bk true e w b = rw e b
chosen p wk bk false e w b = rw e w

check_position-Sheltered : (p : Position) → OnOk (λ _. Sheltered p) (check_position p)
unfolding check_position
check_position-Sheltered p =
    let P = λ (_ : Unit {0}). Sheltered p in
    let white = white_to_move p in
    OnOk-bind P (or_else impossible_position (only (those (λ c. c == b'K') p.board))) _ λ wk w.
      OnOk-bind P (or_else impossible_position (only (those (λ c. c == b'k') p.board))) _ λ bk b.
        OnOk-bind P (require (not (adjacent wk bk)) impossible_position) _ λ _ _.
          OnOk-bind P (require (not (back_pawn p.board)) impossible_position) _ λ _ _.
            OnOk-bind P (require (feasible (those is_upper p.board)) impossible_position) _ λ _ _.
              OnOk-bind P
                (require (feasible (those (λ c. not (is_upper c)) p.board)) impossible_position) _
                λ _ _.
                  OnOk-bind P
                    (require (not (attack (if white then bk else wk) p.board white))
                      impossible_position)
                    _
                    λ _ a.
                      OnOk-bind P (require (all_at_home p.board p.rights) impossible_position) _
                        λ _ _.
                          OnOk-always P
                            (require (ep_consistent p.board white p.half p.ep_square)
                              impossible_position)
                            λ _.
                              let unseen =
                                attack-Unseen (if white then bk else wk) p.board white
                                  (not-eq-true _ (require-eq-ok _ _ a)) in
                              record {
                                king = if white then bk else wk;
                                found =
                                    chosen p wk bk white refl
                                      (or_else-eq-ok impossible_position _ w)
                                      (or_else-eq-ok impossible_position _ b);
                                lines = unseen.0;
                                diagonals = unseen.1;
                              }

module _ (int_limit : ℕ) where
  -- In a position that is read the side that is not to move has one king, and no slider of the other
  -- side sees it, along a line or a diagonal, however far away.
  pub parse_fen-Sheltered :
      (fen : Value) (p : Position) → parse_fen int_limit fen ≡ ok p → Sheltered p
  unfolding parse_fen
  parse_fen-Sheltered fen p h =
      OnOk-at Sheltered (parse_fen int_limit fen)
        (OnOk-bind Sheltered (or_else malformed_fen (as_text fen)) _ λ t _.
          OnOk-bind Sheltered (or_else malformed_fen (read_fields int_limit t)) _ λ q _.
            OnOk-bind Sheltered (check_position q) (λ _. ok q)
              λ u e. OnOk-at (λ _. Sheltered q) (check_position q) (check_position-Sheltered q) e)
        h
