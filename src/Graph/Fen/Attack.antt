-- ===== src/Graph/Fen/Attack.antt =====
-- `_attack` of graph/fen.py, with the deltas of data/contracts/fen.yaml, board.attack.
use openchess.Base.{
  Bool, List, Option, Text, [], false, if◌then◌else◌, leb, ltb, none, some, suc, zero, ℕ, ◌&&◌, ◌+◌,
  ◌-◌, ◌==◌, ◌||◌, ◌∷◌,
}
use openchess.Chess.Castling.{has}
use openchess.Python.Values.{ℤ, pos, negsuc}
use openchess.Base.Maybe.{◌>>=◌}
use openchess.Graph.Fen.{Board, get}

abbrev pub Square : Type 0
Square = ℕ × ℕ

abbrev pub Delta : Type 0
Delta = ℤ × ℤ

-- A coordinate and a delta; none below zero, where no board has an entry.
unfoldable pub moved : ℕ → ℤ → Option ℕ
moved f (pos n) = some (f + n)
moved f (negsuc n) = if ltb n f then some (f - suc n) else none

unfoldable pub step : Square → Delta → Option Square
step (f, r) (df, dr) = do nf ← moved f df; nr ← moved r dr; some (nf, nr)

unfoldable pub opposite : ℤ → ℤ
opposite (pos zero) = pos zero
opposite (pos (suc n)) = negsuc n
opposite (negsuc n) = pos (suc n)

-- `board.get(square) == piece`
unfoldable pub stands : Board → ℕ → Option Square → Bool
stands board piece none = false
stands board piece (some (f, r)) = elim (get f r board) [ some p ↦ p == piece | none ↦ false ]

abbrev pub white_pawn_capture_deltas : List Delta
white_pawn_capture_deltas = (pos 1, pos 1) ∷ ((negsuc 0, pos 1) ∷ [])

abbrev pub black_pawn_capture_deltas : List Delta
black_pawn_capture_deltas = (pos 1, negsuc 0) ∷ ((negsuc 0, negsuc 0) ∷ [])

abbrev pub knight_deltas : List Delta
knight_deltas =
    (pos 1, pos 2)
    ∷ ((pos 2, pos 1)
        ∷ ((pos 2, negsuc 0)
            ∷ ((pos 1, negsuc 1)
                ∷ ((negsuc 0, negsuc 1)
                    ∷ ((negsuc 1, negsuc 0) ∷ ((negsuc 1, pos 1) ∷ ((negsuc 0, pos 2) ∷ [])))))))

abbrev pub rook_directions : List Delta
rook_directions = (pos 1, pos 0) ∷ ((negsuc 0, pos 0) ∷ ((pos 0, pos 1) ∷ ((pos 0, negsuc 0) ∷ [])))

abbrev pub bishop_directions : List Delta
bishop_directions =
    (pos 1, pos 1) ∷ ((pos 1, negsuc 0) ∷ ((negsuc 0, pos 1) ∷ ((negsuc 0, negsuc 0) ∷ [])))

abbrev pub king_deltas : List Delta
king_deltas =
    (pos 1, pos 0)
    ∷ ((pos 1, pos 1)
        ∷ ((pos 0, pos 1)
            ∷ ((negsuc 0, pos 1)
                ∷ ((negsuc 0, pos 0)
                    ∷ ((negsuc 0, negsuc 0) ∷ ((pos 0, negsuc 0) ∷ ((pos 1, negsuc 0) ∷ [])))))))

unfoldable pub any {ℓ} : {A : Type ℓ} → (A → Bool) → List A → Bool
any f [] = false
any f (x ∷ xs) = f x || any f xs

-- The leapers: a piece on a square that one of the deltas leads to.
unfoldable pub leaps : Board → ℕ → Square → List Delta → Bool
leaps board piece square deltas = any (λ d. stands board piece (step square d)) deltas

-- `0 <= nf < len(files) and 1 <= nr <= max_rank`
unfoldable pub inside : ℕ → ℕ → Bool
inside f r = ltb f 8 && (leb 1 r && leb r 8)

-- The walk of a slider, at most as many squares as the fuel.
unfoldable pub walk : ℕ → Board → Text → Delta → Option Square → Bool
walk zero board want d square = false
walk (suc n) board want d none = false
walk (suc n) board want d (some (f, r)) =
    if inside f r
    then elim (get f r board) [
      | some piece ↦ has piece want
      | none ↦ walk n board want d (step (f, r) d)
    ]
    else false

abbrev pub sees : Board → Text → Square → List Delta → Bool
sees board want square directions = any (λ d. walk 8 board want d (step square d)) directions

-- The letter of a piece of one side.
abbrev pub letter_of : Bool → ℕ → ℕ → ℕ
letter_of by_white upper lower = if by_white then upper else lower

-- The pawns, the knights and the king of a side.
unfoldable pub leaper_attacks : Square → Board → Bool → Bool
leaper_attacks square board by_white =
    let pawn_deltas = if by_white then white_pawn_capture_deltas else black_pawn_capture_deltas in
    any
      (λ d. stands board (letter_of by_white b'P' b'p') (step square (opposite d.0, opposite d.1)))
      pawn_deltas
    || (leaps board (letter_of by_white b'N' b'n') square knight_deltas
        || leaps board (letter_of by_white b'K' b'k') square king_deltas)

-- The sliders of a side that move along lines, and along diagonals.
unfoldable pub straight : Bool → Text
straight white = letter_of white b'R' b'r' ∷ (letter_of white b'Q' b'q' ∷ [])

unfoldable pub diagonal : Bool → Text
diagonal white = letter_of white b'B' b'b' ∷ (letter_of white b'Q' b'q' ∷ [])

-- `_attack`
unfoldable pub attack : Square → Board → Bool → Bool
attack square board by_white =
    leaper_attacks square board by_white
    || (sees board (straight by_white) square rook_directions
        || sees board (diagonal by_white) square bishop_directions)
