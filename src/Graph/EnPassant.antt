-- ===== src/Graph/EnPassant.antt =====
-- En passant (graph/en_passant.py): states, moves and the attacks that a capture may open. The tables
-- are those of data/contracts/en_passant.yaml.
pub mod Move
pub mod Read
pub mod Entry
pub mod Effect
pub mod Lifetime
pub mod Identity
pub mod Counters
use openchess.Base.{
  Bool, Option, Text, [], codes, false, if◌then◌else◌, leb, length, ltb, none, not, some, suc,
  text_eq, true, zero, ℕ, ◌&&◌, ◌+◌, ◌-◌, ◌==◌, ◌||◌, ◌∷◌,
}
use openchess.Python.Dumps.{decimal}
use openchess.Python.Values.{ℤ, pos, negsuc}
use openchess.Chess.Castling.{Side, white, black, has}
use openchess.Chess.Castling.Apply.{Board, occupied_on}
use openchess.Graph.Fen.Attack.{Square, Delta, step, any}
use openchess.Graph.Fen.Rules.{distance}

-- The failure classes, and the exception of `next` on a board without the king, which no state that
-- is read has.
pub data Failure : Type 0 where
  target_malformed target_inconsistent capture_precondition pinned_capture : Failure
  stop_iteration : Failure

pub record State : Type 0 where
  pub ep_target : Text
  pub occupied : Board
  pub side_to_move : Side

pub data MoveType : Type 0 where
  pawn_advance ep_capture quiet : MoveType

-- A move, with its squares.
pub record Ply : Type 0 where
  pub kind : MoveType
  pub from : Text
  pub to : Text

-- `_OTHER`
abbrev pub other_side : Side → Side
other_side white = black
other_side black = white

-- `_SET_ON` and `_MOVER`: rank digits
abbrev pub from_rank : Side → ℕ
from_rank white = b'2'
from_rank black = b'7'

abbrev pub to_rank : Side → ℕ
to_rank white = b'4'
to_rank black = b'5'

abbrev pub target_rank : Side → ℕ
target_rank white = b'3'
target_rank black = b'6'

-- the rank of the capturing pawn, which is that of the captured one
abbrev pub mover_rank : Side → ℕ
mover_rank white = b'5'
mover_rank black = b'4'

abbrev pub side_code : Side → ℕ
side_code white = b'w'
side_code black = b'b'

abbrev pub piece_of : Side → ℕ → Text
piece_of side kind = side_code side ∷ (kind ∷ [])

-- `s[0]` and `s[1]` of a str of two characters
abbrev pub first_code : Text → ℕ
first_code [] = 0
first_code (c ∷ s) = c

abbrev pub second_code : Text → ℕ
second_code (c ∷ (d ∷ s)) = d
second_code _ = 0

-- `(ord(square[0]) - 97, int(square[1]))`
abbrev pub coordinates : Text → Square
coordinates square = (first_code square - 97, second_code square - 48)

-- `_grammar_ok`
unfoldable pub target_grammar_ok : Text → Bool
target_grammar_ok target =
    text_eq target (codes "-")
    || ((length target == 2)
        && ((leb b'a' (first_code target) && leb (first_code target) b'h')
            && ((second_code target == b'3') || (second_code target == b'6'))))

-- `(b > a) - (b < a)`
abbrev pub sign : ℕ → ℕ → ℤ
sign a b = if ltb a b then pos 1 else if ltb b a then negsuc 0 else pos 0

-- `chr(97 + f) + str(r)`
abbrev pub square_name : Square → Text
square_name (f, r) = (97 + f) ∷ decimal r

-- The loop of `_clear`, from a square towards another one on a line with it.
unfoldable pub clear_loop : ℕ → Board → Square → Delta → Option Square → Bool
clear_loop zero occ end d square = false
clear_loop (suc n) occ end d none = false
clear_loop (suc n) occ end d (some square) =
    let rest = clear_loop n occ end d (step square d) in
    if (square.0 == end.0) && (square.1 == end.1)
    then true
    else if occupied_on occ (square_name square)
    then false
    else rest

-- `_clear`, with eight rounds: two squares on a line are at most seven steps apart
unfoldable pub clear_between : Board → Square → Square → Bool
clear_between occ a b =
    let d : Delta = (sign a.0 b.0, sign a.1 b.1) in clear_loop 8 occ b d (step a d)

abbrev pub larger : ℕ → ℕ → ℕ
larger a b = if leb a b then b else a

-- One round of `_attacked`.
unfoldable pub attacks : Board → Square → Side → Text × Text → Bool
attacks occ (f0, r0) by_side (sq, token) =
    let at = coordinates sq in
    let df = distance at.0 f0 in
    let dr = distance at.1 r0 in
    let piece = second_code token in
    (first_code token == side_code by_side)
    && (if piece == b'p'
        then elim by_side [ white ↦ at.1 + 1 == r0 | black ↦ at.1 == r0 + 1 ] && (df == 1)
        else if piece == b'n'
        then ((df == 1) && (dr == 2)) || ((df == 2) && (dr == 1))
        else if piece == b'k'
        then larger df dr == 1
        else ((has piece (codes "rq") && ((df == 0) || (dr == 0)))
            || (has piece (codes "bq") && (df == dr)))
          && (not ((df == 0) && (dr == 0)) && clear_between occ (f0, r0) at))

-- `_attacked`
unfoldable pub attacked_by : Board → Text → Side → Bool
attacked_by occ square by_side = any (attacks occ (coordinates square) by_side) occ
