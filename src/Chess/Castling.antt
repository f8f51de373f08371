-- ===== src/Chess/Castling.antt =====
-- Castling (tools/castling_runtime.py): rights, events and the position data that they touch. The
-- tables are those of data/contracts/castling.yaml.
pub mod Check
pub mod Apply
pub mod Rights
pub mod Runs
pub mod Board
pub mod Entry
use openchess.Base.{
  ℕ, Bool, true, false, ◌&&◌, ◌||◌, not, List, [], ◌∷◌, ◌==◌, if◌then◌else◌, Text, codes, text_eq,
}

-- The failure classes, and `malformed` for `malformed_request` without a class.
pub data Failure : Type 0 where
  malformed rights_malformed rights_inconsistent path_blocked : Failure
  king_unmoved_required through_check : Failure

pub data Side : Type 0 where
  white black : Side

-- `K`, `Q`, `k`, `q`
pub data Right : Type 0 where
  white_short white_long black_short black_long : Right

-- `_side_of`
unfoldable pub side_of : Right → Side
side_of white_short = white
side_of white_long = white
side_of black_short = black
side_of black_long = black

abbrev pub letter : Right → ℕ
letter white_short = b'K'
letter white_long = b'Q'
letter black_short = b'k'
letter black_long = b'q'

unfoldable pub side_eq : Side → Side → Bool
side_eq white white = true
side_eq black black = true
side_eq _ _ = false

-- An event of the castling domain.
pub data Move : Type 0 where
  castle : Right → Move
  king_move : Side → Move
  rook_move_from : Text → Move
  rook_capture_on : Text → Move

-- The declared state fields; `occupied` is a dict from squares to piece tokens.
pub record State : Type 0 where
  pub rights : Text
  pub occupied : List (Text × Text)
  pub attacked : List Text
  pub side_to_move : Side

-- The home squares of a right and its path; the king goes from its home square.
pub record Course : Type 0 where
  pub king : Text
  pub rook : Text
  pub king_to : Text
  pub rook_to : Text
  pub king_transit : List Text
  pub empty_required : List Text

-- `_HOME` and `_PATHS`
abbrev pub course_of : Right → Course
course_of white_short = record {
  king = codes "e1";
  rook = codes "h1";
  king_to = codes "g1";
  rook_to = codes "f1";
  king_transit = codes "f1" ∷ [];
  empty_required = codes "f1" ∷ codes "g1" ∷ [];
}
course_of white_long = record {
  king = codes "e1";
  rook = codes "a1";
  king_to = codes "c1";
  rook_to = codes "d1";
  king_transit = codes "d1" ∷ [];
  empty_required = codes "d1" ∷ codes "c1" ∷ codes "b1" ∷ [];
}
course_of black_short = record {
  king = codes "e8";
  rook = codes "h8";
  king_to = codes "g8";
  rook_to = codes "f8";
  king_transit = codes "f8" ∷ [];
  empty_required = codes "f8" ∷ codes "g8" ∷ [];
}
course_of black_long = record {
  king = codes "e8";
  rook = codes "a8";
  king_to = codes "c8";
  rook_to = codes "d8";
  king_transit = codes "d8" ∷ [];
  empty_required = codes "d8" ∷ codes "c8" ∷ codes "b8" ∷ [];
}

-- `_LOSS_KING`
abbrev pub king_loss : Side → Text
king_loss white = codes "KQ"
king_loss black = codes "kq"

-- `_LOSS_ROOK_FROM` and `_LOSS_CAPTURE_ON`, which are the same table
unfoldable pub rook_loss : Text → Text
rook_loss square =
    if text_eq square (codes "h1")
    then codes "K"
    else if text_eq square (codes "a1")
    then codes "Q"
    else if text_eq square (codes "h8")
    then codes "k"
    else if text_eq square (codes "a8")
    then codes "q"
    else []

-- `c in held`
unfoldable pub has : ℕ → Text → Bool
has c [] = false
has c (d ∷ s) = (c == d) || has c s

unfoldable pub all_in_values : Text → Bool
unfolding has
all_in_values [] = true
all_in_values (c ∷ s) = has c (codes "KQkq") && all_in_values s

-- `len(set(members)) == len(members)`
unfoldable pub no_duplicates : Text → Bool
unfolding has
no_duplicates [] = true
no_duplicates (c ∷ s) = not (has c s) && no_duplicates s

-- `[c for c in ordering if c in held]`
unfoldable pub in_order : Text → Text → Text
unfolding has
in_order [] held = []
in_order (c ∷ cs) held = let rest = in_order cs held in if has c held then c ∷ rest else rest

-- `_grammar_ok` of a str
unfoldable pub grammar_ok : Text → Bool
unfolding all_in_values no_duplicates in_order
grammar_ok rights =
    text_eq rights (codes "-")
    || (not (text_eq rights [])
        && all_in_values rights
        && no_duplicates rights
        && text_eq (in_order (codes "KQkq") rights) rights)

abbrev pub or_none : Text → Text
or_none [] = codes "-"
or_none (c ∷ s) = c ∷ s

-- `_canonical`
unfoldable pub canonical : Text → Text
unfolding in_order
canonical held = or_none (in_order (codes "KQkq") held)

-- `set() if rights == _NONE else set(rights)`
unfoldable pub held : Text → Text
held rights = if text_eq rights (codes "-") then [] else rights

-- `held - set(loss)`
unfoldable pub less : Text → Text → Text
unfolding has
less [] loss = []
less (c ∷ s) loss = let rest = less s loss in if has c loss then rest else c ∷ rest
