-- ===== src/Graph/Fen.antt =====
-- FEN (graph/fen.py): boards, positions, and the texts of the fields. The tables are those of
-- data/contracts/fen.yaml, board and placement.
pub mod Read
pub mod Emit
pub mod Row
pub mod RoundTrip
pub mod Attack
pub mod Rules
pub mod Parse
pub mod Sight
pub mod Unseen
use openchess.Base.{List, Option, Text, [], if◌then◌else◌, none, some, ℕ, ◌&&◌, ◌++◌, ◌==◌, ◌∷◌}

-- The classes that `parse_fen` raises.
pub data Failure : Type 0 where
  malformed_fen impossible_position : Failure

-- One entry of the dict `board`: files count from 0 and ranks from 1, a piece is its letter.
pub record Placed : Type 0 where
  pub file : ℕ
  pub rank : ℕ
  pub piece : ℕ

abbrev pub Board : Type 0
Board = List Placed

-- `board.get((f, r))`; no two entries of a board that is read are of the same square
unfoldable pub get : ℕ → ℕ → Board → Option ℕ
get f r [] = none
get f r (p ∷ ps) =
    let rest = get f r ps in if (p.file == f) && (p.rank == r) then some p.piece else rest

-- The tuple that `parse_fen` returns; an en passant square is its two characters.
pub record Position : Type 0 where
  pub board : Board
  pub color : Text
  pub rights : Text
  pub ep_square : Option (ℕ × ℕ)
  pub half : ℕ
  pub full : ℕ

-- The first part of a text, and the parts after it.
unfoldable pub split_first : ℕ → Text → Text × List Text
split_first sep [] = ([], [])
split_first sep (c ∷ s) =
    let rest = split_first sep s in if c == sep then ([], rest.0 ∷ rest.1) else (c ∷ rest.0, rest.1)

-- `s.split(sep)`
abbrev pub split : ℕ → Text → List Text
split sep s = let parts = split_first sep s in parts.0 ∷ parts.1

-- `sep.join(parts)`
unfoldable pub join : ℕ → List Text → Text
join sep [] = []
join sep (part ∷ []) = part
join sep (part ∷ (next ∷ parts)) = part ++ (sep ∷ join sep (next ∷ parts))
