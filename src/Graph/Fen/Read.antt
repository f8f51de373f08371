-- ===== src/Graph/Fen/Read.antt =====
-- The grammar part of `parse_fen` of graph/fen.py, up to the position rules.
use openchess.Base.{
  Bool, List, Option, Text, [], codes, false, if◌then◌else◌, leb, length, none, not, some, text_eq,
  text_in, true, ℕ, ◌&&◌, ◌*◌, ◌++◌, ◌+◌, ◌-◌, ◌==◌, ◌||◌, ◌∷◌,
}
use openchess.Python.Dumps.{decimal}
use openchess.Chess.Castling.{grammar_ok, held, has}
use openchess.Base.Maybe.{◌>>=◌, ◌>>◌, guard}
use openchess.Graph.Fen.{Board, Position, split}

-- the digits of `empty_run_digits`
unfoldable pub is_run : ℕ → Bool
is_run c = leb b'1' c && leb c b'8'

-- One rank from a file on, with `prev_digit`: a run of empty squares, or a piece.
unfoldable pub read_rank : ℕ → ℕ → Bool → Text → Option Board
read_rank rank f prev_digit [] = do guard (f == 8); some []
read_rank rank f prev_digit (ch ∷ s) = do
  let digit = is_run ch
  guard (if digit then not prev_digit else has ch (codes "pnbrqkPNBRQK"))
  rest ← read_rank rank (if digit then f + (ch - 48) else f + 1) digit s
  some (if digit then rest else (record { file = f; rank = rank; piece = ch } ∷ rest))

-- The ranks, of which the first has the number that is given.
unfoldable pub read_ranks : ℕ → List Text → Option Board
read_ranks rank [] = some []
read_ranks rank (t ∷ ts) = do
  row ← read_rank rank 0 false t
  rest ← read_ranks (rank - 1) ts
  some (row ++ rest)

unfoldable pub read_placement : Text → Option Board
read_placement placement = do
  let rank_list = split b'/' placement
  guard (length rank_list == 8)
  read_ranks 8 rank_list

-- `int(value)` of decimal digits
unfoldable pub digits_value : ℕ → Text → ℕ
digits_value n [] = n
digits_value n (c ∷ s) = digits_value (n * 10 + (c - 48)) s

unfoldable pub digits_only : Text → Bool
digits_only [] = true
digits_only (c ∷ s) = (leb b'0' c && leb c b'9') && digits_only s

-- The castling field: none, or letters in order and without duplicates.
unfoldable pub read_rights : Text → Option Text
read_rights castling = do guard (grammar_ok castling); some (held castling)

-- The en passant field: none, or a file and a rank of the contract.
unfoldable pub read_ep : Text → Option (Option (ℕ × ℕ))
read_ep (c ∷ []) = do guard (c == b'-'); some none
read_ep (f ∷ (r ∷ [])) = do
  guard ((leb b'a' f && leb f b'h') && ((r == b'3') || (r == b'6')))
  some (some (f, r))
read_ep _ = none

-- `int_limit` stands for the interpreter's limit on the digits that `int` reads.
module _ (int_limit : ℕ) where
  -- A counter field with its least value.
  unfoldable pub read_counter : ℕ → Text → Option ℕ
  read_counter least value = do
    guard (not (text_eq value []) && digits_only value)
    guard (leb (length value) int_limit)
    let number = digits_value 0 value
    guard (text_eq value (decimal number))
    guard (leb least number)
    some number

  abbrev pub read_parts : List Text → Option Position
  read_parts (placement ∷ (color ∷ (castling ∷ (ep ∷ (half ∷ (full ∷ [])))))) = do
    board ← read_placement placement
    guard (text_in color (codes "w" ∷ (codes "b" ∷ [])))
    half_i ← read_counter 0 half
    full_i ← read_counter 1 full
    rights ← read_rights castling
    ep_square ← read_ep ep
    some (record {
      board = board;
      color = color;
      rights = rights;
      ep_square = ep_square;
      half = half_i;
      full = full_i;
    })
  read_parts _ = none

  -- `parse_fen` up to the position rules; nothing else raises `malformed_fen`
  unfoldable pub read_fields : Text → Option Position
  read_fields fen = do let parts = split b' ' fen; guard (not (text_in [] parts)); read_parts parts
