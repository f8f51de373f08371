-- ===== src/Graph/Fen/Emit.antt =====
-- `emit_fen` of graph/fen.py.
use openchess.Base.{List, Option, Text, [], codes, none, some, suc, zero, ℕ, ◌++◌, ◌+◌, ◌∷◌}
use openchess.Chess.Castling.{or_none}
use openchess.Python.Dumps.{decimal}
use openchess.Graph.Fen.{Board, Position, get, join}

-- `if empty: row += str(empty)`
unfoldable pub flush : ℕ → Text
flush zero = []
flush (suc n) = decimal (suc n)

-- The files of a rank from one on, as many as are left, with the empty squares counted.
unfoldable pub emit_row : Board → ℕ → ℕ → ℕ → ℕ → Text
emit_row board rank zero f empty = flush empty
emit_row board rank (suc n) f empty = elim (get f rank board) [
  | some piece ↦ flush empty ++ (piece ∷ emit_row board rank n (f + 1) 0)
  | none ↦ emit_row board rank n (f + 1) (empty + 1)
]

unfoldable pub emit_ranks : Board → ℕ → List Text
emit_ranks board zero = []
emit_ranks board (suc r) = emit_row board (suc r) 8 0 0 ∷ emit_ranks board r

abbrev pub emit_ep : Option (ℕ × ℕ) → Text
emit_ep none = codes "-"
emit_ep (some (f, r)) = f ∷ (r ∷ [])

unfoldable pub emit_fen : Position → Text
emit_fen p = join b' ' (
    join b'/' (emit_ranks p.board 8)
    ∷ (p.color
        ∷ (or_none p.rights ∷ (emit_ep p.ep_square ∷ (decimal p.half ∷ (decimal p.full ∷ []))))))
