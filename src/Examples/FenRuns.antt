-- ===== src/Examples/FenRuns.antt =====
-- Runs of graph/fen.py.
use openchess.Base.{refl, ◌≡◌, ok, Text, codes, [], ◌∷◌, true, some, ◌↔◌, arith}
use openchess.Graph.Fen.{Board, Position}
use openchess.Graph.Fen.Attack.{walk}
use openchess.Graph.Fen.Sight.{Sees, Moving, walk_iff}
use openchess.Python.Values.{text, pos}
use openchess.Graph.Fen.Unseen.{Sheltered, parse_fen-Sheltered}
use openchess.Graph.Fen.Rules.{parse_fen}
use openchess.Graph.Fen.Emit.{emit_fen}
use openchess.Graph.Fen.Parse.{emit_fen-parse_fen}

abbrev kings_and_pawns : Text
kings_and_pawns = codes "4k3/8/8/8/4P3/8/8/4K2R b K e3 0 1"

abbrev board : Board
board =
    record { file = 4; rank = 8; piece = b'k' }
    ∷ (record { file = 4; rank = 4; piece = b'P' }
        ∷ (record { file = 4; rank = 1; piece = b'K' }
            ∷ (record { file = 7; rank = 1; piece = b'R' } ∷ [])))

abbrev after_advance : Position
after_advance = record {
  board = board;
  color = codes "b";
  rights = codes "K";
  ep_square = some (b'e', b'3');
  half = 0;
  full = 1;
}

parse_runs : parse_fen 4300 (text kings_and_pawns) ≡ ok after_advance
unfolding parse_fen openchess.Graph.Fen.Read.read_fields openchess.Base.text_in
    openchess.Base.text_eq openchess.Graph.Fen.split_first openchess.Graph.Fen.Read.read_placement
    openchess.Graph.Fen.Read.read_ranks openchess.Graph.Fen.Read.read_rank
    openchess.Graph.Fen.Read.is_run openchess.Chess.Castling.has
    openchess.Graph.Fen.Read.read_counter openchess.Graph.Fen.Read.digits_only
    openchess.Python.Dumps.decimal openchess.Graph.Fen.Read.digits_value
    openchess.Graph.Fen.Read.read_rights openchess.Chess.Castling.grammar_ok
    openchess.Graph.Fen.Read.read_ep openchess.Chess.Castling.all_in_values
    openchess.Chess.Castling.held openchess.Chess.Castling.in_order
    openchess.Chess.Castling.no_duplicates openchess.Graph.Fen.Attack.any
    openchess.Graph.Fen.Attack.attack openchess.Graph.Fen.Attack.inside
    openchess.Graph.Fen.Attack.leaps openchess.Graph.Fen.Attack.moved
    openchess.Graph.Fen.Attack.opposite openchess.Graph.Fen.Attack.stands
    openchess.Graph.Fen.Attack.step openchess.Graph.Fen.Attack.walk
    openchess.Graph.Fen.Rules.adjacent openchess.Graph.Fen.Rules.all_at_home
    openchess.Graph.Fen.Rules.at_home openchess.Graph.Fen.Rules.back_pawn
    openchess.Graph.Fen.Rules.check_position openchess.Graph.Fen.Rules.ep_consistent
    openchess.Graph.Fen.Rules.feasible openchess.Graph.Fen.Rules.those openchess.Graph.Fen.get
    openchess.Graph.Fen.Attack.leaper_attacks openchess.Graph.Fen.Attack.straight
    openchess.Graph.Fen.Attack.diagonal
parse_runs = refl

emit_fen-parse_fen_example : text (emit_fen after_advance) ≡ text kings_and_pawns
emit_fen-parse_fen_example = emit_fen-parse_fen 4300 (text kings_and_pawns) after_advance parse_runs

walk_iff_example :
    (walk 8 board (codes "RQ") (pos 1, pos 0) (some (5, 1)) ≡ true)
    ↔ Sees board (codes "RQ") (pos 1, pos 0) 5 1
unfolding Moving
walk_iff_example = walk_iff board (codes "RQ") (pos 1, pos 0) 8 5 1 tt (omega arith)

walk_runs : walk 8 board (codes "RQ") (pos 1, pos 0) (some (5, 1)) ≡ true
unfolding walk openchess.Graph.Fen.Attack.inside openchess.Graph.Fen.get
    openchess.Graph.Fen.Attack.step openchess.Graph.Fen.Attack.moved openchess.Chess.Castling.has
walk_runs = refl

parse_fen-Sheltered_example : Sheltered after_advance
parse_fen-Sheltered_example =
    parse_fen-Sheltered 4300 (text kings_and_pawns) after_advance parse_runs
