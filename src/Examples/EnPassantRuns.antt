-- ===== src/Examples/EnPassantRuns.antt =====
-- Runs of graph/en_passant.py.
use openchess.Chess.Castling.Check.{read_side}
use openchess.Graph.EnPassant.Read.{type_read, square_ok}
use openchess.Base.{refl, ◌≡◌, ok, Text, codes, [], ◌∷◌, false, some, ◌↔◌, text_eq, true}
use openchess.Python.Values.{text}
use openchess.Chess.Castling.{white, black}
use openchess.Chess.Castling.Apply.{Board, stands}
use openchess.Graph.EnPassant.{State, Ply, pawn_advance, ep_capture, attacked_by}
use openchess.Chess.Turn.{after}
use openchess.Graph.EnPassant.Move.{capture, apply_ply, identity_of, square_of, token_on}
use openchess.Graph.EnPassant.Effect.{capture-effect}
use openchess.Graph.EnPassant.Lifetime.{capture-follows, Advances}
use openchess.Graph.EnPassant.Identity.{Capturable, identity_of_iff}
use openchess.Graph.EnPassant.Counters.{turn_transition-after, affected, kind_of}
use openchess.Graph.EnPassant.Entry.{turn_transition, reset, increment}

abbrev before : Board
before =
    (codes "e1", codes "wk")
    ∷ ((codes "e8", codes "bk") ∷ ((codes "d2", codes "wp") ∷ ((codes "e4", codes "bp") ∷ [])))

abbrev start : State
start = record { ep_target = codes "-"; occupied = before; side_to_move = white }

abbrev advance : Ply
advance = record { kind = pawn_advance; from = codes "d2"; to = codes "d4" }

abbrev advanced : State
advanced = record {
  ep_target = codes "d3";
  occupied =
      (codes "e1", codes "wk")
      ∷ ((codes "e8", codes "bk") ∷ ((codes "e4", codes "bp") ∷ ((codes "d4", codes "wp") ∷ [])));
  side_to_move = black;
}

abbrev taking : Ply
taking = record { kind = ep_capture; from = codes "e4"; to = codes "d3" }

abbrev taken : State
taken = record {
  ep_target = codes "-";
  occupied =
      (codes "e1", codes "wk") ∷ ((codes "e8", codes "bk") ∷ ((codes "d3", codes "bp") ∷ []));
  side_to_move = white;
}

advance_runs : apply_ply start advance ≡ ok advanced
unfolding apply_ply openchess.Graph.EnPassant.Move.relocate openchess.Graph.EnPassant.Move.token_on
    text_eq openchess.Chess.Castling.Apply.put openchess.Chess.Castling.Apply.vacate
advance_runs = refl

capture_runs : capture (codes "d3") advanced.occupied black (codes "e4") (codes "d3") ≡ ok taken
unfolding capture openchess.Graph.EnPassant.target_grammar_ok text_eq
    openchess.Chess.Castling.Apply.occupied_on stands square_of openchess.Chess.Castling.Apply.put
    openchess.Chess.Castling.Apply.vacate attacked_by openchess.Graph.Fen.Attack.any
    openchess.Graph.EnPassant.attacks
capture_runs = refl

taking_runs : apply_ply advanced taking ≡ ok taken
unfolding apply_ply
taking_runs = capture_runs

capture-effect_example :
    (◌≡◌ {A = Text} (codes "d3") (codes "d3"))
    × (stands (codes "d4") (codes "wp") taken.occupied ≡ false)
    × (text_eq (codes "d4") (codes "d3") ≡ false)
    × ((king : Text) × (square_of (codes "bk") taken.occupied ≡ some king)
        × (attacked_by taken.occupied king white ≡ false))
unfolding text_eq
capture-effect_example =
    capture-effect (codes "d3") advanced.occupied black (codes "e4") (codes "d3") taken (codes "d4")
      (codes "wp") capture_runs

advance-square : square_ok advance.to ≡ true
unfolding square_ok
advance-square = refl

capture-follows_example :
    Advances white advance (codes "d3")
    × (token_on (codes "d2") start.occupied ≡ some (codes "wp"))
    × (stands (codes "d4") (codes "wp") advanced.occupied ≡ true)
    × (stands (codes "d4") (codes "wp") taken.occupied ≡ false)
capture-follows_example =
    capture-follows start advanced taken advance (codes "e4") (codes "d3") (codes "wp")
      advance-square advance_runs taking_runs

target-named : text_eq (codes "d3") (codes "-") ≡ false
unfolding text_eq
target-named = refl

identity_of_iff_example : (identity_of advanced ≡ codes "d3") ↔ Capturable advanced
identity_of_iff_example = identity_of_iff advanced target-named

abbrev clock : openchess.Chess.Turn.State
clock = record { side_to_move = black; halfmove_clock = 4; fullmove_number = 9 }

reads-capture : type_read (text (codes "ep-capture")) ≡ some ep_capture
unfolding text_eq
reads-capture = refl

reads-black : read_side (text (codes "b")) ≡ some black
unfolding read_side text_eq
reads-black = refl

transition_runs :
    turn_transition (text (codes "ep-capture")) (text (codes "b")) ≡ ok (reset, increment)
unfolding turn_transition text_eq openchess.Chess.Castling.Check.read_side
transition_runs = refl

turn_transition-after_example :
    ((after (kind_of ep_capture) clock).halfmove_clock ≡ affected reset 4)
    × ((after (kind_of ep_capture) clock).fullmove_number ≡ affected increment 9)
turn_transition-after_example =
    turn_transition-after (text (codes "ep-capture")) (text (codes "b")) ep_capture clock reset
      increment reads-capture reads-black transition_runs
