-- ===== src/Examples/TurnRuns.antt =====
-- Games on the turn machine of tools/turn_runtime.py.
use openchess.Base.{refl, ◌≡◌, ok, [], ◌∷◌, List, ◌+◌, length, arith, some}
use openchess.Chess.Castling.{white, castle, white_short}
use openchess.Chess.Castling.Check.{read_move}
use openchess.Chess.Castling.Entry.{turn_effect, increment, same}
use openchess.Chess.Linkage.{turn_effect-after}
use openchess.Examples.CastlingRuns.{before_object, castle_object}
use openchess.Chess.Turn.{State, Kind, quiet, encode_state, fifty_move_claim, after}
use openchess.Chess.Turn.Entry.{termination_for}
use openchess.Chess.Turn.Games.{play, ply, play-ply, termination_for-play}

abbrev opening : State
opening = record { side_to_move = white; halfmove_clock = 98; fullmove_number = 60 }

abbrev line : List Kind
line = quiet ∷ quiet ∷ []

play-ply_example : (t : State) × (play line opening ≡ ok t) × (ply t ≡ ply opening + length line)
play-ply_example = play-ply line opening (omega arith)

termination_for-play_example :
    (t : State) × (play line opening ≡ ok t)
    × (termination_for (encode_state t) ≡ ok (some fifty_move_claim))
termination_for-play_example = termination_for-play line opening (omega arith)

castle_reads : read_move castle_object ≡ some (castle white_short)
unfolding read_move openchess.Python.Values.get openchess.Base.text_eq
    openchess.Python.Values.text_keys openchess.Base.text_in
castle_reads = refl

turn_effect_runs : turn_effect before_object castle_object ≡ ok (increment, same)
unfolding turn_effect openchess.Chess.Castling.Check.read_state openchess.Python.Values.text_keys
    openchess.Base.text_in openchess.Base.text_eq openchess.Python.Values.get read_move
    openchess.Chess.Castling.grammar_ok openchess.Chess.Castling.side_of
turn_effect_runs = refl

turn_effect-after_example :
    ((after quiet opening).halfmove_clock ≡ 99) × ((after quiet opening).fullmove_number ≡ 60)
unfolding openchess.Chess.Castling.side_of
turn_effect-after_example =
    turn_effect-after before_object castle_object white_short opening increment same castle_reads
      turn_effect_runs refl
