-- ===== src/Examples/CastlingRuns.antt =====
-- Runs of tools/castling_runtime.py.
use openchess.Base.{
  refl, ok, err, [], ◌∷◌, codes, ◌≡◌, text_eq, true, false, ℕ, List, if◌then◌else◌, ◌&&◌, not, ◌↔◌,
  Text,
}
use openchess.Python.Values.{Value, text, dict, list, nil, item, entry, end}
use openchess.Chess.Castling.{
  State, Move, castle, king_move, rook_move_from, white_short, white, black, grammar_ok, canonical,
  held, has, side_eq, side_of, king_unmoved_required, malformed, letter,
}
use openchess.Chess.Castling.Apply.{apply_castle, run, stands}
use openchess.Chess.Castling.Rights.{grammar_ok_iff}
use openchess.Chess.Castling.Runs.{run-rights, run-lost}
use openchess.Chess.Castling.Board.{apply_castle-effect, afterwards}
use openchess.Chess.Castling.Entry.{apply}

abbrev before : State
before = record {
  rights = codes "KQkq";
  occupied =
      (codes "e1", codes "wk")
      ∷ (codes "h1", codes "wr")
      ∷ (codes "e8", codes "bk")
      ∷ (codes "h8", codes "br")
      ∷ [];
  attacked = codes "d1" ∷ [];
  side_to_move = white;
}

abbrev after : State
after = record {
  rights = codes "kq";
  occupied =
      (codes "e8", codes "bk")
      ∷ (codes "h8", codes "br")
      ∷ (codes "g1", codes "wk")
      ∷ (codes "f1", codes "wr")
      ∷ [];
  attacked = codes "d1" ∷ [];
  side_to_move = white;
}

castle_runs : apply_castle white_short before ≡ ok after
unfolding apply_castle side_eq side_of has held text_eq openchess.Base.text_in canonical
    openchess.Chess.Castling.less
castle_runs = refl

apply_castle-effect_example :
    (side_eq white white ≡ true)
    × (has b'K' (held (codes "KQkq")) ≡ true)
    × (stands (codes "g1") (codes "wk") after.occupied
        ≡ afterwards white_short before (codes "g1") (codes "wk"))
    × (has b'k' (held after.rights) ≡ (
        has b'k' (codes "KQkq") && (has b'k' (held before.rights) && not (has b'k' (codes "KQ")))))
    × (after.attacked ≡ before.attacked)
    × (after.side_to_move ≡ before.side_to_move)
unfolding side_of
apply_castle-effect_example =
    apply_castle-effect white_short before after (codes "g1") (codes "wk") b'k' castle_runs

abbrev moves : List Move
moves = castle white_short ∷ rook_move_from (codes "h8") ∷ []

abbrev final : State
final = record after { rights = codes "q" }

before-grammar : grammar_ok before.rights ≡ true
unfolding grammar_ok text_eq
before-grammar = refl

run_runs : run moves before ≡ ok final
unfolding run grammar_ok text_eq side_eq side_of held openchess.Base.text_in canonical
    openchess.Chess.Castling.less openchess.Chess.Castling.rook_loss
run_runs = refl

run-rights_example :
    (grammar_ok final.rights ≡ true)
    × ((c : ℕ) → has c (held final.rights) ≡ true → has c (held before.rights) ≡ true)
run-rights_example = run-rights moves before final before-grammar run_runs

later_runs : run (king_move black ∷ []) final ≡ ok (record after { rights = codes "-" })
unfolding run grammar_ok text_eq canonical openchess.Chess.Castling.less held
later_runs = refl

final-lost : has (letter white_short) (held final.rights) ≡ false
unfolding has held text_eq
final-lost = refl

run-lost_example :
    apply_castle white_short (record after { rights = codes "-" })
    ≡ err (if side_eq (side_of white_short) white then king_unmoved_required else malformed)
run-lost_example =
    run-lost (king_move black ∷ []) final (record after { rights = codes "-" }) white_short
      later_runs final-lost

grammar_ok_iff_example :
    (grammar_ok (codes "Qk") ≡ true) ↔ ((s : Text) × (canonical s ≡ codes "Qk"))
grammar_ok_iff_example = grammar_ok_iff (codes "Qk")

-- The same castle through the entry point.
abbrev pub before_object : Value
before_object = dict 1 (
    entry (text (codes "rights")) (text (codes "KQkq")) (
      entry (text (codes "occupied"))
        (dict 2 (
          entry (text (codes "e1")) (text (codes "wk")) (
            entry (text (codes "h1")) (text (codes "wr")) (
              entry (text (codes "e8")) (text (codes "bk"))
                (entry (text (codes "h8")) (text (codes "br")) end)))))
        (entry (text (codes "attacked")) (list 3 (item (text (codes "d1")) nil))
          (entry (text (codes "side_to_move")) (text (codes "w")) end))))

abbrev pub castle_object : Value
castle_object = dict 4 (
    entry (text (codes "type")) (text (codes "castle"))
      (entry (text (codes "right")) (text (codes "K")) end))

apply_runs : apply before_object castle_object ≡ ok after
unfolding apply openchess.Chess.Castling.Check.read_state openchess.Python.Values.text_keys
    openchess.Base.text_in text_eq openchess.Python.Values.get
    openchess.Chess.Castling.Check.read_move openchess.Chess.Castling.Apply.apply_move grammar_ok
    side_eq side_of held canonical openchess.Chess.Castling.less
apply_runs = refl
