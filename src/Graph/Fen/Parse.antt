-- ===== src/Graph/Fen/Parse.antt =====
-- `parse_fen` of graph/fen.py against `emit_fen`.
use openchess.Base.{OnOk, OnOk-at, OnOk-bind, ap, ok, or_else, or_else-eq-ok, refl, ℕ, ◌∙◌, ◌≡◌}
use openchess.Base.Maybe.{OnRead, OnRead-at}
use openchess.Python.Values.{
  Value, null, boolean, integer, floating, text, list, dict, other, as_text,
}
use openchess.Graph.Fen.{Position, malformed_fen}
use openchess.Graph.Fen.Read.{read_fields}
use openchess.Graph.Fen.Emit.{emit_fen}
use openchess.Graph.Fen.Rules.{parse_fen, check_position}
use openchess.Graph.Fen.RoundTrip.{emit_fen-read_fields}

text-as_text : (v : Value) → OnRead (λ t. text t ≡ v) (as_text v)
text-as_text null = tt
text-as_text (boolean b) = tt
text-as_text (integer z) = tt
text-as_text (floating b t) = tt
text-as_text (text t) = refl
text-as_text (list i xs) = tt
text-as_text (dict i d) = tt
text-as_text other = tt

module _ (int_limit : ℕ) where
  parse_fen-emits : (fen : Value) → OnOk (λ p. text (emit_fen p) ≡ fen) (parse_fen int_limit fen)
  unfolding parse_fen
  parse_fen-emits fen =
      let P = λ (p : Position). text (emit_fen p) ≡ fen in
      OnOk-bind P (or_else malformed_fen (as_text fen)) _ λ t e.
        OnOk-bind P (or_else malformed_fen (read_fields int_limit t)) _ λ p h.
          OnOk-bind P (check_position p) (λ _. ok p)
            λ _ _.
              ap text (
                OnRead-at (λ (q : Position). emit_fen q ≡ t) _ (emit_fen-read_fields int_limit t)
                  (or_else-eq-ok malformed_fen (read_fields int_limit t) h))
              ∙ OnRead-at (λ t. text t ≡ fen) _ (text-as_text fen)
                  (or_else-eq-ok malformed_fen (as_text fen) e)

  -- Whatever object is read as a position is the text that is written for this position, character for
  -- character; so no two objects are read as the same position.
  pub emit_fen-parse_fen :
      (fen : Value) (p : Position) → parse_fen int_limit fen ≡ ok p → text (emit_fen p) ≡ fen
  emit_fen-parse_fen fen p h =
      OnOk-at (λ (q : Position). text (emit_fen q) ≡ fen) _ (parse_fen-emits fen) h
