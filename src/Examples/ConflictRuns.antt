-- ===== src/Examples/ConflictRuns.antt =====
-- Runs of graph/conflict.py.
use openchess.Base.{refl, ◌≡◌, ok, Text, codes, [], ◌∷◌, none, some, Option}
use openchess.Python.Values.{Value, text, dict, entry, end}
use openchess.Graph.Conflict.{Node, Map, lookup, Conflict, Report, changed_vs_removed}
use openchess.Graph.Conflict.Check.{state_id_of, Derived, validated_state}
use openchess.Graph.Conflict.Detect.{detect}
use openchess.Graph.Conflict.Changes.{Unique}
use openchess.Graph.Conflict.Verdict.{verdict, detect-verdict}
use openchess.Graph.Conflict.Mirror.{mirrored, detect-mirrored}

abbrev digest : Text → Text
digest t = t

-- The snapshot is the identity.
abbrev derive : Text → Text → Option Derived
derive variant snapshot =
    some (record { variant = variant; snapshot_fen = snapshot; key = snapshot })

abbrev zeros : Text
zeros = codes "pdv1:0000000000000000000000000000000000000000000000000000000000000000"

abbrev ones : Text
ones = codes "pdv1:1111111111111111111111111111111111111111111111111111111111111111"

abbrev node_value : Text → Text → Value
node_value digest snapshot = dict 1 (
    entry (text (codes "variant")) (text (codes "standard")) (
      entry (text (codes "digest")) (text digest)
        (entry (text (codes "snapshot_fen")) (text snapshot) end)))

abbrev node : Text → Text → Node
node digest snapshot = record {
  variant = codes "standard";
  digest = digest;
  snapshot_fen = snapshot;
}

abbrev base : Value
base = dict 0 (entry (text (codes "a")) (node_value zeros (codes "a")) end)

abbrev left : Value
left = dict 0 (entry (text (codes "a")) (node_value ones (codes "a")) end)

abbrev right : Value
right = dict 0 end

abbrev base_map : Map Node
base_map = (codes "a", node zeros (codes "a")) ∷ []

abbrev left_map : Map Node
left_map = (codes "a", node ones (codes "a")) ∷ []

abbrev right_map : Map Node
right_map = []

abbrev reported : Report
reported = record {
  base_id = state_id_of digest base_map;
  left_id = state_id_of digest left_map;
  right_id = state_id_of digest right_map;
  conflicts =
      (
        codes "a",
        record { kind = changed_vs_removed; left = some (node ones (codes "a")); right = none },
      )
      ∷ [];
}

base_reads : validated_state derive base ≡ some base_map
unfolding validated_state openchess.Graph.Conflict.Check.validated_entries
    openchess.Graph.Conflict.Check.validated_identity openchess.Python.Values.text_keys
    openchess.Base.text_in openchess.Base.text_eq openchess.Python.Values.get
    openchess.Python.Grammar.fullmatch openchess.Python.Grammar.is_hex
base_reads = refl

left_reads : validated_state derive left ≡ some left_map
unfolding validated_state openchess.Graph.Conflict.Check.validated_entries
    openchess.Graph.Conflict.Check.validated_identity openchess.Python.Values.text_keys
    openchess.Base.text_in openchess.Base.text_eq openchess.Python.Values.get
    openchess.Python.Grammar.fullmatch openchess.Python.Grammar.is_hex
left_reads = refl

right_reads : validated_state derive right ≡ some right_map
unfolding validated_state openchess.Graph.Conflict.Check.validated_entries
right_reads = refl

detect_runs : detect digest derive base left right ≡ ok reported
unfolding detect validated_state openchess.Graph.Conflict.Check.validated_entries
    openchess.Graph.Conflict.Check.validated_identity openchess.Python.Values.text_keys
    openchess.Base.text_in openchess.Base.text_eq openchess.Python.Values.get
    openchess.Python.Grammar.fullmatch openchess.Python.Grammar.is_hex state_id_of
    openchess.Graph.Conflict.Check.state_text openchess.Graph.Conflict.sort_texts
    openchess.Graph.Conflict.keys openchess.Graph.Conflict.insert_text
    openchess.Graph.Conflict.Check.node_text lookup openchess.Graph.Conflict.Detect.conflicts_of
    openchess.Graph.Conflict.select openchess.Graph.Conflict.Detect.shared
    openchess.Graph.Conflict.Detect.changes openchess.Graph.Conflict.Detect.changes_to
    openchess.Graph.Conflict.Detect.changed_to openchess.Graph.Conflict.Detect.removals
detect_runs = refl

base-Unique : Unique base_map
unfolding Unique lookup
base-Unique = (refl, tt)

left-Unique : Unique left_map
unfolding Unique lookup
left-Unique = (refl, tt)

right-Unique : Unique right_map
unfolding Unique
right-Unique = tt

detect-verdict_example :
    lookup (codes "a") reported.conflicts
    ≡ verdict
        (lookup (codes "a") base_map)
        (lookup (codes "a") left_map)
        (lookup (codes "a") right_map)
detect-verdict_example =
    detect-verdict digest derive base left right base_map left_map right_map reported (codes "a")
      base_reads left_reads right_reads base-Unique left-Unique right-Unique detect_runs

detect-mirrored_example :
    (other : Report) × (detect digest derive base right left ≡ ok other)
    × ((key : Text) → lookup key other.conflicts ≡ mirrored (lookup key reported.conflicts))
detect-mirrored_example =
    detect-mirrored digest derive base left right base_map left_map right_map reported base_reads
      left_reads right_reads base-Unique left-Unique right-Unique detect_runs
