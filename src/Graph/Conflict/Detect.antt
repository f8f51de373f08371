-- ===== src/Graph/Conflict/Detect.antt =====
-- `_changes` and `ConflictDetector.detect` of graph/conflict.py.
use openchess.Base.{
  List, Option, Result, Text, [], if◌then◌else◌, none, not, ok, or_else, require, some, text_eq,
  text_in, ◌++◌, ◌>>=◌, ◌>>◌, ◌||◌, ◌∷◌,
}
use openchess.Python.Values.{Value}
use openchess.Graph.Conflict.{
  Failure, malformed_conflict_record, divergent_base, Node, Map, lookup, node_eq, Change, added,
  changed, removed, Conflict, added_differently, both_changed_differently, changed_vs_removed,
  Report, keys, sort_texts, select,
}
use openchess.Graph.Conflict.Check.{Derived, validated_state, state_id_of}

-- The first loop of `_changes` at one record of the derived state.
unfoldable pub changed_to : Option Node → Node → Option Change
changed_to none r = some (added r)
changed_to (some b) r = if node_eq b r then none else some (changed r)

unfoldable pub changes_to : Map Node → Map Node → Map Change
changes_to base [] = []
changes_to base ((key, r) ∷ rest) =
    let more = changes_to base rest in
    elim (changed_to (lookup key base) r) [ some c ↦ (key, c) ∷ more | none ↦ more ]

-- The second loop: the records of the base that the derived state lacks.
unfoldable pub removals : Map Node → Map Node → Map Change
removals derived [] = []
removals derived ((key, r) ∷ rest) =
    let more = removals derived rest in
    elim (lookup key derived) [ some d ↦ more | none ↦ (key, removed r) ∷ more ]

-- `_changes`
unfoldable pub changes : Map Node → Map Node → Map Change
changes base derived = changes_to base derived ++ removals derived base

-- The conflict of two changes of one record, if they are incompatible.
abbrev pub conflict_of : Change → Change → Option Conflict
conflict_of (removed l) (removed r) = none
conflict_of (added l) (added r) =
    if node_eq l r
    then none
    else some (record { kind = added_differently; left = some l; right = some r })
conflict_of (changed l) (changed r) =
    if node_eq l r
    then none
    else some (record { kind = both_changed_differently; left = some l; right = some r })
conflict_of (changed l) _ = some (record { kind = changed_vs_removed; left = some l; right = none })
conflict_of _ (changed r) = some (record { kind = changed_vs_removed; left = none; right = some r })
conflict_of _ _ = some (record { kind = changed_vs_removed; left = none; right = none })

abbrev pub conflict_at : Option Change → Option Change → Option Conflict
conflict_at (some l) (some r) = conflict_of l r
conflict_at _ _ = none

-- `set(lch) & set(rch)`
unfoldable pub shared : List Text → List Text → List Text
shared [] others = []
shared (k ∷ ks) others = let rest = shared ks others in if text_in k others then k ∷ rest else rest

-- The loop of `detect`.
unfoldable pub conflicts_of : Map Node → Map Node → Map Node → Map Conflict
conflicts_of base left right =
    let lch = changes base left in
    let rch = changes base right in
    select (λ key. conflict_at (lookup key lch) (lookup key rch))
      (sort_texts (shared (keys lch) (keys rch)))

module _ (hexdigest : Text → Text) (derive : Text → Text → Option Derived) where
  unfoldable pub detect : Value → Value → Value → Result Failure Report
  detect base left right = do
    base_s ← or_else malformed_conflict_record (validated_state derive base)
    left_s ← or_else malformed_conflict_record (validated_state derive left)
    right_s ← or_else malformed_conflict_record (validated_state derive right)
    let base_id = state_id_of hexdigest base_s
    let left_id = state_id_of hexdigest left_s
    let right_id = state_id_of hexdigest right_s
    require (not (text_eq base_id left_id || text_eq base_id right_id)) divergent_base
    ok (record {
      base_id = base_id;
      left_id = left_id;
      right_id = right_id;
      conflicts = conflicts_of base_s left_s right_s;
    })
