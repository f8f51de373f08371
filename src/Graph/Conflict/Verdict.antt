-- ===== src/Graph/Conflict/Verdict.antt =====
-- The conflicts of graph/conflict.py, key by key, against a description by the three records.
use openchess.Base.{
  Bool, Bool-cases, OnOk-at, OnOk-bind, Option, Text, ap, false, if◌then◌else◌, inl, inr, none, not,
  ok, refl, require, some, sym, text_eq, text_in, true, ◌&&◌, ◌||◌, ◌∙◌, ◌≡◌,
}
use openchess.Python.Values.{Value}
use openchess.Graph.Conflict.Check.{Derived, validated_state, state_id_of}
use openchess.Graph.Conflict.{
  Node, Map, lookup, node_eq, Change, Conflict, Kind, added_differently, both_changed_differently,
  changed_vs_removed, Report, keys, sort_texts, divergent_base,
}
use openchess.Graph.Conflict.Detect.{changes, conflict_at, conflicts_of, shared, detect}
use openchess.Graph.Conflict.Keys.{keys-lookup, lookup-select, text_in-shared, text_in-sort_texts}
use openchess.Graph.Conflict.Changes.{Unique, change_of, lookup-changes}

unfoldable pub node_same : Option Node → Option Node → Bool
node_same none none = true
node_same (some a) (some b) = node_eq a b
node_same _ _ = false

unfoldable pub kind_at : Option Node → Option Node → Option Node → Kind
kind_at none l r = added_differently
kind_at (some b) (some l) (some r) = both_changed_differently
kind_at (some b) _ _ = changed_vs_removed

-- Three records of one key, none where a state lacks it: both sides differ from the base, and from
-- each other.
unfoldable pub verdict : Option Node → Option Node → Option Node → Option Conflict
unfolding node_same kind_at
verdict b l r =
    if node_same b l || (node_same b r || node_same l r)
    then none
    else some (record { kind = kind_at b l r; left = l; right = r })

conflict_at-change_of :
    (b l r : Option Node) → conflict_at (change_of b l) (change_of b r) ≡ verdict b l r
unfolding verdict node_same kind_at change_of
conflict_at-change_of none none none = refl
conflict_at-change_of none none (some r) = refl
conflict_at-change_of none (some l) none = refl
conflict_at-change_of none (some l) (some r) = refl
conflict_at-change_of (some b) none none = refl
conflict_at-change_of (some b) none (some r) = elim (Bool-cases (node_eq b r)) [
  | inl e ↦ rw e refl
  | inr e ↦ rw e refl
]
conflict_at-change_of (some b) (some l) none = elim (Bool-cases (node_eq b l)) [
  | inl e ↦ rw e refl
  | inr e ↦ rw e refl
]
conflict_at-change_of (some b) (some l) (some r) = elim (Bool-cases (node_eq b l)) [
  | inl e ↦ rw e refl
  | inr e ↦ elim (Bool-cases (node_eq b r)) [ inl f ↦ rw (e, f) refl | inr f ↦ rw (e, f) refl ]
]

conflict_at-none : (o : Option Change) → conflict_at o none ≡ none
conflict_at-none none = refl
conflict_at-none (some l) = refl

shared-enough :
    (key : Text) (lch rch : Map Change)
    → (if text_in key (keys lch) && text_in key (keys rch)
        then conflict_at (lookup key lch) (lookup key rch)
        else none)
      ≡ conflict_at (lookup key lch) (lookup key rch)
shared-enough key lch rch = elim (Bool-cases (text_in key (keys lch))) [
  | inl e ↦ elim (Bool-cases (text_in key (keys rch))) [
    | inl f ↦ rw (e, f) refl
    | inr f ↦ rw (e, f, keys-lookup key rch f) (sym (conflict_at-none (lookup key lch)))
  ]
  | inr e ↦ rw (e, keys-lookup key lch e) refl
]

-- The conflicts that are found are at each key those of the three records that stand there.
pub lookup-conflicts_of :
    (key : Text) (base left right : Map Node)
    → Unique base
    → Unique left
    → Unique right
    → lookup key (conflicts_of base left right)
      ≡ verdict (lookup key base) (lookup key left) (lookup key right)
unfolding conflicts_of
lookup-conflicts_of key base left right u v w =
    let lch = changes base left in
    let rch = changes base right in
    let at = λ (k : Text). conflict_at (lookup k lch) (lookup k rch) in
    let found : lookup key (conflicts_of base left right) ≡ at key =
      lookup-select at key (sort_texts (shared (keys lch) (keys rch)))
      ∙ ap (λ b. if b then at key else none)
          (text_in-sort_texts key (shared (keys lch) (keys rch))
            ∙ text_in-shared key (keys lch) (keys rch))
      ∙ shared-enough key lch rch in
    found
    ∙ rw (lookup-changes key base left u v, lookup-changes key base right u w)
        (conflict_at-change_of (lookup key base) (lookup key left) (lookup key right))

module _ (hexdigest : Text → Text) (derive : Text → Text → Option Derived) where
  -- The conflicts of a report are those of the states read.
  Reports : Map Node → Map Node → Map Node → Report → Type 0
  Reports b l r report = report.conflicts ≡ conflicts_of b l r

  -- What `detect` reports for three states that it reads, no key standing in one of them twice: a
  -- witness for a key exactly when each side differs from the base there and the sides from each
  -- other, with the kind by which of the three have the key, and with what the sides have.
  pub detect-verdict :
      (base left right : Value) (b l r : Map Node) (report : Report) (key : Text)
      → validated_state derive base ≡ some b
      → validated_state derive left ≡ some l
      → validated_state derive right ≡ some r
      → Unique b
      → Unique l
      → Unique r
      → detect hexdigest derive base left right ≡ ok report
      → lookup key report.conflicts ≡ verdict (lookup key b) (lookup key l) (lookup key r)
  unfolding detect Reports
  detect-verdict base left right b l r report key e_b e_l e_r u_b u_l u_r h =
      let reported : report.conflicts ≡ conflicts_of b l r =
        OnOk-at (Reports b l r) (detect hexdigest derive base left right)
          (rw (e_b, e_l, e_r)
            (OnOk-bind (Reports b l r)
              (require
                (not (
                  text_eq (state_id_of hexdigest b) (state_id_of hexdigest l)
                  || text_eq (state_id_of hexdigest b) (state_id_of hexdigest r)))
                divergent_base)
              _ λ _ _. refl))
          h in
      ap (lookup key) reported ∙ lookup-conflicts_of key b l r u_b u_l u_r
