-- ===== src/Graph/Conflict/Mirror.antt =====
-- The two sides of graph/conflict.py exchanged.
use openchess.Base.{
  >>=-first, Bool, Bool-cases, Option, Text, ap, false, inl, inr, none, not, ok, refl, require,
  require-eq-ok, some, sym, text_eq, text_eq_comm, true, ◌>>=◌, ◌||◌, ◌∙◌, ◌≡◌,
}
use openchess.Python.Values.{Value}
use openchess.Graph.Conflict.{divergent_base, Node, Map, lookup, node_eq, Conflict, Report}
use openchess.Graph.Conflict.Check.{Derived, validated_state, state_id_of}
use openchess.Graph.Conflict.Detect.{detect, conflicts_of}
use openchess.Graph.Conflict.Changes.{Unique}
use openchess.Graph.Conflict.Verdict.{verdict, node_same, kind_at, detect-verdict}

-- Left and right exchanged in a conflict.
unfoldable pub mirrored : Option Conflict → Option Conflict
mirrored none = none
mirrored (some c) = some (record { kind = c.kind; left = c.right; right = c.left })

node_eq_comm : (a b : Node) → node_eq a b ≡ node_eq b a
node_eq_comm a b =
    rw
      (
        text_eq_comm a.variant b.variant,
        text_eq_comm a.digest b.digest,
        text_eq_comm a.snapshot_fen b.snapshot_fen,
      )
      refl

node_same_comm : (a b : Option Node) → node_same a b ≡ node_same b a
unfolding node_same
node_same_comm none none = refl
node_same_comm none (some b) = refl
node_same_comm (some a) none = refl
node_same_comm (some a) (some b) = node_eq_comm a b

kind_at_comm : (b l r : Option Node) → kind_at b l r ≡ kind_at b r l
unfolding kind_at
kind_at_comm none l r = refl
kind_at_comm (some b) none none = refl
kind_at_comm (some b) none (some r) = refl
kind_at_comm (some b) (some l) none = refl
kind_at_comm (some b) (some l) (some r) = refl

swapped : (x y z : Bool) → (x || (y || z)) ≡ (y || (x || z))
swapped true true z = refl
swapped true false z = refl
swapped false true z = refl
swapped false false z = refl

or-exchanged : (x y : Bool) → not (x || y) ≡ not (y || x)
or-exchanged true true = refl
or-exchanged true false = refl
or-exchanged false true = refl
or-exchanged false false = refl

verdict-mirrored : (b l r : Option Node) → verdict b r l ≡ mirrored (verdict b l r)
unfolding verdict mirrored
verdict-mirrored b l r = elim (Bool-cases (node_same b l || (node_same b r || node_same l r))) [
  | inl e ↦ rw (node_same_comm r l, swapped (node_same b r) (node_same b l) (node_same l r), e) refl
  | inr e ↦
      rw
        (
          node_same_comm r l,
          swapped (node_same b r) (node_same b l) (node_same l r),
          e,
          kind_at_comm b r l,
        )
        refl
]

module _ (hexdigest : Text → Text) (derive : Text → Text → Option Derived) where
  -- Both sides differ from the base, by their ids.
  diverge : Map Node → Map Node → Map Node → Bool
  diverge b l r = not (
      text_eq (state_id_of hexdigest b) (state_id_of hexdigest l)
      || text_eq (state_id_of hexdigest b) (state_id_of hexdigest r))

  report_of : Map Node → Map Node → Map Node → Report
  report_of b l r = record {
    base_id = state_id_of hexdigest b;
    left_id = state_id_of hexdigest l;
    right_id = state_id_of hexdigest r;
    conflicts = conflicts_of b l r;
  }

  detect-read :
      (base left right : Value) (b l r : Map Node)
      → validated_state derive base ≡ some b
      → validated_state derive left ≡ some l
      → validated_state derive right ≡ some r
      → detect hexdigest derive base left right
        ≡ (require (diverge b l r) divergent_base >>= λ _. ok (report_of b l r))
  unfolding detect diverge report_of
  detect-read base left right b l r e_b e_l e_r = rw (e_b, e_l, e_r) refl

  diverge_comm : (b l r : Map Node) → diverge b l r ≡ diverge b r l
  unfolding diverge
  diverge_comm b l r =
      or-exchanged (text_eq (state_id_of hexdigest b) (state_id_of hexdigest l))
        (text_eq (state_id_of hexdigest b) (state_id_of hexdigest r))

  -- When `detect` reports on three states that it reads, no key standing in one of them twice, then it
  -- reports on them with the sides exchanged too, with the same conflicts, left and right exchanged.
  pub detect-mirrored :
      (base left right : Value) (b l r : Map Node) (report : Report)
      → validated_state derive base ≡ some b
      → validated_state derive left ≡ some l
      → validated_state derive right ≡ some r
      → Unique b
      → Unique l
      → Unique r
      → detect hexdigest derive base left right ≡ ok report
      → (other : Report) × (detect hexdigest derive base right left ≡ ok other)
        × ((key : Text) → lookup key other.conflicts ≡ mirrored (lookup key report.conflicts))
  detect-mirrored base left right b l r report e_b e_l e_r u_b u_l u_r h =
      let exchanged = report_of b r l in
      let runs : detect hexdigest derive base right left ≡ ok exchanged =
        let passed =
          >>=-first (require (diverge b l r) divergent_base) (λ _. ok (report_of b l r))
            (sym (detect-read base left right b l r e_b e_l e_r) ∙ h) in
        let apart : diverge b r l ≡ true =
          sym (diverge_comm b l r) ∙ require-eq-ok (diverge b l r) divergent_base passed.1 in
        detect-read base right left b r l e_b e_r e_l ∙ rw apart refl in
      (
        exchanged,
        runs,
        λ key.
            detect-verdict hexdigest derive base right left b r l exchanged key e_b e_r e_l u_b u_r
              u_l runs
            ∙ verdict-mirrored (lookup key b) (lookup key l) (lookup key r)
            ∙ ap mirrored (
                sym (
                  detect-verdict hexdigest derive base left right b l r report key e_b e_l e_r u_b
                    u_l u_r h)),
      )
