-- ===== src/Graph/Conflict/Changes.antt =====
-- The changes of graph/conflict.py, key by key.
use openchess.Base.{
  Bool-cases, Option, Option-cases, Text, [], ap, if◌then◌else◌, inl, inr, none, refl, some,
  text_eq, text_eq_sound, ◌∙◌, ◌∷◌, ◌≡◌,
}
use mathlib.Core.Path.{subst}
use openchess.Base.Maybe.{◌>>=◌}
use openchess.Graph.Conflict.{Node, Map, lookup, node_eq, Change, added, changed, removed}
use openchess.Graph.Conflict.Detect.{changes, changes_to, removals, changed_to}
use openchess.Graph.Conflict.Keys.{or_first, lookup-append, lookup-at, lookup-past}

-- No key stands in a dict twice.
unfoldable pub Unique : Map Node → Type 0
Unique [] = Unit
Unique ((k, a) ∷ rest) = (lookup k rest ≡ none) × Unique rest

unfoldable pub change_of : Option Node → Option Node → Option Change
change_of none none = none
change_of none (some r) = some (added r)
change_of (some b) (some r) = if node_eq b r then none else some (changed r)
change_of (some b) none = some (removed b)

changes_to-equal :
    (base rest : Map Node) (k : Text) (r : Node)
    → changed_to (lookup k base) r ≡ none
    → changes_to base ((k, r) ∷ rest) ≡ changes_to base rest
unfolding changes_to
changes_to-equal base rest k r h = rw (changes_to, h) refl

changes_to-other :
    (base rest : Map Node) (k : Text) (r : Node) (c : Change)
    → changed_to (lookup k base) r ≡ some c
    → changes_to base ((k, r) ∷ rest) ≡ ((k, c) ∷ changes_to base rest)
unfolding changes_to
changes_to-other base rest k r c h = rw (changes_to, h) refl

removals-kept :
    (derived rest : Map Node) (k : Text) (r d : Node)
    → lookup k derived ≡ some d
    → removals derived ((k, r) ∷ rest) ≡ removals derived rest
unfolding removals
removals-kept derived rest k r d h = rw (removals, h) refl

removals-gone :
    (derived rest : Map Node) (k : Text) (r : Node)
    → lookup k derived ≡ none
    → removals derived ((k, r) ∷ rest) ≡ ((k, removed r) ∷ removals derived rest)
unfolding removals
removals-gone derived rest k r h = rw (removals, h) refl

lookup-changes_to-nil :
    (key : Text) (base : Map Node)
    → lookup key (changes_to base [])
      ≡ (lookup {A = Node} key [] >>= λ r. changed_to (lookup key base) r)
unfolding changes_to lookup
lookup-changes_to-nil key base = refl

lookup-changes_to :
    (key : Text) (base derived : Map Node)
    → Unique derived
    → lookup key (changes_to base derived)
      ≡ (lookup key derived >>= λ r. changed_to (lookup key base) r)
unfolding Unique
lookup-changes_to key base [] u = lookup-changes_to-nil key base
lookup-changes_to key base ((k, r) ∷ rest) (fresh, u) =
    let more = lookup-changes_to key base rest u in
    elim (Bool-cases (text_eq k key)) [
      | inl e ↦
          let same : k ≡ key = text_eq_sound k key e in
          let gone : lookup key rest ≡ none = subst (λ x. lookup x rest ≡ none) same fresh in
          let here : changed_to (lookup k base) r ≡ changed_to (lookup key base) r =
            ap (λ x. changed_to (lookup x base) r) same in
          elim (Option-cases (changed_to (lookup key base) r)) [
            | inl n ↦
                rw
                  (
                    changes_to-equal base rest k r (here ∙ n),
                    lookup-at key k r rest e,
                    n,
                    more,
                    gone,
                  )
                  refl
            | inr (c, s) ↦
                rw
                  (
                    changes_to-other base rest k r c (here ∙ s),
                    lookup-at key k r rest e,
                    s,
                    lookup-at key k c (changes_to base rest) e,
                  )
                  refl
          ]
      | inr e ↦ elim (Option-cases (changed_to (lookup k base) r)) [
        | inl n ↦ rw (changes_to-equal base rest k r n, lookup-past key k r rest e) more
        | inr (c, s) ↦
            rw
              (
                changes_to-other base rest k r c s,
                lookup-past key k r rest e,
                lookup-past key k c (changes_to base rest) e,
              )
              more
      ]
    ]

-- What the second loop has for a key.
removed_at : Option Node → Option Node → Option Change
removed_at (some d) b = none
removed_at none none = none
removed_at none (some b) = some (removed b)

lookup-removals-nil :
    (key : Text) (derived : Map Node) (o : Option Node)
    → lookup key (removals derived []) ≡ removed_at o (lookup {A = Node} key [])
unfolding removals lookup removed_at
lookup-removals-nil key derived none = refl
lookup-removals-nil key derived (some d) = refl

lookup-removals :
    (key : Text) (derived base : Map Node)
    → Unique base
    → lookup key (removals derived base) ≡ removed_at (lookup key derived) (lookup key base)
unfolding Unique removed_at
lookup-removals key derived [] u = lookup-removals-nil key derived (lookup key derived)
lookup-removals key derived ((k, r) ∷ rest) (fresh, u) =
    let more = lookup-removals key derived rest u in
    elim (Bool-cases (text_eq k key)) [
      | inl e ↦
          let same : k ≡ key = text_eq_sound k key e in
          let gone : lookup key rest ≡ none = subst (λ x. lookup x rest ≡ none) same fresh in
          let here : lookup k derived ≡ lookup key derived = ap (λ x. lookup x derived) same in
          elim (Option-cases (lookup key derived)) [
            | inl n ↦
                rw
                  (
                    removals-gone derived rest k r (here ∙ n),
                    n,
                    lookup-at key k r rest e,
                    lookup-at key k (removed r) (removals derived rest) e,
                  )
                  refl
            | inr (c, s) ↦ rw (removals-kept derived rest k r c (here ∙ s), more, s) refl
          ]
      | inr e ↦ elim (Option-cases (lookup k derived)) [
        | inl n ↦
            rw
              (
                removals-gone derived rest k r n,
                lookup-past key k r rest e,
                lookup-past key k (removed r) (removals derived rest) e,
              )
              more
        | inr (c, s) ↦ rw (removals-kept derived rest k r c s, lookup-past key k r rest e) more
      ]
    ]

pub lookup-changes :
    (key : Text) (base derived : Map Node)
    → Unique base
    → Unique derived
    → lookup key (changes base derived) ≡ change_of (lookup key base) (lookup key derived)
unfolding changes change_of changed_to removed_at or_first
lookup-changes key base derived u v =
    let parts = lookup-append key (changes_to base derived) (removals derived base) in
    let first = lookup-changes_to key base derived v in
    let second = lookup-removals key derived base u in
    elim (Option-cases (lookup key base)) [
      | inl b ↦ elim (Option-cases (lookup key derived)) [
        | inl d ↦ rw (parts, first, second, b, d) refl
        | inr (r, d) ↦ rw (parts, first, second, b, d) refl
      ]
      | inr (q, b) ↦ elim (Option-cases (lookup key derived)) [
        | inl d ↦ rw (parts, first, second, b, d) refl
        | inr (r, d) ↦ elim (Bool-cases (node_eq q r)) [
          | inl e ↦ rw (parts, first, second, b, d, e) refl
          | inr e ↦ rw (parts, first, second, b, d, e) refl
        ]
      ]
    ]
