-- ===== src/Jobs/Payload/Walk.antt =====
-- The iterative walk of server/jobs_queue.py against the description by recursion.
use openchess.Base.{
  ℕ, ◌+◌, ◌≡◌, refl, false, ◌&&◌, none, some, List, [], ◌∷◌, arith, leb, true, ◌≤◌, suc, Bool-cases,
  ltb, ◌||◌, inl, inr, Option-cases, zero, ◌<◌, ◌↔◌,
}
use openchess.Python.Values.{text, Items, nil, item, Entries, end, entry}
use openchess.Jobs.Payload.{
  size, size_items, size_entries, total_size, payloads_ok, seen, Pending, extend, members, walk,
  list, max_depth, dict, Value, size, payloads_ok,
}
use openchess.Jobs.Payload.Shape.{
  admissible, admissible_items, admissible_entries, meets, meets_items, meets_entries,
  all_admissible, total_meets, count,
}

size-extend :
    (depth : ℕ) (xs : Items) (p : Pending)
    → total_size (extend depth xs p) ≡ size_items xs + total_size p
unfolding extend size
size-extend depth nil p = omega arith
size-extend depth (item v xs) p = omega (arith, size-extend depth xs ((v, depth + 1) ∷ p))

meets-extend :
    (a depth : ℕ) (xs : Items) (p : Pending)
    → total_meets a (extend depth xs p) ≡ meets_items a xs + total_meets a p
unfolding extend meets
meets-extend a depth nil p = omega arith
meets-extend a depth (item v xs) p = omega (arith, meets-extend a depth xs ((v, depth + 1) ∷ p))

admissible-extend :
    (depth : ℕ) (xs : Items) (p : Pending)
    → all_admissible (extend depth xs p) ≡ (admissible_items (depth + 1) xs && all_admissible p)
unfolding extend admissible
admissible-extend depth nil p = refl
admissible-extend depth (item v xs) p =
    ground (arith, admissible-extend depth xs ((v, depth + 1) ∷ p))

size-members :
    (depth : ℕ) (d : Entries) (p q : Pending)
    → members depth d p ≡ some q
    → total_size q ≡ size_entries d + total_size p
unfolding members size
size-members depth end p q h = ground arith
size-members depth (entry (text k) v d) p q h =
    ground (arith, size-members depth d ((v, depth + 1) ∷ p) q)
size-members depth (entry _ v d) p q h = cc

meets-members :
    (a depth : ℕ) (d : Entries) (p q : Pending)
    → members depth d p ≡ some q
    → total_meets a q ≡ meets_entries a d + total_meets a p
unfolding members meets
meets-members a depth end p q h = ground arith
meets-members a depth (entry (text k) v d) p q h =
    ground (arith, meets-members a depth d ((v, depth + 1) ∷ p) q)
meets-members a depth (entry _ v d) p q h = cc

admissible-members :
    (depth : ℕ) (d : Entries) (p q : Pending)
    → members depth d p ≡ some q
    → all_admissible q ≡ (admissible_entries (depth + 1) d && all_admissible p)
unfolding members admissible
admissible-members depth end p q h = ground arith
admissible-members depth (entry (text k) v d) p q h =
    ground (arith, admissible-members depth d ((v, depth + 1) ∷ p) q)
admissible-members depth (entry _ v d) p q h = cc

members-none :
    (depth : ℕ) (d : Entries) (p : Pending)
    → members depth d p ≡ none
    → admissible_entries (depth + 1) d ≡ false
unfolding members admissible
members-none depth end p h = cc
members-none depth (entry (text k) v d) p h =
    ground (arith, members-none depth d ((v, depth + 1) ∷ p))
members-none depth (entry _ v d) p h = refl

seen-count : (i : ℕ) (visited : List ℕ) → seen i visited ≡ leb 1 (count i visited)
unfolding seen
seen-count i [] = refl
seen-count i (j ∷ js) = ground (arith, seen-count i js)

-- What an accepted walk has shown.
abbrev Accepted : Pending → List ℕ → List ℕ → Type 0
Accepted p visited visited' =
    (all_admissible p ≡ true)
    × ((a : ℕ) → count a visited' ≡ count a visited + total_meets a p)
    × ((a : ℕ) → count a visited ≤ 1 → count a visited' ≤ 1)

count-cons :
    (a i : ℕ) (visited : List ℕ)
    → seen i visited ≡ false
    → count a visited ≤ 1
    → count a (i ∷ visited) ≤ 1
count-cons a i visited h k = ground (arith, seen-count i visited)

walk-Accepted :
    (rounds : ℕ) (p : Pending) (visited visited' : List ℕ)
    → walk rounds p visited ≡ some visited'
    → Accepted p visited visited'
unfolding walk size admissible meets
walk-Accepted zero [] visited visited' h = (refl, λ a. ground arith, λ a k. ground arith)
walk-Accepted (suc rounds) [] visited visited' h = (refl, λ a. ground arith, λ a k. ground arith)
walk-Accepted zero (n ∷ p) visited visited' h = cc
walk-Accepted (suc rounds) ((list i xs, depth) ∷ p) visited visited' h =
    elim (Bool-cases (ltb max_depth depth || seen i visited)) [
      | inl e ↦ cc (rw e at h)
      | inr e ↦
          let r = walk-Accepted rounds (extend depth xs p) (i ∷ visited) visited' (rw e at h) in
          (
            ground (arith, r.0, admissible-extend depth xs p),
            λ a. omega (arith, r.1 a, meets-extend a depth xs p),
            λ a k. r.2 a (count-cons a i visited (ground arith) k),
          )
    ]
walk-Accepted (suc rounds) ((dict i d, depth) ∷ p) visited visited' h =
    elim (Bool-cases (ltb max_depth depth || seen i visited)) [
      | inl e ↦ cc (rw e at h)
      | inr e ↦ elim (Option-cases (members depth d p)) [
        | inl m ↦ cc (rw (e, m) at h)
        | inr (q, m) ↦
            let r = walk-Accepted rounds q (i ∷ visited) visited' (rw (e, m) at h) in
            (
              ground (arith, r.0, admissible-members depth d p q),
              λ a. omega (arith, r.1 a, meets-members a depth d p q m),
              λ a k. r.2 a (count-cons a i visited (ground arith) k),
            )
      ]
    ]
walk-Accepted (suc rounds) ((v, depth) ∷ p) visited visited' h =
    let r = walk-Accepted rounds p visited visited' (ground arith) in
    (ground (arith, r.0), λ a. omega (arith, r.1 a), r.2)

size_pos : (v : Value) → 0 < size v
unfolding size
size_pos (list i xs) = omega arith
size_pos _ = omega arith

walk_complete :
    (rounds : ℕ) (p : Pending) (visited : List ℕ)
    → total_size p ≤ rounds
    → all_admissible p ≡ true
    → ((a : ℕ) → count a visited + total_meets a p ≤ 1)
    → (visited' : List ℕ) × (walk rounds p visited ≡ some visited')
unfolding walk size admissible meets
walk_complete zero [] visited s h k = (visited, refl)
walk_complete (suc rounds) [] visited s h k = (visited, refl)
walk_complete zero ((v, depth) ∷ p) visited s h k = absurd (omega (arith, size_pos v))
walk_complete (suc rounds) ((list i xs, depth) ∷ p) visited s h k =
    let e : (ltb max_depth depth || seen i visited) ≡ false =
      ground (arith, seen-count i visited, k i) in
    rw e (
      walk_complete rounds (extend depth xs p) (i ∷ visited) (omega (arith, size-extend depth xs p))
        (ground (arith, admissible-extend depth xs p))
        (λ a. omega (arith, k a, meets-extend a depth xs p)))
walk_complete (suc rounds) ((dict i d, depth) ∷ p) visited s h k =
    let e : (ltb max_depth depth || seen i visited) ≡ false =
      ground (arith, seen-count i visited, k i) in
    elim (Option-cases (members depth d p)) [
      | inl m ↦ absurd (ground (arith, members-none depth d p m))
      | inr (q, m) ↦
          rw (e, m)
            (walk_complete rounds q (i ∷ visited) (omega (arith, size-members depth d p q m))
              (ground (arith, admissible-members depth d p q m))
              (λ a. omega (arith, k a, meets-members a depth d p q m)))
    ]
walk_complete (suc rounds) ((v, depth) ∷ p) visited s h k =
    let r = walk_complete rounds p visited (omega arith) (ground arith) (λ a. omega (arith, k a)) in
    (r.0, ground (arith, r.1))

-- For a shared visited set without repetitions, the iterative walk admits a payload exactly when all
-- its nodes are admissible JSON within the depth bound and it meets no container twice, neither
-- within itself nor among the containers visited before; whether it does needs no more rounds than
-- the payload has nodes.
pub payloads_ok_iff :
    (payload : Value) (visited : List ℕ)
    → ((a : ℕ) → count a visited ≤ 1)
    → ((visited' : List ℕ) × (payloads_ok (payload ∷ []) visited ≡ some visited'))
      ↔ ((admissible 1 payload ≡ true) × ((a : ℕ) → count a visited + meets a payload ≤ 1))
unfolding payloads_ok
payloads_ok_iff payload visited distinct = (
  λ (visited', h).
      let r = walk-Accepted _ ((payload, 1) ∷ []) visited visited' h in
      (ground (arith, r.0), λ a. omega (arith, r.1 a, r.2 a (distinct a))),
  λ (h, k).
      walk_complete _ ((payload, 1) ∷ []) visited (omega arith) (ground arith)
        (λ a. omega (arith, k a)),
)

-- What `_job_ok` needs of a successful walk.
pub payloads_ok-admissible :
    (payload : Value) (visited visited' : List ℕ)
    → payloads_ok (payload ∷ []) visited ≡ some visited'
    → admissible 1 payload ≡ true
unfolding payloads_ok
payloads_ok-admissible payload visited visited' h =
    ground (arith, (walk-Accepted _ ((payload, 1) ∷ []) visited visited' h).0)

pub payloads_ok-distinct :
    (payload : Value) (visited visited' : List ℕ)
    → ((a : ℕ) → count a visited ≤ 1)
    → payloads_ok (payload ∷ []) visited ≡ some visited'
    → (a : ℕ) → count a visited' ≤ 1
unfolding payloads_ok
payloads_ok-distinct payload visited visited' distinct h a =
    (walk-Accepted _ ((payload, 1) ∷ []) visited visited' h).2 a (distinct a)
