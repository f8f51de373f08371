-- ===== src/Jobs/Payload.antt =====
-- The admission of job payloads (server/jobs_queue.py, `_scalar` and `_payloads_ok`): an iterative
-- walk over exact JSON that meets no container twice.
pub mod Shape
pub mod Walk
use openchess.Base.{
  ℕ, zero, suc, ◌+◌, ◌^◌, Bool, true, false, ◌&&◌, ◌||◌, not, Option, none, some, List, [], ◌∷◌,
  leb, ltb, ◌==◌, if◌then◌else◌, Text,
}
use openchess.Python.Values.{
  magnitude, Value, null, boolean, integer, floating, text, list, dict, Items, nil, item, Entries,
  end, entry,
}

abbrev pub max_depth : ℕ
max_depth = 64

-- An int of at most `MAX_INT_DIGITS` decimal digits; the bit-length screen lets all of these pass.
unfoldable pub int_ok : ℕ → Bool
int_ok n = ltb n (10 ^ 4000)

-- `node.encode("utf-8")` succeeds: no lone surrogate
unfoldable pub utf8_ok : Text → Bool
utf8_ok [] = true
utf8_ok (c ∷ s) = not (leb 0xd800 c && leb c 0xdfff) && utf8_ok s

unfoldable pub scalar : Value → Bool
scalar null = true
scalar (boolean b) = true
scalar (integer z) = int_ok (magnitude z)
scalar (floating finite repr) = finite
scalar (text t) = utf8_ok t
scalar _ = false

-- `id(node) in visited`
unfoldable pub seen : ℕ → List ℕ → Bool
seen i [] = false
seen i (j ∷ js) = (i == j) || seen i js

-- The nodes still to visit with their depths, the one that `pop` takes at the head.
abbrev pub Pending : Type 0
Pending = List (Value × ℕ)

-- `pending.extend((item, depth + 1) for item in node)`
unfoldable pub extend : ℕ → Items → Pending → Pending
extend depth nil pending = pending
extend depth (item v xs) pending = extend depth xs ((v, depth + 1) ∷ pending)

-- The loop over the members of a dict, which stops at a key that is no admissible str.
unfoldable pub members : ℕ → Entries → Pending → Option Pending
members depth end pending = some pending
members depth (entry (text k) v d) pending =
    let rest = members depth d ((v, depth + 1) ∷ pending) in if utf8_ok k then rest else none
members depth (entry _ v d) pending = none

-- The nodes of a value, dict keys not counted.
unfoldable mutual
  pub size : Value → ℕ
  size (list i xs) = suc (size_items xs)
  size (dict i d) = suc (size_entries d)
  size _ = 1

  pub size_items : Items → ℕ
  size_items nil = 0
  size_items (item v xs) = size v + size_items xs

  pub size_entries : Entries → ℕ
  size_entries end = 0
  size_entries (entry k v d) = size v + size_entries d

abbrev pub total_size : Pending → ℕ
total_size [] = 0
total_size ((v, depth) ∷ pending) = size v + total_size pending

-- The loop of `_payloads_ok`. The result is the visited set that the caller shares, and `none` where
-- the source returns False. `rounds` bounds the nodes left to visit.
unfoldable pub walk : ℕ → Pending → List ℕ → Option (List ℕ)
unfolding extend members seen scalar
walk rounds [] visited = some visited
walk zero (n ∷ pending) visited = none
walk (suc rounds) ((list i xs, depth) ∷ pending) visited =
    let rest = walk rounds (extend depth xs pending) (i ∷ visited) in
    if ltb max_depth depth || seen i visited then none else rest
walk (suc rounds) ((dict i d, depth) ∷ pending) visited =
    let rest = λ (next : Pending). walk rounds next (i ∷ visited) in
    if ltb max_depth depth || seen i visited
    then none
    else elim (members depth d pending) [ none ↦ none | some next ↦ rest next ]
walk (suc rounds) ((v, depth) ∷ pending) visited =
    let rest = walk rounds pending visited in if scalar v then rest else none

-- `[(root, 1) for root in roots]`, the last one on top
unfoldable pub starting : List Value → Pending → Pending
starting [] pending = pending
starting (root ∷ roots) pending = starting roots ((root, 1) ∷ pending)

-- `_payloads_ok`; the loop makes one round for each node, so their number is enough rounds.
unfoldable pub payloads_ok : List Value → List ℕ → Option (List ℕ)
unfolding starting
payloads_ok roots visited =
    let pending = starting roots [] in walk (total_size pending) pending visited
