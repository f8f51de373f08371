-- ===== src/Graph/Conflict.antt =====
-- The three-way conflict detector (graph/conflict.py): states, changes and conflicts.
pub mod Check
pub mod Detect
pub mod Keys
pub mod Changes
pub mod Verdict
pub mod Mirror
use openchess.Base.{
  Bool, List, Option, Text, [], if◌then◌else◌, none, some, text_eq, text_lt, ◌&&◌, ◌∷◌,
}

pub data Failure : Type 0 where
  malformed_conflict_record divergent_base : Failure

-- A node record, data/contracts/transposition_node.yaml
pub record Node : Type 0 where
  pub variant : Text
  pub digest : Text
  pub snapshot_fen : Text

-- A dict with str keys; no key stands in it twice.
abbrev pub Map {ℓ} : Type ℓ → Type ℓ
Map A = List (Text × A)

-- `d.get(key)`
unfoldable pub lookup {ℓ} : {A : Type ℓ} → Text → Map A → Option A
lookup key [] = none
lookup key ((k, a) ∷ rest) = let found = lookup key rest in if text_eq k key then some a else found

-- `rec == other`
abbrev pub node_eq : Node → Node → Bool
node_eq a b =
    text_eq a.variant b.variant
    && (text_eq a.digest b.digest && text_eq a.snapshot_fen b.snapshot_fen)

-- The kinds of `_changes` with their records.
pub data Change : Type 0 where
  added changed removed : Node → Change

pub data Kind : Type 0 where
  added_differently both_changed_differently changed_vs_removed : Kind

-- One witness of the result.
pub record Conflict : Type 0 where
  pub kind : Kind
  pub left : Option Node
  pub right : Option Node

pub record Report : Type 0 where
  pub base_id : Text
  pub left_id : Text
  pub right_id : Text
  pub conflicts : Map Conflict

-- The keys of a dict, and `sorted` of them.
unfoldable pub keys {ℓ} : {A : Type ℓ} → Map A → List Text
keys [] = []
keys ((k, a) ∷ rest) = k ∷ keys rest

unfoldable pub insert_text : Text → List Text → List Text
insert_text t [] = t ∷ []
insert_text t (u ∷ us) =
    let rest = insert_text t us in if text_lt u t then u ∷ rest else t ∷ (u ∷ us)

unfoldable pub sort_texts : List Text → List Text
sort_texts [] = []
sort_texts (t ∷ ts) = insert_text t (sort_texts ts)

-- The values that a function has at some keys.
unfoldable pub select {ℓ} : {A : Type ℓ} → (Text → Option A) → List Text → Map A
select f [] = []
select f (k ∷ ks) = let rest = select f ks in elim (f k) [ some a ↦ (k, a) ∷ rest | none ↦ rest ]
