-- ===== src/Graph/Conflict/Check.antt =====
-- `_validated_identity`, `_validated_state` and `_state_id` of graph/conflict.py.
use openchess.Base.{List, Option, Text, [], codes, none, some, text_eq, ◌++◌, ◌∷◌}
use openchess.Base.Maybe.{◌>>=◌, ◌>>◌, guard}
use openchess.Python.Values.{Value, text, dict, Entries, end, entry, get, as_text}
use openchess.Python.Grammar.{Grammar, is_hex, fullmatch}
use openchess.Jobs.Queue.Check.{keys_are}
use openchess.Graph.Conflict.{Node, Map, lookup, keys, sort_texts}

-- data/contracts/position_digest.yaml, digest.format
abbrev pub position_digest_grammar : Grammar
position_digest_grammar = record { prefix = codes "pdv1:"; class = is_hex; fewest = 64; most = 64 }

-- What the linked runtimes derive from a variant and a snapshot.
pub record Derived : Type 0 where
  pub variant : Text
  pub snapshot_fen : Text
  pub key : Text

-- `derive` stands for `make_record` of graph/node.py with the identity projection of
-- tools/variant_runtime.py: none where one of them raises.
module _ (derive : Text → Text → Option Derived) where
  unfoldable pub validated_identity : Text → Value → Option Node
  validated_identity key (dict i d) = do
    keys_are d (codes "variant" ∷ (codes "digest" ∷ (codes "snapshot_fen" ∷ [])))
    variant ← get (codes "variant") d >>= as_text
    digest ← get (codes "digest") d >>= as_text
    snapshot ← get (codes "snapshot_fen") d >>= as_text
    derived ← derive variant snapshot
    guard (text_eq variant derived.variant)
    guard (text_eq snapshot derived.snapshot_fen)
    guard (fullmatch position_digest_grammar digest)
    guard (text_eq derived.key key)
    some (record { variant = variant; digest = digest; snapshot_fen = snapshot })
  validated_identity key _ = none

  unfoldable pub validated_entries : Entries → Option (Map Node)
  validated_entries end = some []
  validated_entries (entry (text key) v d) = do
    node ← validated_identity key v
    rest ← validated_entries d
    some ((key, node) ∷ rest)
  validated_entries _ = none

  unfoldable pub validated_state : Value → Option (Map Node)
  validated_state (dict i d) = validated_entries d
  validated_state _ = none

-- One round of `_state_id`: the fields by name.
unfoldable pub node_text : Text → Option Node → Text
node_text key none = []
node_text key (some n) =
    key
    ++ (10
        ∷ (codes "digest="
            ++ (n.digest
                ++ (codes "|snapshot_fen="
                    ++ (n.snapshot_fen ++ (codes "|variant=" ++ (n.variant ++ (10 ∷ []))))))))

unfoldable pub state_text : Map Node → List Text → Text
state_text m [] = []
state_text m (k ∷ ks) = node_text k (lookup k m) ++ state_text m ks

-- `hexdigest` stands for SHA-256 over the UTF-8 bytes of a text, in hexadecimal.
unfoldable pub state_id_of : (Text → Text) → Map Node → Text
state_id_of hexdigest m = codes "gs1:" ++ hexdigest (state_text m (sort_texts (keys m)))

-- `state_id`
unfoldable pub state_id : (Text → Text) → (Text → Text → Option Derived) → Value → Option Text
state_id hexdigest derive state = do
  frozen ← validated_state derive state
  some (state_id_of hexdigest frozen)
