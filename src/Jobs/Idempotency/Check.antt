-- ===== src/Jobs/Idempotency/Check.antt =====
-- `_validate_request`, `_validate_ledger` and `_container_ids` of server/jobs_idempotency.py, with the
-- values read.
use openchess.Base.{
  ℕ, ◌+◌, Bool, true, false, not, ◌||◌, Option, none, some, List, [], ◌∷◌, ◌++◌, Text, codes,
  text_eq, text_in,
}
use openchess.Base.Maybe.{◌>>=◌, ◌>>◌, guard}
use openchess.Python.Values.{
  Value, text, dict, list, Items, nil, item, Entries, end, entry, get, text_keys, as_text, int_in,
  text_matching,
}
use openchess.Python.Grammar.{fullmatch}
use openchess.Jobs.Payload.{seen}
use openchess.Jobs.Queue.{max_now}
use openchess.Jobs.Queue.Check.{keys_are, read_request}
use openchess.Jobs.Idempotency.{
  Request, Receipt, key_ok, receipt_grammar, fingerprint_grammar, state_id_grammar,
  derive_receipt_id,
}

abbrev operations : List Text
operations = codes "enqueue" ∷ codes "claim" ∷ codes "ack" ∷ codes "nack" ∷ []

abbrev pub as_entries : Value → Option Entries
as_entries (dict i d) = some d
as_entries _ = none

-- `_validate_request`; `dict(payload, op=op)` is the payload with one more entry
unfoldable pub read_idempotent : Value → Option Request
read_idempotent (dict i d) = do
  keys_are d (codes "idempotency_key" ∷ codes "op" ∷ codes "payload" ∷ [])
  key ← get (codes "idempotency_key") d >>= text_matching key_ok
  op ← get (codes "op") d >>= as_text
  guard (text_in op operations)
  payload ← get (codes "payload") d >>= as_entries
  keys ← text_keys payload
  guard (not (text_in (codes "op") keys))
  operation ← read_request max_now (dict 0 (entry (text (codes "op")) (text op) payload))
  some (record { idempotency_key = key; operation = operation })
read_idempotent _ = none

-- The id of the last state of the ledger, if it has a receipt, against another.
abbrev pub continues : Option Text → Text → Bool
continues none id = true
continues (some last) id = text_eq id last

module _ (hexdigest : Text → Text) where
  -- One round of `_validate_ledger`.
  unfoldable pub read_receipt : ℕ → List Text → Option Text → Value → Option Receipt
  read_receipt index seen_keys last (dict i d) = do
    keys_are d (
        codes "receipt_id"
        ∷ codes "idempotency_key"
        ∷ codes "request_fingerprint"
        ∷ codes "prior_state_id"
        ∷ codes "state_id"
        ∷ codes "sequence"
        ∷ [])
    key ← get (codes "idempotency_key") d >>= text_matching key_ok
    fingerprint ←
        get (codes "request_fingerprint") d >>= text_matching (fullmatch fingerprint_grammar)
    prior ← get (codes "prior_state_id") d >>= text_matching (fullmatch state_id_grammar)
    after ← get (codes "state_id") d >>= text_matching (fullmatch state_id_grammar)
    rid ← get (codes "receipt_id") d >>= text_matching (fullmatch receipt_grammar)
    sequence ← get (codes "sequence") d >>= int_in index index
    guard (not (text_in key seen_keys))
    guard (continues last prior)
    guard (text_eq rid (derive_receipt_id hexdigest key fingerprint prior after sequence))
    some (record {
      receipt_id = rid;
      idempotency_key = key;
      request_fingerprint = fingerprint;
      prior_state_id = prior;
      state_id = after;
      sequence = sequence;
    })
  read_receipt index seen_keys last _ = none

  -- The loop of `_validate_ledger` and the test after it.
  unfoldable pub read_receipts : ℕ → List Text → Option Text → Text → Items → Option (List Receipt)
  read_receipts index seen_keys last live nil = do guard (continues last live); some []
  read_receipts index seen_keys last live (item v vs) = do
    r ← read_receipt index seen_keys last v
    rest ← read_receipts (index + 1) (r.idempotency_key ∷ seen_keys) (some r.state_id) live vs
    some (r ∷ rest)

  -- `_validate_ledger`
  unfoldable pub read_ledger : Text → Value → Option (List Receipt)
  read_ledger live (list i vs) = read_receipts 0 [] none live vs
  read_ledger live _ = none

-- `_container_ids`: the identities of the lists and dicts within a value
unfoldable mutual
  pub containers : Value → List ℕ
  containers (list i xs) = i ∷ containers_items xs
  containers (dict i d) = i ∷ containers_entries d
  containers _ = []

  pub containers_items : Items → List ℕ
  containers_items nil = []
  containers_items (item v xs) = containers v ++ containers_items xs

  pub containers_entries : Entries → List ℕ
  containers_entries end = []
  containers_entries (entry k v d) = containers v ++ containers_entries d

-- `ids & others` is not empty
unfoldable pub overlap : List ℕ → List ℕ → Bool
unfolding seen
overlap [] others = false
overlap (i ∷ is) others = seen i others || overlap is others
