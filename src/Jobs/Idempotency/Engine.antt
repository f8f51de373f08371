-- ===== src/Jobs/Idempotency/Engine.antt =====
-- `JobsIdempotencyEngine` of server/jobs_idempotency.py. `fingerprinter` stands for what
-- the untrusted function that the engine is given does at the one call of it: none where it raises.
-- Calls of the engine may have different ones.
use openchess.Base.{
  ◌>>=◌, ◌>>◌, ok, err, Result, or_else, require, Option, none, some, List, [], ◌∷◌, ◌++◌, Text,
  codes, not, ◌||◌, ◌&&◌, text_eq, length, if◌then◌else◌,
}
use openchess.Python.Values.{Value, text, dict, entry}
use openchess.Python.Grammar.{fullmatch}
use openchess.Jobs.Queue
use openchess.Jobs.Queue.{State}
use openchess.Jobs.Queue.Check.{check_state}
use openchess.Jobs.Queue.Engine
use openchess.Jobs.Queue.Engine.{encode_state, state_id_for, op_name}
use openchess.Jobs.Idempotency.{
  Failure, malformed_idempotency_request, corrupt_queue, corrupt_ledger, divergent_fingerprint,
  key_conflict, queue_rejected, Request, Receipt, fingerprint_grammar, request_fingerprint,
  derive_receipt_id, encode_payload,
}
use openchess.Jobs.Idempotency.Check.{read_idempotent, read_ledger, containers, overlap}

-- A failure of a linked call, as another class.
abbrev pub recast {ℓ κ μ} :
    {E : Type ℓ} {F : Type κ} {A : Type μ} → (E → F) → Result E A → Result F A
recast f (ok a) = ok a
recast f (err e) = err (f e)

abbrev with_op : Text → Value → Value
with_op op (dict i d) = dict i (entry (text (codes "op")) (text op) d)
with_op op v = v

-- The request that is rebuilt for the queue.
unfoldable pub encode_request : Queue.Request → Value
encode_request q = with_op (op_name q) (encode_payload q)

-- The receipt of the key, the last one if there are several.
unfoldable pub stored_for : Text → List Receipt → Option Receipt
stored_for key [] = none
stored_for key (r ∷ rs) = elim (stored_for key rs) [
  | some s ↦ some s
  | none ↦ if text_eq r.idempotency_key key then some r else none
]

pub data Outcome : Type 0 where
  applied replayed : Outcome

-- The queue state and its ledger.
pub record Store : Type 0 where
  pub state : State
  pub ledger : List Receipt

-- `_fingerprint` on what the fingerprinter gave.
unfoldable pub bound_token : Text → Option Value → Result Failure Text
bound_token expected (some (text t)) = do
  require (fullmatch fingerprint_grammar t && text_eq t expected) divergent_fingerprint
  ok t
bound_token expected _ = err divergent_fingerprint

module _ (hexdigest : Text → Text) where
  unfoldable pub new_receipt : Text → Text → State → State → List Receipt → Receipt
  new_receipt key token s s' ledger = record {
    receipt_id =
        derive_receipt_id hexdigest key token (state_id_for hexdigest s) (state_id_for hexdigest s')
          (length ledger);
    idempotency_key = key;
    request_fingerprint = token;
    prior_state_id = state_id_for hexdigest s;
    state_id = state_id_for hexdigest s';
    sequence = length ledger;
  }

  -- The queue's transition and the receipt for it.
  unfoldable pub apply_new : Text → Request → Store → Result Failure (Outcome × Receipt × Store)
  unfolding new_receipt
  apply_new token req store = do
    work ←
        recast queue_rejected
          (Engine.apply hexdigest (encode_state store.state) (encode_request req.operation))
    let receipt = new_receipt req.idempotency_key token store.state work.0 store.ledger
    ok (applied, receipt, record { state = work.0; ledger = store.ledger ++ (receipt ∷ []) })

  -- A key that is known is replayed, and any other applied.
  unfoldable pub apply_stored :
      Text → Request → Store → Option Receipt → Result Failure (Outcome × Receipt × Store)
  apply_stored token req store (some stored) = do
    require (text_eq stored.request_fingerprint token) key_conflict
    ok (replayed, stored, store)
  apply_stored token req store none = apply_new token req store

  module _ (fingerprinter : Text → Value → Option Value) where
    -- `apply` on checked values, from the one call of the fingerprinter.
    unfoldable pub apply_once : Request → Store → Result Failure (Outcome × Receipt × Store)
    apply_once req store = do
      let q = req.operation
      token ←
          bound_token (request_fingerprint hexdigest q)
            (fingerprinter (op_name q) (encode_payload q))
      apply_stored token req store (stored_for req.idempotency_key store.ledger)

    -- `apply`; on an error nothing is committed.
    unfoldable pub apply : Value → Value → Value → Result Failure (Outcome × Receipt × Store)
    apply state ledger request = do
      req ← or_else malformed_idempotency_request (read_idempotent request)
      s ← recast (λ _. corrupt_queue) (check_state state)
      receipts ← or_else corrupt_ledger (read_ledger hexdigest (state_id_for hexdigest s) ledger)
      require
          (not (
            overlap (containers request) (containers state)
            || overlap (containers request) (containers ledger)))
          malformed_idempotency_request
      apply_once req (record { state = s; ledger = receipts })
