-- ===== src/Jobs/Idempotency.antt =====
-- The idempotent queue (server/jobs_idempotency.py): its requests, its receipts, and the pinned
-- derivations of fingerprints and receipt ids.
pub mod Check
pub mod Engine
pub mod Bound
pub mod Once
pub mod Again
pub mod Ledger
pub mod Chain
pub mod Next
use openchess.Base.{ℕ, Bool, false, ◌&&◌, ◌||◌, [], ◌∷◌, ◌++◌, leb, length, Text, codes}
use openchess.Python.Values.{Value, text, integer, pos, dict, end, entry}
use openchess.Python.Grammar.{Grammar, is_hex, is_token, fullmatch}
use openchess.Python.Dumps.{dumps, decimal}
use openchess.Jobs.Queue
use openchess.Jobs.Queue.{enqueue, claim, ack, nack}
use openchess.Jobs.Queue.Engine.{op_name}

-- The classes of this module; a rejection by the queue passes through with its own.
pub data Failure : Type 0 where
  malformed_idempotency_request corrupt_queue corrupt_ledger : Failure
  divergent_fingerprint key_conflict : Failure
  queue_rejected : Queue.Failure → Failure

-- data/contracts/jobs_idempotency.yaml, record.fields
pub record Receipt : Type 0 where
  pub receipt_id : Text
  pub idempotency_key : Text
  pub request_fingerprint : Text
  pub prior_state_id : Text
  pub state_id : Text
  pub sequence : ℕ

-- The frozen request: its key, and its op with its payload as the queue has checked them.
pub record Request : Type 0 where
  pub idempotency_key : Text
  pub operation : Queue.Request

abbrev pub receipt_grammar : Grammar
receipt_grammar = record { prefix = codes "jir1:"; class = is_hex; fewest = 64; most = 64 }

abbrev pub fingerprint_grammar : Grammar
fingerprint_grammar = record { prefix = codes "jif1:"; class = is_hex; fewest = 64; most = 64 }

abbrev pub state_id_grammar : Grammar
state_id_grammar = record { prefix = codes "qs1:"; class = is_hex; fewest = 64; most = 64 }

-- `[A-Za-z0-9]`
is_alphanumeric : ℕ → Bool
is_alphanumeric c =
    (leb b'A' c && leb c b'Z') || (leb b'a' c && leb c b'z') || (leb b'0' c && leb c b'9')

-- data/contracts/jobs_idempotency.yaml, identifiers.idempotency_key
unfoldable pub key_ok : Text → Bool
unfolding is_alphanumeric
key_ok [] = false
key_ok (c ∷ s) =
    is_alphanumeric c
    && fullmatch (record { prefix = []; class = is_token; fewest = 0; most = 127 }) s

-- The payload dict of a frozen request.
unfoldable pub encode_payload : Queue.Request → Value
encode_payload (enqueue key priority payload) = dict 0 (
    entry (text (codes "dedupe_key")) (text key) (
      entry (text (codes "priority")) (integer (pos priority))
        (entry (text (codes "payload")) payload end)))
encode_payload (claim worker now lease_ms) = dict 0 (
    entry (text (codes "worker")) (text worker) (
      entry (text (codes "now")) (integer (pos now))
        (entry (text (codes "lease_ms")) (integer (pos lease_ms)) end)))
encode_payload (ack jid worker now) = dict 0 (
    entry (text (codes "worker")) (text worker) (
      entry (text (codes "now")) (integer (pos now))
        (entry (text (codes "job_id")) (text jid) end)))
encode_payload (nack jid worker now) = dict 0 (
    entry (text (codes "worker")) (text worker) (
      entry (text (codes "now")) (integer (pos now))
        (entry (text (codes "job_id")) (text jid) end)))

-- `hexdigest` stands for SHA-256 over the UTF-8 bytes of a text, in hexadecimal.
module _ (hexdigest : Text → Text) where
  -- `request_fingerprint`
  unfoldable pub request_fingerprint : Queue.Request → Text
  request_fingerprint q =
      let op = op_name q in
      let canon = dumps false (encode_payload q) in
      codes "jif1:"
      ++ hexdigest (
          codes "jif1|"
          ++ (decimal (length op)
              ++ (b':' ∷ (op ++ (b'|' ∷ (decimal (length canon) ++ (b':' ∷ canon)))))))

  -- `derive_receipt_id`
  unfoldable pub derive_receipt_id : Text → Text → Text → Text → ℕ → Text
  derive_receipt_id key fingerprint prior after sequence =
      codes "jir1:"
      ++ hexdigest (
          key
          ++ (10 ∷ (fingerprint ++ (10 ∷ (prior ++ (10 ∷ (after ++ (10 ∷ decimal sequence))))))))
