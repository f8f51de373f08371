-- ===== src/Examples/AgainRuns.antt =====
-- A call of `apply` of server/jobs_idempotency.py that is repeated.
use openchess.Python.Grammar.{fullmatch, is_hex}
use openchess.Jobs.Queue.Engine.{encode_state, state_id_for}
use openchess.Jobs.Idempotency.Check.{read_idempotent, read_ledger}
use openchess.Jobs.Idempotency.Ledger.{encode_receipts}
use openchess.Jobs.Idempotency.Next.{apply_once-accepted}
use openchess.Jobs.Idempotency.Bound.{faithful}
use openchess.Jobs.Idempotency.Once.{after_all, given}
use openchess.Jobs.Idempotency.Again.{apply-again, entangled}
use openchess.Jobs.Queue.Check.{check_state}
use openchess.Base.{
  ℕ, ◌+◌, ◌∙◌, refl, some, codes, ◌≡◌, if◌then◌else◌, [], ◌∷◌, Option, text_eq, ok, false, err,
}
use openchess.Python.Values.{Value, dict, entry, end, integer, pos, null, text, list, nil, item}
use openchess.Jobs.Queue
use openchess.Jobs.Queue.{enqueue}
use openchess.Jobs.Idempotency.{divergent_fingerprint, key_ok, Request, request_fingerprint}
use openchess.Jobs.Idempotency.Engine.{apply, new_receipt, apply_once, applied, replayed}
use openchess.Examples.OnceRuns.{
  digest, digest-hex, fingerprinter, silent, asking, other, empty, queued, answered, first_receipt,
  apply_once_runs, asking-key, empty_reads,
}

-- The request object, with its containers at the given places.
abbrev sent : ℕ → Value
sent i = dict i (
    entry (text (codes "idempotency_key")) (text (codes "k1")) (
      entry (text (codes "op")) (text (codes "enqueue")) (
        entry (text (codes "payload"))
          (dict (i + 1) (
            entry (text (codes "dedupe_key")) (text (codes "import")) (
              entry (text (codes "priority")) (integer (pos 3))
                (entry (text (codes "payload")) (list (i + 2) (item null nil)) end))))
          end)))

abbrev asking_again : Request
asking_again = record {
  idempotency_key = codes "k1";
  operation = enqueue (codes "import") 3 (list 22 (item null nil));
}

sent_reads : read_idempotent (sent 2) ≡ some asking
unfolding read_idempotent openchess.Python.Values.text_keys openchess.Base.text_in text_eq
    openchess.Python.Values.get openchess.Python.Values.text_matching key_ok fullmatch
    openchess.Python.Grammar.is_token openchess.Jobs.Queue.Check.read_request
    openchess.Python.Values.int_in openchess.Jobs.Payload.payloads_ok openchess.Jobs.Payload.walk
    openchess.Jobs.Payload.size
sent_reads = refl

again_reads : read_idempotent (sent 20) ≡ some asking_again
unfolding read_idempotent openchess.Python.Values.text_keys openchess.Base.text_in text_eq
    openchess.Python.Values.get openchess.Python.Values.text_matching key_ok fullmatch
    openchess.Python.Grammar.is_token openchess.Jobs.Queue.Check.read_request
    openchess.Python.Values.int_in openchess.Jobs.Payload.payloads_ok openchess.Jobs.Payload.walk
    openchess.Jobs.Payload.size
again_reads = refl

same_tokens :
    request_fingerprint digest asking_again.operation ≡ request_fingerprint digest asking.operation
unfolding request_fingerprint openchess.Jobs.Idempotency.encode_payload openchess.Python.Dumps.dumps
same_tokens = refl

empty_state_reads : check_state (encode_state empty.state) ≡ ok empty.state
unfolding check_state encode_state openchess.Python.Values.text_keys openchess.Base.text_in text_eq
    openchess.Python.Values.get openchess.Python.Values.int_in
empty_state_reads = refl

apply_reads :
    apply digest fingerprinter (encode_state empty.state) (list 7 nil) (sent 2)
    ≡ apply_once digest fingerprinter asking empty
unfolding apply_once apply openchess.Jobs.Idempotency.Engine.bound_token read_idempotent fullmatch
    openchess.Python.Values.text_keys is_hex openchess.Base.text_in text_eq
    openchess.Jobs.Idempotency.Engine.apply_stored check_state request_fingerprint
    openchess.Python.Values.get openchess.Python.Dumps.decimal openchess.Python.Values.text_matching
    openchess.Python.Dumps.dumps key_ok openchess.Jobs.Idempotency.encode_payload
    openchess.Python.Grammar.is_token openchess.Base.text_lt openchess.Jobs.Queue.Check.read_request
    openchess.Jobs.Idempotency.Engine.stored_for openchess.Python.Values.int_in
    openchess.Jobs.Idempotency.Engine.apply_new openchess.Jobs.Payload.payloads_ok
    openchess.Jobs.Queue.Engine.apply openchess.Jobs.Payload.walk
    openchess.Jobs.Queue.Check.check_request openchess.Jobs.Payload.size
    openchess.Jobs.Idempotency.Engine.encode_request encode_state
    openchess.Jobs.Queue.Engine.enqueue_job read_ledger openchess.Jobs.Queue.Engine.enqueue_found
    openchess.Jobs.Idempotency.Check.read_receipts mathlib.Core.Option.bind
    openchess.Jobs.Idempotency.Check.containers openchess.Jobs.Idempotency.Check.overlap
    openchess.Jobs.Idempotency.Check.read_receipt new_receipt
    openchess.Jobs.Idempotency.derive_receipt_id openchess.Jobs.Payload.extend
    openchess.Jobs.Payload.int_ok openchess.Jobs.Payload.members openchess.Jobs.Payload.scalar
    openchess.Jobs.Payload.seen openchess.Jobs.Payload.starting openchess.Jobs.Payload.utf8_ok
    openchess.Jobs.Queue.Check.check_job openchess.Jobs.Queue.Check.check_jobs
    openchess.Jobs.Queue.Check.items_length openchess.Jobs.Queue.Check.read_claim
    openchess.Jobs.Queue.Check.read_enqueue openchess.Jobs.Queue.Check.read_lease
    openchess.Jobs.Queue.Check.read_op openchess.Jobs.Queue.Check.read_settle
    openchess.Jobs.Queue.Check.read_state openchess.Jobs.Queue.Check.read_status
    openchess.Jobs.Queue.Engine.by_id openchess.Jobs.Queue.Engine.claim_job
    openchess.Jobs.Queue.Engine.claim_loop openchess.Jobs.Queue.Engine.claimable
    openchess.Jobs.Queue.Engine.claimables openchess.Jobs.Queue.Engine.held
    openchess.Jobs.Queue.Engine.insert_job openchess.Jobs.Queue.Engine.job_id_for
    openchess.Jobs.Queue.Engine.new_job openchess.Jobs.Queue.Engine.receipt
    openchess.Jobs.Queue.Engine.settle openchess.Jobs.Queue.Engine.settle_found
    openchess.Jobs.Queue.Engine.sooner openchess.Jobs.Queue.Engine.sort_jobs state_id_for
    openchess.Jobs.Queue.Engine.transition openchess.Jobs.Queue.Engine.update_job
    openchess.Python.Values.int_below
apply_reads = refl

refused-unchanged : after_all digest ((silent, other) ∷ []) answered ≡ answered
unfolding after_all openchess.Jobs.Idempotency.Once.store_after apply_once
    openchess.Jobs.Idempotency.Engine.bound_token
refused-unchanged = refl

answered_state_reads :
    check_state (encode_state queued) ≡ ok (after_all digest ((silent, other) ∷ []) answered).state
unfolding check_state encode_state openchess.Python.Values.text_keys openchess.Base.text_in text_eq
    openchess.Python.Values.get openchess.Python.Values.int_in openchess.Python.Values.text_matching
    fullmatch is_hex openchess.Python.Values.int_below openchess.Jobs.Queue.Check.read_status
    openchess.Jobs.Queue.Check.read_lease openchess.Jobs.Payload.payloads_ok
    openchess.Jobs.Payload.walk openchess.Jobs.Payload.size after_all mathlib.Core.Option.bind
    openchess.Base.text_lt openchess.Jobs.Idempotency.Engine.apply_new apply_once
    openchess.Jobs.Idempotency.Engine.apply_stored openchess.Jobs.Idempotency.Engine.bound_token
    openchess.Jobs.Idempotency.Engine.encode_request new_receipt
    openchess.Jobs.Idempotency.Engine.stored_for openchess.Jobs.Idempotency.Once.store_after
    openchess.Jobs.Idempotency.derive_receipt_id openchess.Jobs.Idempotency.encode_payload
    request_fingerprint openchess.Jobs.Payload.extend openchess.Jobs.Payload.int_ok
    openchess.Jobs.Payload.members openchess.Jobs.Payload.scalar openchess.Jobs.Payload.seen
    openchess.Jobs.Payload.starting openchess.Jobs.Payload.utf8_ok
    openchess.Jobs.Queue.Check.check_job openchess.Jobs.Queue.Check.check_jobs
    openchess.Jobs.Queue.Check.check_request openchess.Jobs.Queue.Check.items_length
    openchess.Jobs.Queue.Check.read_claim openchess.Jobs.Queue.Check.read_enqueue
    openchess.Jobs.Queue.Check.read_op openchess.Jobs.Queue.Check.read_request
    openchess.Jobs.Queue.Check.read_settle openchess.Jobs.Queue.Check.read_state
    openchess.Jobs.Queue.Engine.apply openchess.Jobs.Queue.Engine.by_id
    openchess.Jobs.Queue.Engine.claim_job openchess.Jobs.Queue.Engine.claim_loop
    openchess.Jobs.Queue.Engine.claimable openchess.Jobs.Queue.Engine.claimables
    openchess.Jobs.Queue.Engine.enqueue_found openchess.Jobs.Queue.Engine.enqueue_job
    openchess.Jobs.Queue.Engine.held openchess.Jobs.Queue.Engine.insert_job
    openchess.Jobs.Queue.Engine.job_id_for openchess.Jobs.Queue.Engine.new_job
    openchess.Jobs.Queue.Engine.receipt openchess.Jobs.Queue.Engine.settle
    openchess.Jobs.Queue.Engine.settle_found openchess.Jobs.Queue.Engine.sooner
    openchess.Jobs.Queue.Engine.sort_jobs state_id_for openchess.Jobs.Queue.Engine.transition
    openchess.Jobs.Queue.Engine.update_job openchess.Python.Dumps.decimal
    openchess.Python.Dumps.dumps openchess.Python.Grammar.is_token
answered_state_reads = refl

answered_ledger_reads :
    read_ledger digest
      (state_id_for digest (after_all digest ((silent, other) ∷ []) answered).state)
      (list 8 (encode_receipts answered.ledger))
    ≡ some (after_all digest ((silent, other) ∷ []) answered).ledger
answered_ledger_reads = rw refused-unchanged (
    apply_once-accepted digest digest-hex fingerprinter asking empty answered applied first_receipt
      (list 7 nil) 8 asking-key empty_reads apply_once_runs)

objects-apart :
    entangled (encode_state queued) (list 8 (encode_receipts answered.ledger)) (sent 20) ≡ false
unfolding openchess.Jobs.Idempotency.Check.overlap openchess.Jobs.Idempotency.Check.containers
    encode_state encode_receipts
objects-apart = refl

apply-again_example :
    apply digest fingerprinter
      (encode_state queued)
      (list 8 (encode_receipts answered.ledger))
      (sent 20)
    ≡ (if faithful
          (request_fingerprint digest asking_again.operation)
          (given digest fingerprinter asking_again)
        then ok (replayed, first_receipt, after_all digest ((silent, other) ∷ []) answered)
        else err divergent_fingerprint)
apply-again_example =
    apply-again digest fingerprinter fingerprinter (encode_state empty.state) (list 7 nil) (sent 2)
      (encode_state queued) (list 8 (encode_receipts answered.ledger)) (sent 20) asking asking_again
      answered applied first_receipt ((silent, other) ∷ []) sent_reads
      (apply_reads ∙ apply_once_runs) again_reads refl same_tokens answered_state_reads
      answered_ledger_reads objects-apart
