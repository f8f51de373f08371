-- ===== src/Examples/OnceRuns.antt =====
-- Runs of server/jobs_idempotency.py.
use openchess.Python.Grammar.{fullmatch, is_hex}
use openchess.Jobs.Queue.Valid.Kept.{digest_grammar}
use openchess.Jobs.Queue.Engine.{encode_state, state_id_for}
use openchess.Jobs.Idempotency.Check.{read_ledger}
use openchess.Jobs.Idempotency.Ledger.{encode_receipts}
use openchess.Jobs.Idempotency.Next.{apply_once-accepted}
use openchess.Jobs.Idempotency.Once.{after_all, apply_once-conflict}
use openchess.Jobs.Queue.Check.{check_state}
use openchess.Base.{
  true, Bool-cases, inl, inr, refl, none, some, Text, codes, ◌≡◌, if◌then◌else◌, [], ◌∷◌, Option,
  leb, length, text_eq, ok, false, err,
}
use openchess.Python.Values.{Value, null, text, list, nil, item}
use openchess.Jobs.Queue
use openchess.Jobs.Queue.{State, enqueue, ack, ready}
use openchess.Jobs.Idempotency.{key_ok, Request, request_fingerprint, Receipt, Failure}
use openchess.Jobs.Idempotency.Engine.{apply, Store, new_receipt, apply_once, applied}

-- Two digests of the right form, the first of which is of the short texts.
abbrev pub digest : Text → Text
digest t =
    if leb (length t) 60
    then codes "0000000000000000000000000000000000000000000000000000000000000000"
    else codes "1111111111111111111111111111111111111111111111111111111111111111"

abbrev pub fingerprinter : Text → Value → Option Value
fingerprinter op v =
    some (text (codes "jif1:1111111111111111111111111111111111111111111111111111111111111111"))

abbrev pub asking : Request
asking = record {
  idempotency_key = codes "k1";
  operation = enqueue (codes "import") 3 (list 4 (item null nil));
}

abbrev pub other : Request
other = record { idempotency_key = codes "k1"; operation = ack (codes "j") (codes "w") 1 }

abbrev pub empty : Store
empty = record { state = record { jobs = []; next_seq = 0 }; ledger = [] }

abbrev pub queued : State
queued = record {
  jobs =
      record {
        job_id = codes "job1:0000000000000000000000000000000000000000000000000000000000000000";
        seq = 0;
        priority = 3;
        payload = list 4 (item null nil);
        status = ready;
        attempts = 0;
        lease_owner = none;
        lease_expires_at = none;
      }
      ∷ [];
  next_seq = 1;
}

token_runs :
    request_fingerprint digest asking.operation
    ≡ codes "jif1:1111111111111111111111111111111111111111111111111111111111111111"
unfolding request_fingerprint openchess.Python.Dumps.decimal openchess.Python.Dumps.dumps
    openchess.Jobs.Idempotency.encode_payload openchess.Base.text_lt
token_runs = refl

abbrev pub answered : Store
answered = record {
  state = queued;
  ledger =
      new_receipt digest (codes "k1")
        (codes "jif1:1111111111111111111111111111111111111111111111111111111111111111") empty.state
        queued []
      ∷ [];
}

abbrev pub first_receipt : Receipt
first_receipt =
    new_receipt digest (codes "k1")
      (codes "jif1:1111111111111111111111111111111111111111111111111111111111111111") empty.state
      queued []

pub apply_once_runs :
    apply_once digest fingerprinter asking empty ≡ ok (applied, first_receipt, answered)
unfolding apply_once openchess.Jobs.Idempotency.Engine.bound_token
    openchess.Python.Grammar.fullmatch openchess.Python.Grammar.is_hex text_eq request_fingerprint
    openchess.Python.Dumps.decimal openchess.Python.Dumps.dumps
    openchess.Jobs.Idempotency.encode_payload openchess.Base.text_lt
    openchess.Jobs.Idempotency.Engine.apply_stored openchess.Jobs.Idempotency.Engine.stored_for
    openchess.Jobs.Idempotency.Engine.apply_new openchess.Jobs.Queue.Engine.apply
    openchess.Jobs.Queue.Check.check_request openchess.Jobs.Idempotency.Engine.encode_request
    openchess.Python.Values.get mathlib.Core.Option.bind openchess.Base.text_in new_receipt
    openchess.Jobs.Idempotency.derive_receipt_id openchess.Jobs.Payload.extend
    openchess.Jobs.Payload.int_ok openchess.Jobs.Payload.members openchess.Jobs.Payload.payloads_ok
    openchess.Jobs.Payload.scalar openchess.Jobs.Payload.seen openchess.Jobs.Payload.size
    openchess.Jobs.Payload.starting openchess.Jobs.Payload.utf8_ok openchess.Jobs.Payload.walk
    openchess.Jobs.Queue.Check.check_job openchess.Jobs.Queue.Check.check_jobs
    openchess.Jobs.Queue.Check.check_state openchess.Jobs.Queue.Check.items_length
    openchess.Jobs.Queue.Check.read_claim openchess.Jobs.Queue.Check.read_enqueue
    openchess.Jobs.Queue.Check.read_lease openchess.Jobs.Queue.Check.read_op
    openchess.Jobs.Queue.Check.read_request openchess.Jobs.Queue.Check.read_settle
    openchess.Jobs.Queue.Check.read_state openchess.Jobs.Queue.Check.read_status
    openchess.Jobs.Queue.Engine.by_id openchess.Jobs.Queue.Engine.claim_job
    openchess.Jobs.Queue.Engine.claim_loop openchess.Jobs.Queue.Engine.claimable
    openchess.Jobs.Queue.Engine.claimables openchess.Jobs.Queue.Engine.encode_state
    openchess.Jobs.Queue.Engine.enqueue_found openchess.Jobs.Queue.Engine.enqueue_job
    openchess.Jobs.Queue.Engine.held openchess.Jobs.Queue.Engine.insert_job
    openchess.Jobs.Queue.Engine.job_id_for openchess.Jobs.Queue.Engine.new_job
    openchess.Jobs.Queue.Engine.receipt openchess.Jobs.Queue.Engine.settle
    openchess.Jobs.Queue.Engine.settle_found openchess.Jobs.Queue.Engine.sooner
    openchess.Jobs.Queue.Engine.sort_jobs openchess.Jobs.Queue.Engine.state_id_for
    openchess.Jobs.Queue.Engine.transition openchess.Jobs.Queue.Engine.update_job
    openchess.Python.Grammar.is_token openchess.Python.Values.int_below
    openchess.Python.Values.int_in openchess.Python.Values.text_keys
    openchess.Python.Values.text_matching
apply_once_runs = refl

-- A fingerprinter that raises.
abbrev pub silent : Text → Value → Option Value
silent op v = none

fingerprints-differ :
    text_eq
      (request_fingerprint digest asking.operation)
      (request_fingerprint digest other.operation)
    ≡ false
unfolding text_eq request_fingerprint openchess.Python.Dumps.decimal openchess.Python.Dumps.dumps
    openchess.Jobs.Idempotency.encode_payload openchess.Base.text_lt
fingerprints-differ = refl

apply_once-conflict_example :
    (e : Failure) × (apply_once digest fingerprinter other
        (after_all digest ((silent, asking) ∷ []) answered)
      ≡ err e)
apply_once-conflict_example =
    apply_once-conflict digest fingerprinter fingerprinter asking other empty answered applied
      first_receipt ((silent, asking) ∷ []) apply_once_runs refl fingerprints-differ

pub digest-hex : (t : Text) → fullmatch digest_grammar (digest t) ≡ true
unfolding fullmatch is_hex
digest-hex t = elim (Bool-cases (leb (length t) 60)) [ inl e ↦ rw e refl | inr e ↦ rw e refl ]

pub asking-key : key_ok asking.idempotency_key ≡ true
unfolding key_ok fullmatch openchess.Python.Grammar.is_token
asking-key = refl

pub empty_reads :
    read_ledger digest (state_id_for digest empty.state) (list 7 nil) ≡ some empty.ledger
unfolding read_ledger openchess.Jobs.Idempotency.Check.read_receipts
empty_reads = refl

apply_once-accepted_example :
    read_ledger digest (state_id_for digest queued) (list 8 (encode_receipts answered.ledger))
    ≡ some answered.ledger
apply_once-accepted_example =
    apply_once-accepted digest digest-hex fingerprinter asking empty answered applied first_receipt
      (list 7 nil) 8 asking-key empty_reads apply_once_runs
