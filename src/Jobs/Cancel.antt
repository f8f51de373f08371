-- ===== src/Jobs/Cancel.antt =====
-- The cancellation decision (server/jobs_cancel.py).
pub mod Decide
use openchess.Base.{ℕ, Option, none, some, [], ◌∷◌, Text, codes, text_eq, Bool, true, false}
use openchess.Base.Maybe.{◌>>=◌, ◌>>◌, guard}
use openchess.Python.Values.{
  Value, text, integer, pos, dict, end, entry, get, int_in, text_matching, as_text,
}
use openchess.Python.Grammar.{fullmatch, worker_grammar}
use openchess.Jobs.Queue.{Job, Status, ready, leased, max_now}
use openchess.Jobs.Queue.Check.{keys_are}
use openchess.Jobs.Queue.Engine.{status_name}
use openchess.Jobs.Stored.{as_dict}

pub data Failure : Type 0 where
  malformed_cancel_request corrupt_job job_not_cancellable : Failure

-- The checked copy of a request, its job still unchecked.
pub record Request : Type 0 where
  pub job : Value
  pub requester : Text
  pub now : ℕ

-- `_request_ok`; the grammar of a requester is the one of a worker
unfoldable pub request_ok : Value → Option Request
request_ok (dict i d) = do
  keys_are d (codes "op" ∷ codes "job" ∷ codes "requester" ∷ codes "now" ∷ [])
  op ← get (codes "op") d >>= as_text
  guard (text_eq op (codes "cancel"))
  job ← get (codes "job") d >>= as_dict
  requester ← get (codes "requester") d >>= text_matching (fullmatch worker_grammar)
  now ← get (codes "now") d >>= int_in 0 max_now
  some (record { job = job; requester = requester; now = now })
request_ok _ = none

-- `_CANCELLABLE`
unfoldable pub cancellable : Status → Bool
cancellable ready = true
cancellable leased = true
cancellable _ = false

-- data/contracts/cancel.yaml, record.fields, less the fixed `op`
pub record Record : Type 0 where
  pub job_id : Text
  pub seq : ℕ
  pub priority : ℕ
  pub payload_digest : Text
  pub status_before : Status
  pub attempts : ℕ
  pub requester : Text
  pub cancelled_at : ℕ
  pub decision_id : Text

-- The record without its id, as the dict that is dumped.
abbrev pub encode_record : Job → Text → Text → ℕ → Value
encode_record job digest requester now = dict 0 (
    entry (text (codes "op")) (text (codes "cancel")) (
      entry (text (codes "job_id")) (text job.job_id) (
        entry (text (codes "seq")) (integer (pos job.seq)) (
          entry (text (codes "priority")) (integer (pos job.priority)) (
            entry (text (codes "payload_digest")) (text digest) (
              entry (text (codes "status_before")) (text (status_name job.status)) (
                entry (text (codes "attempts")) (integer (pos job.attempts)) (
                  entry (text (codes "requester")) (text requester)
                    (entry (text (codes "cancelled_at")) (integer (pos now)) end)))))))))
