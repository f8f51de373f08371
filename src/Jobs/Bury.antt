-- ===== src/Jobs/Bury.antt =====
-- The burial of dead jobs (server/jobs_dead_letter.py).
pub mod Decide
pub mod Apart
use openchess.Base.{
  ℕ, Option, none, some, [], ◌∷◌, Text, codes, text_eq, Bool, if◌then◌else◌, true, false,
}
use openchess.Base.Maybe.{◌>>=◌, ◌>>◌, guard}
use openchess.Python.Values.{Value, text, integer, pos, dict, end, entry, get, int_in, as_text}
use openchess.Jobs.Queue.{Job, Status, dead, max_now}
use openchess.Jobs.Queue.Check.{keys_are}
use openchess.Jobs.Stored.{as_dict}

pub data Failure : Type 0 where
  malformed_bury_request corrupt_job job_not_dead : Failure

pub data Reason : Type 0 where
  exhausted permanent : Reason

-- `type(request["reason"]) is str and request["reason"] in _REASONS`
unfoldable pub read_reason : Value → Option Reason
read_reason (text t) =
    if text_eq t (codes "exhausted")
    then some exhausted
    else if text_eq t (codes "permanent")
    then some permanent
    else none
read_reason _ = none

-- The checked copy of a request, its job still unchecked.
pub record Request : Type 0 where
  pub job : Value
  pub reason : Reason
  pub now : ℕ

-- `_request_ok`
unfoldable pub request_ok : Value → Option Request
unfolding read_reason
request_ok (dict i d) = do
  keys_are d (codes "op" ∷ codes "job" ∷ codes "reason" ∷ codes "now" ∷ [])
  op ← get (codes "op") d >>= as_text
  guard (text_eq op (codes "bury"))
  job ← get (codes "job") d >>= as_dict
  reason ← get (codes "reason") d >>= read_reason
  now ← get (codes "now") d >>= int_in 0 max_now
  some (record { job = job; reason = reason; now = now })
request_ok _ = none

-- `status == "dead"`
unfoldable pub is_dead : Status → Bool
is_dead dead = true
is_dead _ = false

-- data/contracts/dead_letter.yaml, record.fields, less the fixed `op`
pub record Entry : Type 0 where
  pub job_id : Text
  pub seq : ℕ
  pub priority : ℕ
  pub payload_digest : Text
  pub attempts : ℕ
  pub reason : Reason
  pub buried_at : ℕ
  pub entry_id : Text

abbrev reason_name : Reason → Text
reason_name exhausted = codes "exhausted"
reason_name permanent = codes "permanent"

-- The record without its id, as the dict that is dumped.
abbrev pub encode_entry : Job → Text → Reason → ℕ → Value
encode_entry job digest reason now = dict 0 (
    entry (text (codes "op")) (text (codes "bury")) (
      entry (text (codes "job_id")) (text job.job_id) (
        entry (text (codes "seq")) (integer (pos job.seq)) (
          entry (text (codes "priority")) (integer (pos job.priority)) (
            entry (text (codes "payload_digest")) (text digest) (
              entry (text (codes "attempts")) (integer (pos job.attempts)) (
                entry (text (codes "reason")) (text (reason_name reason))
                  (entry (text (codes "buried_at")) (integer (pos now)) end))))))))
