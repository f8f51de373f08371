-- ===== src/Jobs/Stored.antt =====
-- A job of the queue as the other job modules check it: `_payload_ok` and `_job_ok` of
-- server/jobs_restart.py, server/jobs_cancel.py and server/jobs_dead_letter.py.
pub mod Same
pub mod Alone
use openchess.Python.Dumps.{dumps}
use openchess.Base.{Text, ◌++◌, ℕ, Option, none, some, List, [], ◌∷◌, codes, true}
use openchess.Base.Maybe.{◌>>=◌, ◌>>◌}
use openchess.Python.Values.{Value, dict, get, int_in, int_below, text_matching}
use openchess.Python.Grammar.{fullmatch, job_id_grammar}
use openchess.Jobs.Payload.{payloads_ok}
use openchess.Jobs.Queue.{Job, max_attempts, max_priority, max_now}
use openchess.Jobs.Queue.Check.{keys_are, job_fields, read_status, read_lease}

-- `_payload_ok`: one payload against the containers seen before it
abbrev pub payload_ok : Value → List ℕ → Option (List ℕ)
payload_ok root seen = payloads_ok (root ∷ []) seen

-- `_job_ok` with the sequence number in `[lowest_seq, next_seq)`
unfoldable pub stored_job : ℕ → ℕ → List ℕ → Value → Option (Job × List ℕ)
stored_job lowest_seq next_seq containers (dict i d) = do
  keys_are d job_fields
  jid ← get (codes "job_id") d >>= text_matching (fullmatch job_id_grammar)
  seq ← get (codes "seq") d >>= int_below lowest_seq next_seq
  priority ← get (codes "priority") d >>= int_in 0 max_priority
  status ← get (codes "status") d >>= read_status
  attempts ← get (codes "attempts") d >>= int_in 0 max_attempts
  owner ← get (codes "lease_owner") d
  expires ← get (codes "lease_expires_at") d
  lease ← read_lease status attempts owner expires
  payload ← get (codes "payload") d
  containers' ← payload_ok payload containers
  some (
    record {
      job_id = jid;
      seq = seq;
      priority = priority;
      payload = payload;
      status = status;
      attempts = attempts;
      lease_owner = lease.0;
      lease_expires_at = lease.1;
    },
    containers',
  )
stored_job lowest_seq next_seq containers _ = none

abbrev pub job_of : Job × List ℕ → Option Job
job_of r = some r.0

-- `_job_ok(job)` of a job that stands alone: its payload shares a container with no other.
unfoldable pub single_job : Value → Option Job
single_job v = stored_job 0 max_now [] v >>= job_of

-- `type(request["job"]) is dict`
abbrev pub as_dict : Value → Option Value
as_dict (dict i d) = some (dict i d)
as_dict _ = none

-- A prefix, and the digest of prefix, NUL and the canonical dump.
unfoldable pub digest_of : (Text → Text) → Text → Value → Text
digest_of hexdigest prefix v = prefix ++ codes ":" ++ hexdigest (prefix ++ (0 ∷ dumps true v))
