-- ===== src/Jobs/Queue/Check.antt =====
-- `_check_request`, `_job_ok` and `_check_state` of server/jobs_queue.py: what they accept they also
-- read into the records of the model, which stand for the detached copies of the source.
use openchess.Base.{
  ℕ, not, Option, none, some, List, [], ◌∷◌, leb, ◌==◌, Text, codes, keep_if, text_eq, text_in,
  if◌then◌else◌, Result, ◌+◌, suc, or_else,
}
use openchess.Base.Maybe.{◌>>=◌, ◌>>◌, guard}
use openchess.Python.Values.{
  Value, null, text, dict, Entries, get, text_keys, same_set, int_in, int_below, text_matching,
  Items, item, list, nil,
}
use openchess.Python.Grammar.{fullmatch, job_id_grammar, worker_grammar, dedupe_key_grammar}
use openchess.Jobs.Payload.{payloads_ok}
use openchess.Jobs.Queue.{
  Status, ready, leased, done, dead, Job, max_attempts, max_now, max_priority, State, Request,
  max_jobs, Failure, max_lease_ms, enqueue, corrupt_queue, claim, malformed_queue_request, ack,
  nack,
}

-- `_keys_are`
abbrev pub keys_are : Entries → List Text → Option (Unit {0})
keys_are d fields = do keys ← text_keys d; guard (same_set keys fields)

abbrev pub job_fields : List Text
job_fields =
    codes "job_id"
    ∷ codes "seq"
    ∷ codes "priority"
    ∷ codes "payload"
    ∷ codes "status"
    ∷ codes "attempts"
    ∷ codes "lease_owner"
    ∷ codes "lease_expires_at"
    ∷ []

-- `type(status) is str and status in _STATUSES`
unfoldable pub read_status : Value → Option Status
read_status (text t) =
    if text_eq t (codes "ready")
    then some ready
    else if text_eq t (codes "leased")
    then some leased
    else if text_eq t (codes "done")
    then some done
    else if text_eq t (codes "dead")
    then some dead
    else none
read_status _ = none

-- The lease fields that the status and the attempts allow.
unfoldable pub read_lease : Status → ℕ → Value → Value → Option (Option Text × Option ℕ)
read_lease leased attempts owner expires = do
  o ← text_matching (fullmatch worker_grammar) owner
  e ← int_in 1 max_now expires
  keep_if (leb 1 attempts) (some (some o, some e))
read_lease ready attempts null null = some (none, none)
read_lease done attempts null null = keep_if (leb 1 attempts) (some (none, none))
read_lease dead attempts null null = keep_if (attempts == max_attempts) (some (none, none))
read_lease _ attempts _ _ = none

-- `_check_state` on one job and `_job_ok`: the job and the visited containers
unfoldable pub check_job : List Text → ℕ → ℕ → List ℕ → Value → Option (Job × List ℕ)
check_job ids lowest_seq next_seq visited (dict i d) = do
  keys_are d job_fields
  jid ← get (codes "job_id") d >>= text_matching (fullmatch job_id_grammar)
  guard (not (text_in jid ids))
  seq ← get (codes "seq") d >>= int_below lowest_seq next_seq
  priority ← get (codes "priority") d >>= int_in 0 max_priority
  status ← get (codes "status") d >>= read_status
  attempts ← get (codes "attempts") d >>= int_in 0 max_attempts
  owner ← get (codes "lease_owner") d
  expires ← get (codes "lease_expires_at") d
  lease ← read_lease status attempts owner expires
  payload ← get (codes "payload") d
  visited' ← payloads_ok (payload ∷ []) visited
  some (
    record {
      job_id = jid;
      seq = seq;
      priority = priority;
      payload = payload;
      status = status;
      attempts = attempts;
      lease_owner = lease.0;
      lease_expires_at = lease.1;
    },
    visited',
  )
check_job ids lowest_seq next_seq visited _ = none

-- The loop of `_check_state` over the jobs.
unfoldable pub check_jobs : List Text → ℕ → ℕ → List ℕ → Items → Option (List Job)
unfolding check_job
check_jobs ids lowest_seq next_seq visited nil = some []
check_jobs ids lowest_seq next_seq visited (item v vs) = do
  (job, visited') ← check_job ids lowest_seq next_seq visited v
  jobs ← check_jobs (job.job_id ∷ ids) (job.seq + 1) next_seq visited' vs
  some (job ∷ jobs)

unfoldable pub items_length : Items → ℕ
items_length nil = 0
items_length (item v vs) = suc (items_length vs)

abbrev pub as_items : Value → Option Items
as_items (list i vs) = some vs
as_items _ = none

unfoldable pub read_state : Value → Option State
unfolding items_length check_jobs
read_state (dict i d) = do
  keys_are d (codes "jobs" ∷ codes "next_seq" ∷ [])
  jobs ← get (codes "jobs") d >>= as_items
  next_seq ← get (codes "next_seq") d >>= int_in 0 max_now
  guard (leb (items_length jobs) max_jobs)
  checked ← check_jobs [] 0 next_seq [] jobs
  some (record { jobs = checked; next_seq = next_seq })
read_state _ = none

-- `_check_state`, with the detached copy
unfoldable pub check_state : Value → Result Failure State
unfolding read_state
check_state v = or_else corrupt_queue (read_state v)

abbrev pub as_text : Value → Option Text
as_text (text t) = some t
as_text _ = none

unfoldable pub read_enqueue : Entries → Option Request
read_enqueue d = do
  keys_are d (codes "op" ∷ codes "dedupe_key" ∷ codes "priority" ∷ codes "payload" ∷ [])
  key ← get (codes "dedupe_key") d >>= text_matching (fullmatch dedupe_key_grammar)
  priority ← get (codes "priority") d >>= int_in 0 max_priority
  payload ← get (codes "payload") d
  payloads_ok (payload ∷ []) []
  some (enqueue key priority payload)

unfoldable pub read_claim : ℕ → Entries → Option Request
read_claim clock_limit d = do
  keys_are d (codes "op" ∷ codes "worker" ∷ codes "now" ∷ codes "lease_ms" ∷ [])
  worker ← get (codes "worker") d >>= text_matching (fullmatch worker_grammar)
  now ← get (codes "now") d >>= int_in 0 max_now
  lease_ms ← get (codes "lease_ms") d >>= int_in 1 max_lease_ms
  guard (leb (now + lease_ms) clock_limit)
  some (claim worker now lease_ms)

unfoldable pub read_settle : (Text → Text → ℕ → Request) → Entries → Option Request
read_settle make d = do
  keys_are d (codes "op" ∷ codes "job_id" ∷ codes "worker" ∷ codes "now" ∷ [])
  worker ← get (codes "worker") d >>= text_matching (fullmatch worker_grammar)
  now ← get (codes "now") d >>= int_in 0 max_now
  jid ← get (codes "job_id") d >>= text_matching (fullmatch job_id_grammar)
  some (make jid worker now)

unfoldable pub read_op : ℕ → Text → Entries → Option Request
unfolding read_enqueue read_claim read_settle
read_op clock_limit op d =
    if text_eq op (codes "enqueue")
    then read_enqueue d
    else if text_eq op (codes "claim")
    then read_claim clock_limit d
    else if text_eq op (codes "ack")
    then read_settle ack d
    else if text_eq op (codes "nack")
    then read_settle nack d
    else none

unfoldable pub read_request : ℕ → Value → Option Request
unfolding read_op
read_request clock_limit (dict i d) = do
  op ← get (codes "op") d >>= as_text
  read_op clock_limit op d
read_request clock_limit _ = none

-- `_check_request`
unfoldable pub check_request : ℕ → Value → Result Failure Request
unfolding read_request
check_request clock_limit v = or_else malformed_queue_request (read_request clock_limit v)
