-- ===== src/Jobs/Queue/Engine.antt =====
-- `QueueEngine` of server/jobs_queue.py. A transition returns the new state, which the caller
-- commits in place, and the job that the receipt reports. `hexdigest` stands for
-- `hashlib.sha256(s.encode()).hexdigest()`.
use mathlib.Core.Option
use openchess.Base.{
  ℕ, ◌+◌, Bool, true, false, ◌&&◌, ◌||◌, Option, none, some, List, [], ◌∷◌, ◌++◌, leb, ltb, ◌==◌,
  if◌then◌else◌, Text, codes, text_eq, length, Result, ok, err, ◌>>=◌,
}
use openchess.Python.Values.{
  pos, Value, null, integer, text, list, dict, Items, nil, item, end, entry,
}
use openchess.Python.Dumps.{dumps}
use openchess.Jobs.Queue.{
  Status, ready, leased, done, dead, Job, State, Failure, unknown_job, lease_conflict,
  dedupe_conflict, capacity_exceeded, Request, enqueue, claim, ack, nack, max_jobs, max_attempts,
  max_now,
}
use openchess.Jobs.Queue.Check.{check_state, check_request}

-- `_by_id`
unfoldable pub by_id : Text → List Job → Option Job
by_id jid [] = none
by_id jid (job ∷ jobs) = if text_eq job.job_id jid then some job else by_id jid jobs

-- `job.update(…)` on the object that `_by_id` or the claim loop found in the list
unfoldable pub update_job : Text → (Job → Job) → List Job → List Job
update_job jid f [] = []
update_job jid f (job ∷ jobs) =
    if text_eq job.job_id jid then f job ∷ jobs else job ∷ update_job jid f jobs

abbrev pub text_or_null : Option Text → Value
text_or_null none = null
text_or_null (some t) = text t

abbrev pub int_or_null : Option ℕ → Value
int_or_null none = null
int_or_null (some n) = integer (pos n)

abbrev pub status_name : Status → Text
status_name ready = codes "ready"
status_name leased = codes "leased"
status_name done = codes "done"
status_name dead = codes "dead"

-- The dict of a job; the identities of fresh containers play no part in its dump.
encode_job : Job → Value
encode_job j = dict 0 (
    entry (text (codes "job_id")) (text j.job_id) (
      entry (text (codes "seq")) (integer (pos j.seq)) (
        entry (text (codes "priority")) (integer (pos j.priority)) (
          entry (text (codes "payload")) j.payload (
            entry (text (codes "status")) (text (status_name j.status)) (
              entry (text (codes "attempts")) (integer (pos j.attempts)) (
                entry (text (codes "lease_owner")) (text_or_null j.lease_owner) (
                  entry (text (codes "lease_expires_at")) (int_or_null j.lease_expires_at)
                    end))))))))

encode_jobs : List Job → Items
encode_jobs [] = nil
encode_jobs (j ∷ js) = item (encode_job j) (encode_jobs js)

unfoldable pub encode_state : State → Value
unfolding encode_job encode_jobs
encode_state s = dict 0 (
    entry (text (codes "jobs")) (list 0 (encode_jobs s.jobs))
      (entry (text (codes "next_seq")) (integer (pos s.next_seq)) end))

-- The claimable jobs of `_claim`: ready, or leased until `now` at the latest.
abbrev pub lapsed : Status → Option ℕ → ℕ → Bool
lapsed ready expires now = true
lapsed leased (some e) now = leb e now
lapsed _ expires now = false

unfoldable pub claimable : ℕ → Job → Bool
claimable now j = lapsed j.status j.lease_expires_at now

unfoldable pub claimables : ℕ → List Job → List Job
claimables now [] = []
claimables now (j ∷ js) = let rest = claimables now js in if claimable now j then j ∷ rest else rest

-- the order of `(job["priority"], job["seq"])`
unfoldable pub sooner : Job → Job → Bool
sooner j k = ltb j.priority k.priority || ((j.priority == k.priority) && ltb j.seq k.seq)

unfoldable pub insert_job : Job → List Job → List Job
insert_job j [] = j ∷ []
insert_job j (k ∷ ks) = if sooner k j then k ∷ insert_job j ks else j ∷ k ∷ ks

-- `claimable.sort`
unfoldable pub sort_jobs : List Job → List Job
unfolding insert_job
sort_jobs [] = []
sort_jobs (j ∷ js) = insert_job j (sort_jobs js)

abbrev pub bury : Job → Job
bury j = record j { status = dead; lease_owner = none; lease_expires_at = none }

abbrev pub lease : Text → ℕ → ℕ → Job → Job
lease worker now lease_ms j = record j {
  status = leased;
  attempts = j.attempts + 1;
  lease_owner = some worker;
  lease_expires_at = some (now + lease_ms);
}

-- The loop of `_claim` over the sorted jobs.
unfoldable pub claim_loop : Text → ℕ → ℕ → List Job → List Job → List Job × Option Job
claim_loop worker now lease_ms [] jobs = (jobs, none)
claim_loop worker now lease_ms (job ∷ rest) jobs =
    let next = claim_loop worker now lease_ms rest (update_job job.job_id bury jobs) in
    if leb max_attempts job.attempts then next else (
      update_job job.job_id (lease worker now lease_ms) jobs,
      some (lease worker now lease_ms job),
    )

-- `_claim`
unfoldable pub claim_job : Text → ℕ → ℕ → State → State × Option Job
claim_job worker now lease_ms s =
    let (jobs, job) = claim_loop worker now lease_ms (sort_jobs (claimables now s.jobs)) s.jobs in
    (record s { jobs = jobs }, job)

abbrev pub held_by : Status → Option Text → Option ℕ → Text → ℕ → Bool
held_by leased (some owner) (some e) worker now = text_eq owner worker && ltb now e
held_by _ _ _ worker now = false

-- The lease is the worker's, and has not expired.
unfoldable pub held : Job → Text → ℕ → Bool
held j worker now = held_by j.status j.lease_owner j.lease_expires_at worker now

abbrev pub release : Status → Job → Job
release status j = record j { status = status; lease_owner = none; lease_expires_at = none }

-- `_settle` on what `_by_id` found.
unfoldable pub settle_found : Status → Text → ℕ → State → Option Job → Result Failure (State × Job)
unfolding update_job
settle_found status worker now s none = err unknown_job
settle_found status worker now s (some job) =
    if held job worker now
    then ok (record s { jobs = update_job job.job_id (release status) s.jobs }, release status job)
    else err lease_conflict

-- `_settle`; `_ack` gives it `done`, and `_nack` `ready`
unfoldable pub settle : Status → Text → Text → ℕ → State → Result Failure (State × Job)
settle status jid worker now s = settle_found status worker now s (by_id jid s.jobs)

-- data/contracts/queue.yaml, record.fields
pub record Receipt : Type 0 where
  pub op : Text
  pub job_id : Option Text
  pub status : Option Status
  pub attempts : Option ℕ
  pub lease_expires_at : Option ℕ
  pub state_id : Text

abbrev pub op_name : Request → Text
op_name (enqueue key priority payload) = codes "enqueue"
op_name (claim worker now lease_ms) = codes "claim"
op_name (ack jid worker now) = codes "ack"
op_name (nack jid worker now) = codes "nack"

module _ (hexdigest : Text → Text) where
  -- `job_id_for`
  unfoldable pub job_id_for : Text → Text
  job_id_for key = codes "job1:" ++ hexdigest (codes "job1|" ++ key)

  -- `state_id_for`
  unfoldable pub state_id_for : State → Text
  unfolding encode_state
  state_id_for s = codes "qs1:" ++ hexdigest (dumps false (encode_state s))

  unfoldable pub new_job : Text → ℕ → Value → ℕ → Job
  new_job key priority payload seq = record {
    job_id = job_id_for key;
    seq = seq;
    priority = priority;
    payload = payload;
    status = ready;
    attempts = 0;
    lease_owner = none;
    lease_expires_at = none;
  }

  -- `_enqueue` on what `_by_id` found; two payloads are the same if their canonical dumps are.
  unfoldable pub enqueue_found :
      ℕ → Text → ℕ → Value → State → Option Job → Result Failure (State × Job)
  unfolding new_job
  enqueue_found seq_limit key priority payload s (some existing) =
      if (existing.priority == priority)
        && text_eq (dumps false existing.payload) (dumps false payload)
      then ok (s, existing)
      else err dedupe_conflict
  enqueue_found seq_limit key priority payload s none =
      if leb max_jobs (length s.jobs) || leb seq_limit s.next_seq
      then err capacity_exceeded
      else ok (
        record s {
          jobs = s.jobs ++ (new_job key priority payload s.next_seq ∷ []);
          next_seq = s.next_seq + 1;
        },
        new_job key priority payload s.next_seq,
      )

  -- `_enqueue`
  unfoldable pub enqueue_job : ℕ → Text → ℕ → Value → State → Result Failure (State × Job)
  enqueue_job seq_limit key priority payload s =
      enqueue_found seq_limit key priority payload s (by_id (job_id_for key) s.jobs)

  abbrev reporting : State × Job → State × Option Job
  reporting (s, job) = (s, some job)

  -- The dispatch of `apply` on the operation.
  unfoldable pub transition : State → Request → Result Failure (State × Option Job)
  transition s (enqueue key priority payload) =
      enqueue_job max_now key priority payload s >>= λ r. ok (reporting r)
  transition s (claim worker now lease_ms) = ok (claim_job worker now lease_ms s)
  transition s (ack jid worker now) = settle done jid worker now s >>= λ r. ok (reporting r)
  transition s (nack jid worker now) = settle ready jid worker now s >>= λ r. ok (reporting r)

  -- The receipt for the job that the transition reports, if it reports one.
  unfoldable pub receipt : Request → Option Job → State → Receipt
  receipt req job work = record {
    op = op_name req;
    job_id = Option.map (λ j. j.job_id) job;
    status = Option.map (λ j. j.status) job;
    attempts = Option.map (λ j. j.attempts) job;
    lease_expires_at = Option.bind job (λ j. j.lease_expires_at);
    state_id = state_id_for work;
  }

  -- `apply`: the committed state and the receipt; on an error nothing is committed.
  unfoldable pub apply : Value → Value → Result Failure (State × Receipt)
  unfolding transition receipt
  apply state request = do
    req ← check_request max_now request
    s ← check_state state
    (work, job) ← transition s req
    ok (work, receipt req job work)
