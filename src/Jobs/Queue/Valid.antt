-- ===== src/Jobs/Queue/Valid.antt =====
-- The invariant of the queue state (server/jobs_queue.py, `_check_state`).
pub mod Checked
pub mod Requests
pub mod Updates
pub mod Claims
pub mod Kept
use openchess.Base.{
  ℕ, ◌≤◌, ◌<◌, ◌≡◌, false, true, Option, none, some, List, [], ◌∷◌, Text, text_in, length, ◌+◌,
}
use openchess.Python.Grammar.{fullmatch, job_id_grammar, worker_grammar}
use openchess.Jobs.Payload.Shape.{admissible}
use openchess.Jobs.Queue.{
  Status, ready, leased, done, dead, Job, State, max_jobs, max_attempts, max_now, max_priority,
  Request, enqueue, claim, ack, nack,
}

-- What the status says of the attempts and of the lease.
abbrev pub LeaseOk : Status → ℕ → Option Text → Option ℕ → Type 0
LeaseOk ready n none none = Unit {0}
LeaseOk leased n (some o) (some e) =
    (fullmatch worker_grammar o ≡ true) × (1 ≤ e) × (e ≤ max_now) × (1 ≤ n)
LeaseOk done n none none = 1 ≤ n
LeaseOk dead n none none = n ≡ max_attempts
LeaseOk _ n _ _ = ⊥

pub record JobOk (j : Job) : Type 0 where
  pub id_grammar : fullmatch job_id_grammar j.job_id ≡ true
  pub priority_bound : j.priority ≤ max_priority
  pub attempts_bound : j.attempts ≤ max_attempts
  pub lease_ok : LeaseOk j.status j.attempts j.lease_owner j.lease_expires_at
  pub payload_ok : admissible 1 j.payload ≡ true

-- Valid jobs with sequence numbers that rise from `low` and stay below `next`, and with ids that are
-- new after `ids`.
abbrev pub JobsOk : List Text → ℕ → ℕ → List Job → Type 0
JobsOk ids low next [] = Unit {0}
JobsOk ids low next (j ∷ js) =
    (text_in j.job_id ids ≡ false)
    × (low ≤ j.seq)
    × (j.seq < next)
    × JobOk j
    × JobsOk (j.job_id ∷ ids) (j.seq + 1) next js

pub record IsValid (s : State) : Type 0 where
  pub clock_bound : s.next_seq ≤ max_now
  pub few : length s.jobs ≤ max_jobs
  pub jobs_ok : JobsOk [] 0 s.next_seq s.jobs

-- What the validation of a request promises the transition.
abbrev pub RequestOk : Request → Type 0
RequestOk (enqueue key priority payload) = (priority ≤ max_priority) × (admissible 1 payload ≡ true)
RequestOk (claim worker now lease_ms) =
    (fullmatch worker_grammar worker ≡ true) × (1 ≤ lease_ms) × (now + lease_ms ≤ max_now)
RequestOk (ack jid worker now) = now ≤ max_now
RequestOk (nack jid worker now) = now ≤ max_now
