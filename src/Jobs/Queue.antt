-- ===== src/Jobs/Queue.antt =====
-- The durable job queue (server/jobs_queue.py): its state, its requests, its failures.
pub mod Check
pub mod Engine
pub mod Valid
pub mod Order
pub mod Unclaimed
pub mod Stable
use openchess.Base.{ℕ, ◌^◌, ◌-◌, Option, List, Text}
use openchess.Python.Values.{Value}

pub data Status : Type 0 where
  ready leased done dead : Status

-- data/contracts/queue.yaml, state.job_fields
pub record Job : Type 0 where
  pub job_id : Text
  pub seq : ℕ
  pub priority : ℕ
  pub payload : Value
  pub status : Status
  pub attempts : ℕ
  pub lease_owner : Option Text
  pub lease_expires_at : Option ℕ

-- data/contracts/queue.yaml, state.fields
pub record State : Type 0 where
  pub jobs : List Job
  pub next_seq : ℕ

pub data Failure : Type 0 where
  malformed_queue_request unknown_job lease_conflict dedupe_conflict : Failure
  capacity_exceeded corrupt_queue : Failure

-- The checked copy of a request.
pub data Request : Type 0 where
  enqueue : (dedupe_key : Text) (priority : ℕ) (payload : Value) → Request
  claim : (worker : Text) (now lease_ms : ℕ) → Request
  ack : (job_id worker : Text) (now : ℕ) → Request
  nack : (job_id worker : Text) (now : ℕ) → Request

abbrev pub max_jobs : ℕ
max_jobs = 10000

abbrev pub max_attempts : ℕ
max_attempts = 5

abbrev pub max_now : ℕ
max_now = 2 ^ 53 - 1

abbrev pub max_lease_ms : ℕ
max_lease_ms = 3_600_000

abbrev pub max_priority : ℕ
max_priority = 9
