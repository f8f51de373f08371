-- ===== src/Jobs/Retry.antt =====
-- The retry decision (server/jobs_retry.py).
pub mod Check
pub mod Decide
pub mod Backoff
pub mod Decided
use openchess.Base.{
  ok, err, none, some, true, false, ℕ, Text, Option, Bool, Result, ◌^◌, if◌then◌else◌, ◌||◌, min,
  ◌-◌, leb, ◌*◌, ltb, ◌+◌,
}
use openchess.Python.Values.{Entries}

pub data FailureKind : Type 0 where
  transient timeout permanent : FailureKind

pub data Failure : Type 0 where
  malformed_retry_request invalid_retry_policy clock_overflow : Failure

pub record Policy : Type 0 where
  pub base_delay_ms : ℕ
  pub multiplier : ℕ
  pub max_delay_ms : ℕ

-- The checked copy of a request, its policy still unchecked.
pub record Request : Type 0 where
  pub job_id : Text
  pub attempts : ℕ
  pub failure : FailureKind
  pub now : ℕ
  pub policy : Entries

pub data Decision : Type 0 where
  retry dead : Decision

-- data/contracts/retry.yaml, record.fields
pub record Record : Type 0 where
  pub job_id : Text
  pub decision : Decision
  pub attempts : ℕ
  pub delay_ms : Option ℕ
  pub retry_at : Option ℕ
  pub decision_id : Text

abbrev pub max_attempts : ℕ
max_attempts = 5

abbrev pub max_now : ℕ
max_now = 2 ^ 53 - 1

abbrev pub max_base_delay_ms : ℕ
max_base_delay_ms = 3_600_000

abbrev pub max_multiplier : ℕ
max_multiplier = 10

abbrev pub max_delay : ℕ
max_delay = 86_400_000

abbrev pub is_permanent : FailureKind → Bool
is_permanent permanent = true
is_permanent _ = false

-- `req["failure"] == "permanent" or req["attempts"] >= MAX_ATTEMPTS`
unfoldable pub is_dead : Request → Bool
is_dead r = is_permanent r.failure || leb max_attempts r.attempts

-- min(max_delay_ms, base_delay_ms * multiplier ** (attempts - 1)); attempts is at least 1
unfoldable pub delay : Policy → ℕ → ℕ
delay p attempts = min p.max_delay_ms (p.base_delay_ms * p.multiplier ^ (attempts - 1))

-- The outcome of `decide` on checked values: none for a dead job, or the delay and the time.
unfoldable pub schedule : Policy → Request → Result Failure (Option (ℕ × ℕ))
unfolding is_dead
schedule p r =
    let wait = delay p r.attempts in
    if is_dead r
    then ok none
    else if ltb max_now (r.now + wait)
    then err clock_overflow
    else ok (some (wait, r.now + wait))
