-- ===== src/Jobs/Limit.antt =====
-- The token bucket (server/jobs_limit.py).
pub mod Check
pub mod Admit
pub mod Bucket
pub mod Chain
pub mod Readable
pub mod Accepted
use openchess.Base.{
  ok, err, none, some, ◌^◌, ◌-◌, ℕ, Text, Option, Result, ◌/◌, ◌*◌, if◌then◌else◌, leb, ◌+◌, ltb,
}
use openchess.Python.Values.{Value}

pub data Failure : Type 0 where
  malformed_limit_request invalid_limit_policy corrupt_previous_bucket : Failure
  limit_conflict clock_overflow : Failure

pub data Decision : Type 0 where
  admit deny : Decision

pub record Policy : Type 0 where
  pub capacity : ℕ
  pub refill_ms : ℕ

-- data/contracts/limit.yaml, record.fields
pub record Record : Type 0 where
  pub key : Text
  pub capacity : ℕ
  pub refill_ms : ℕ
  pub cost : ℕ
  pub decision : Decision
  pub tokens : ℕ
  pub updated_at : ℕ
  pub retry_after_ms : Option ℕ
  pub previous_id : Option Text
  pub limit_id : Text

-- The checked copy of a request, its policy and its previous record still unchecked.
pub record Request : Type 0 where
  pub key : Text
  pub cost : ℕ
  pub now : ℕ
  pub policy : Value
  pub previous : Value

abbrev pub max_capacity : ℕ
max_capacity = 1_000_000

abbrev pub max_refill : ℕ
max_refill = 86_400_000

abbrev pub max_now : ℕ
max_now = 2 ^ 53 - 1

-- The refilled tokens and the instant from which the next one is counted.
unfoldable pub refill : Policy → ℕ → Option Record → ℕ × ℕ
refill p now none = (p.capacity, now)
refill p now (some prev) =
    let gained = (now - prev.updated_at) / p.refill_ms in
    if leb p.capacity (prev.tokens + gained)
    then (p.capacity, now)
    else (prev.tokens + gained, prev.updated_at + gained * p.refill_ms)

-- What `admit` decides on refilled tokens: the decision, the tokens left and the time to wait.
unfoldable pub outcome : Policy → ℕ → ℕ → ℕ × ℕ → Result Failure (Decision × ℕ × Option ℕ)
outcome p cost now (refilled, base) =
    let wait = (cost - refilled) * p.refill_ms - (now - base) in
    if leb cost refilled
    then ok (admit, refilled - cost, none)
    else if ltb max_now (now + wait)
    then err clock_overflow
    else ok (deny, refilled, some wait)
