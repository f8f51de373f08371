-- ===== src/Jobs/Retry/Check.antt =====
-- `_request_ok` and `_policy_ok` of server/jobs_retry.py, with the values read.
use openchess.Python.Grammar.{fullmatch, job_id_grammar}
use openchess.Jobs.Queue.Check.{keys_are}
use openchess.Base.{[], ◌∷◌, some, none, Option, if◌then◌else◌, text_eq, codes}
use openchess.Base.Maybe.{◌>>=◌, ◌>>◌}
use openchess.Python.Values.{Value, text, dict, get, text_matching, int_in}
use openchess.Jobs.Retry.{
  FailureKind, transient, timeout, permanent, max_now, Entries, Request, Policy, max_base_delay_ms,
  max_multiplier, max_attempts, max_delay,
}

-- `type(failure) is str and failure in _FAILURES`
unfoldable pub read_failure : Value → Option FailureKind
read_failure (text t) =
    if text_eq t (codes "transient")
    then some transient
    else if text_eq t (codes "timeout")
    then some timeout
    else if text_eq t (codes "permanent")
    then some permanent
    else none
read_failure _ = none

abbrev pub as_dict : Value → Option Entries
as_dict (dict i d) = some d
as_dict _ = none

-- `_request_ok`, with the values read
unfoldable pub request_ok : Value → Option Request
unfolding read_failure
request_ok (dict i d) = do
  keys_are d (
      codes "op"
      ∷ codes "job_id"
      ∷ codes "attempts"
      ∷ codes "failure"
      ∷ codes "now"
      ∷ codes "policy"
      ∷ [])
  get (codes "op") d >>= text_matching (text_eq (codes "decide"))
  jid ← get (codes "job_id") d >>= text_matching (fullmatch job_id_grammar)
  attempts ← get (codes "attempts") d >>= int_in 1 max_attempts
  failure ← get (codes "failure") d >>= read_failure
  now ← get (codes "now") d >>= int_in 0 max_now
  policy ← get (codes "policy") d >>= as_dict
  some (record { job_id = jid; attempts = attempts; failure = failure; now = now; policy = policy })
request_ok _ = none

-- `_policy_ok`, with the values read
unfoldable pub policy_ok : Entries → Option Policy
policy_ok d = do
  keys_are d (codes "base_delay_ms" ∷ codes "multiplier" ∷ codes "max_delay_ms" ∷ [])
  base ← get (codes "base_delay_ms") d >>= int_in 1 max_base_delay_ms
  multiplier ← get (codes "multiplier") d >>= int_in 1 max_multiplier
  limit ← get (codes "max_delay_ms") d >>= int_in base max_delay
  some (record { base_delay_ms = base; multiplier = multiplier; max_delay_ms = limit })
