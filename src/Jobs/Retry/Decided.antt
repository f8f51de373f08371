-- ===== src/Jobs/Retry/Decided.antt =====
-- What the records of `decide` (server/jobs_retry.py) say, for any object as the request.
use openchess.Jobs.Retry.Check.{request_ok, policy_ok}
use openchess.Jobs.Retry.Backoff.{PolicyOk, InTime, policy_ok-PolicyOk, schedule-InTime}
use openchess.Base.{
  none, some, ok, OnOk, OnOk-bind, OnOk-at, ℕ, ◌≡◌, Option, Text, ◌<◌, false, or_else, ◌≤◌, arith,
}
use openchess.Base.Maybe.{OnRead}
use openchess.Python.Values.{Value}
use openchess.Jobs.Retry.{
  Decision, retry, dead, Request, is_dead, Policy, Record, max_attempts, malformed_retry_request,
  max_delay, invalid_retry_policy, max_now, schedule,
}
use openchess.Jobs.Retry.Decide.{decide, make_record, decision_of, delay_of, retry_at_of}

-- A retry comes with its delay and its time within bounds, a dead decision with neither.
abbrev pub Verdict : Decision → ℕ → Option ℕ → Option ℕ → Type 0
Verdict dead attempts none none = Unit {0}
Verdict retry attempts (some wait) (some retry_at) =
    (attempts < max_attempts)
    × (1 ≤ wait)
    × (wait ≤ max_delay)
    × (wait ≤ retry_at)
    × (retry_at ≤ max_now)
Verdict _ attempts _ _ = ⊥

is_dead-false : (r : Request) → is_dead r ≡ false → r.attempts < max_attempts
unfolding is_dead
is_dead-false r h = ground arith

InTime-Verdict :
    (p : Policy) (r : Request) (outcome : Option (ℕ × ℕ))
    → PolicyOk p
    → InTime p r outcome
    → Verdict (decision_of outcome) r.attempts (delay_of outcome) (retry_at_of outcome)
InTime-Verdict p r none v h = tt
InTime-Verdict p r (some (wait, retry_at)) v h = (
  is_dead-false r h.0,
  omega (arith, v.base_pos, h.1),
  omega (arith, v.bounded, h.2),
  omega (arith, h.3),
  h.4,
)

or_else-OnOk {ℓ} :
    {E A : Type 0} (P : A → Type ℓ) (e : E) (o : Option A) → OnRead P o → OnOk P (or_else e o)
or_else-OnOk P e none h = tt
or_else-OnOk P e (some a) h = h

-- Whatever object is given as the request, the decision that `decide` records without an error is
-- either dead, with neither a delay nor a time, or a retry with attempts left, with a delay of 1 to
-- 86,400,000 ms and a time that is at least the delay and at most 2^53 - 1.
pub decide-Verdict :
    (hexdigest : Text → Text) (request : Value) (rec : Record)
    → decide hexdigest request ≡ ok rec
    → Verdict rec.decision rec.attempts rec.delay_ms rec.retry_at
unfolding decide make_record
decide-Verdict hexdigest request rec h =
    OnOk-at (λ (c : Record). Verdict c.decision c.attempts c.delay_ms c.retry_at) _ kept h
  where
    Good : Record → Type 0
    Good c = Verdict c.decision c.attempts c.delay_ms c.retry_at

    kept : OnOk Good (decide hexdigest request)
    kept = OnOk-bind Good (or_else malformed_retry_request (request_ok request)) _ λ r e_r.
        OnOk-bind Good (or_else invalid_retry_policy (policy_ok r.policy)) _ λ p e_p.
          OnOk-bind Good (schedule p r) _ λ outcome e.
            let v =
              OnOk-at PolicyOk _
                (or_else-OnOk PolicyOk invalid_retry_policy _ (policy_ok-PolicyOk r.policy)) e_p in
            InTime-Verdict p r outcome v (OnOk-at (InTime p r) _ (schedule-InTime p r v) e)
