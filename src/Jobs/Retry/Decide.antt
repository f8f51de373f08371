-- ===== src/Jobs/Retry/Decide.antt =====
-- `decide` of server/jobs_retry.py and its record.
use openchess.Jobs.Retry.Check.{request_ok, policy_ok}
use openchess.Python.Dumps.{dumps}
use openchess.Jobs.Queue.Engine.{int_or_null}
use openchess.Base.{ok, ◌>>=◌, none, some, ◌∷◌, Text, Option, codes, ℕ, Result, ◌++◌, or_else, true}
use openchess.Python.Values.{Value, text, dict, end, entry, integer, pos}
use openchess.Jobs.Retry.{
  Decision, retry, dead, Record, Request, schedule, malformed_retry_request, invalid_retry_policy,
  Failure,
}

abbrev decision_name : Decision → Text
decision_name retry = codes "retry"
decision_name dead = codes "dead"

-- The record without its id, as the dict that is dumped.
encode_record : Text → Decision → ℕ → Option ℕ → Option ℕ → Value
encode_record jid decision attempts wait retry_at = dict 0 (
    entry (text (codes "op")) (text (codes "decide")) (
      entry (text (codes "job_id")) (text jid) (
        entry (text (codes "decision")) (text (decision_name decision)) (
          entry (text (codes "attempts")) (integer (pos attempts)) (
            entry (text (codes "delay_ms")) (int_or_null wait)
              (entry (text (codes "retry_at")) (int_or_null retry_at) end))))))

abbrev pub decision_of : Option (ℕ × ℕ) → Decision
decision_of none = dead
decision_of (some t) = retry

abbrev pub delay_of : Option (ℕ × ℕ) → Option ℕ
delay_of none = none
delay_of (some (wait, retry_at)) = some wait

abbrev pub retry_at_of : Option (ℕ × ℕ) → Option ℕ
retry_at_of none = none
retry_at_of (some (wait, retry_at)) = some retry_at

-- `hexdigest` stands for SHA-256 over the UTF-8 bytes of a text, in hexadecimal.
module _ (hexdigest : Text → Text) where
  decision_id : Value → Value → Text
  decision_id request record_dict =
      codes "rd1:"
      ++ hexdigest (
          codes "rd1"
          ++ (0
              ∷ dumps true (
                  dict 0 (
                    entry (text (codes "request")) request
                      (entry (text (codes "record")) record_dict end)))))

  unfoldable pub make_record : Value → Request → Option (ℕ × ℕ) → Record
  unfolding encode_record decision_id
  make_record request r outcome = record {
    job_id = r.job_id;
    decision = decision_of outcome;
    attempts = r.attempts;
    delay_ms = delay_of outcome;
    retry_at = retry_at_of outcome;
    decision_id = decision_id request (
        encode_record r.job_id (decision_of outcome) r.attempts (delay_of outcome)
          (retry_at_of outcome));
  }

  -- `decide`
  unfoldable pub decide : Value → Result Failure Record
  unfolding schedule make_record
  decide request = do
    r ← or_else malformed_retry_request (request_ok request)
    p ← or_else invalid_retry_policy (policy_ok r.policy)
    outcome ← schedule p r
    ok (make_record request r outcome)
