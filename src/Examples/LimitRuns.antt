-- ===== src/Examples/LimitRuns.antt =====
-- Runs of the retry decision and of the token bucket (server/jobs_retry.py, server/jobs_limit.py).
use openchess.Jobs.Limit.Chain.{deny_exact}
use openchess.Jobs.Limit.Accepted.{admit_request-accepted}
use openchess.Jobs.Limit.Admit.{admit_request}
use openchess.Python.Grammar.{fullmatch}
use openchess.Jobs.Queue.Valid.Kept.{digest_grammar}
use openchess.Jobs.Retry.Backoff.{PolicyOk, delay-grown, grown}
use openchess.Jobs.Limit.Check.{policy_ok, request_ok, encode_record}
use openchess.Jobs.Limit.Bucket.{Fits}
use openchess.Jobs.Retry.Decided.{Verdict, decide-Verdict}
use openchess.Jobs.Retry.{delay, retry}
use openchess.Jobs.Limit.{Policy, admit, deny, refill}
use openchess.Base.{refl, none, some, ok, Text, codes, ◌≡◌, leb, arith, true, ℕ}
use openchess.Python.Values.{Value, null, text, integer, pos, dict, entry, end}
use openchess.Jobs.Retry
use openchess.Jobs.Limit
use openchess.Jobs.Limit.Admit
use openchess.Jobs.Retry.Decide

abbrev ones : Text → Text
ones t = codes "1111111111111111111111111111111111111111111111111111111111111111"

ones-hex : (t : Text) → fullmatch digest_grammar (ones t) ≡ true
unfolding fullmatch openchess.Python.Grammar.is_hex
ones-hex t = refl

abbrev policy : Retry.Policy
policy = record { base_delay_ms = 100; multiplier = 2; max_delay_ms = 500 }

policy-PolicyOk : PolicyOk policy
policy-PolicyOk = record {
  base_pos = omega arith;
  multiplier_pos = omega arith;
  base_le = omega arith;
  bounded = omega arith;
}

delay-grown_example : delay policy 4 ≡ grown policy 3
delay-grown_example = delay-grown policy 3 policy-PolicyOk

abbrev retry_request : Value
retry_request = dict 1 (
    entry (text (codes "op")) (text (codes "decide")) (
      entry (text (codes "job_id"))
        (text (codes "job1:1111111111111111111111111111111111111111111111111111111111111111"))
        (entry (text (codes "attempts")) (integer (pos 3)) (
          entry (text (codes "failure")) (text (codes "timeout")) (
            entry (text (codes "now")) (integer (pos 1000)) (
              entry (text (codes "policy"))
                (dict 2 (
                  entry (text (codes "base_delay_ms")) (integer (pos 100)) (
                    entry (text (codes "multiplier")) (integer (pos 2))
                      (entry (text (codes "max_delay_ms")) (integer (pos 500)) end))))
                end))))))

abbrev retry_record : Retry.Record
retry_record = record {
  job_id = codes "job1:1111111111111111111111111111111111111111111111111111111111111111";
  decision = retry;
  attempts = 3;
  delay_ms = some 400;
  retry_at = some 1400;
  decision_id = codes "rd1:1111111111111111111111111111111111111111111111111111111111111111";
}

decide_runs : Decide.decide ones retry_request ≡ ok retry_record
unfolding Decide.decide openchess.Jobs.Retry.Check.request_ok openchess.Python.Values.text_keys
    openchess.Base.text_in openchess.Base.text_eq openchess.Python.Values.get
    openchess.Python.Values.text_matching openchess.Python.Grammar.fullmatch
    openchess.Python.Grammar.is_hex openchess.Python.Values.int_in
    openchess.Jobs.Retry.Check.policy_ok delay
decide_runs = refl

decide-Verdict_example : Verdict retry 3 (some 400) (some 1400)
decide-Verdict_example = decide-Verdict ones retry_request retry_record decide_runs

abbrev bucket_policy : Limit.Policy
bucket_policy = record { capacity = 3; refill_ms = 10 }

abbrev cost_three : Limit.Request
cost_three = record { key = codes "k"; cost = 3; now = 105; policy = null; previous = null }

-- A bucket that an earlier request emptied at 100.
abbrev emptied : Limit.Record
emptied = record {
  key = codes "k";
  capacity = 3;
  refill_ms = 10;
  cost = 3;
  decision = admit;
  tokens = 0;
  updated_at = 100;
  retry_after_ms = none;
  previous_id = none;
  limit_id = codes "lm1:1111111111111111111111111111111111111111111111111111111111111111";
}

abbrev denied : Limit.Record
denied = record {
  key = codes "k";
  capacity = 3;
  refill_ms = 10;
  cost = 3;
  decision = deny;
  tokens = 0;
  updated_at = 100;
  retry_after_ms = some 25;
  previous_id = some emptied.limit_id;
  limit_id = codes "lm1:1111111111111111111111111111111111111111111111111111111111111111";
}

emptied-Fits : Fits bucket_policy emptied 105
emptied-Fits = record { refill_pos = omega arith; within = omega arith; earlier = omega arith }

deny_runs : Admit.decide ones cost_three bucket_policy (some emptied) ≡ ok denied
unfolding Admit.decide openchess.Jobs.Limit.Check.limit_id
deny_runs = refl

-- A request for three tokens of the bucket.
abbrev asking : ℕ → Value → Value
asking now previous = dict 1 (
    entry (text (codes "op")) (text (codes "admit")) (
      entry (text (codes "key")) (text (codes "k")) (
        entry (text (codes "cost")) (integer (pos 3)) (
          entry (text (codes "now")) (integer (pos now)) (
            entry (text (codes "policy"))
              (dict 2 (
                entry (text (codes "capacity")) (integer (pos 3))
                  (entry (text (codes "refill_ms")) (integer (pos 10)) end)))
              (entry (text (codes "previous")) previous end))))))

abbrev asked_again : Limit.Request
asked_again = record {
  key = codes "k";
  cost = 3;
  now = 105;
  policy = dict 2 (
      entry (text (codes "capacity")) (integer (pos 3))
        (entry (text (codes "refill_ms")) (integer (pos 10)) end));
  previous = encode_record emptied;
}

admit_runs : admit_request ones (asking 100 null) ≡ ok emptied
unfolding admit_request request_ok openchess.Python.Values.text_keys openchess.Base.text_in
    openchess.Base.text_eq openchess.Python.Values.get openchess.Python.Values.text_matching
    fullmatch openchess.Python.Grammar.is_token openchess.Python.Values.int_in policy_ok
    openchess.Jobs.Limit.Check.read_previous Admit.decide openchess.Jobs.Limit.Check.limit_id
admit_runs = refl

again_reads : request_ok (asking 105 (encode_record emptied)) ≡ some asked_again
unfolding request_ok openchess.Python.Values.text_keys openchess.Base.text_in openchess.Base.text_eq
    openchess.Python.Values.get openchess.Python.Values.text_matching fullmatch
    openchess.Python.Grammar.is_token openchess.Python.Values.int_in encode_record
again_reads = refl

policy_reads : policy_ok asked_again.policy ≡ some bucket_policy
unfolding policy_ok openchess.Python.Values.text_keys openchess.Base.text_in openchess.Base.text_eq
    openchess.Python.Values.get openchess.Python.Values.int_in
policy_reads = refl

admit_request-accepted_example : admit_request ones (asking 105 (encode_record emptied)) ≡ ok denied
unfolding Admit.chain_ok openchess.Base.text_eq Admit.decide openchess.Jobs.Limit.Check.limit_id
admit_request-accepted_example =
    admit_request-accepted ones ones-hex (asking 100 null) emptied
      (asking 105 (encode_record emptied)) asked_again bucket_policy admit_runs again_reads
      policy_reads refl refl

deny_exact_example : leb 3 (refill bucket_policy 129 (some denied)).0 ≡ leb 130 129
deny_exact_example =
    deny_exact ones cost_three bucket_policy (some emptied) denied 25 129 emptied-Fits (omega arith)
      deny_runs refl (omega arith)
