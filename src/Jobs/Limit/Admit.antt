-- ===== src/Jobs/Limit/Admit.antt =====
-- `admit` of server/jobs_limit.py and its record.
use openchess.Jobs.Limit.Check.{with_id, request_ok, policy_ok, read_previous}
use openchess.Base.{
  ◌>>◌, ok, ◌>>=◌, none, some, Option, Text, Bool, Result, text_eq, true, ◌&&◌, or_else, ◌==◌, [],
  leb, require,
}
use openchess.Python.Values.{Value}
use openchess.Jobs.Limit.{
  Record, Request, refill, outcome, limit_conflict, malformed_limit_request, invalid_limit_policy,
  Policy, Failure, corrupt_previous_bucket,
}

-- `_chain_ok`
unfoldable pub chain_ok : Request → Policy → Record → Bool
chain_ok r p prev =
    text_eq r.key prev.key
    && (p.capacity == prev.capacity)
    && (p.refill_ms == prev.refill_ms)
    && leb prev.updated_at r.now

abbrev pub chain_all_ok : Request → Policy → Option Record → Bool
chain_all_ok r p none = true
chain_all_ok r p (some prev) = chain_ok r p prev

abbrev pub id_of : Option Record → Option Text
id_of none = none
id_of (some prev) = some prev.limit_id

module _ (hexdigest : Text → Text) where
  -- The decision of `admit` on the checked values, once they are known to belong together.
  unfoldable pub decide : Request → Policy → Option Record → Result Failure Record
  unfolding refill outcome
  decide r p previous = do
    let refilled = refill p r.now previous
    (decision, tokens, wait) ← outcome p r.cost r.now refilled
    ok (
        with_id hexdigest (record {
          key = r.key;
          capacity = p.capacity;
          refill_ms = p.refill_ms;
          cost = r.cost;
          decision = decision;
          tokens = tokens;
          updated_at = refilled.1;
          retry_after_ms = wait;
          previous_id = id_of previous;
          limit_id = [];
        }))

  -- `admit`
  unfoldable pub admit_request : Value → Result Failure Record
  unfolding chain_ok
  admit_request request = do
    r ← or_else malformed_limit_request (request_ok request)
    p ← or_else invalid_limit_policy (policy_ok r.policy)
    require (leb r.cost p.capacity) malformed_limit_request
    previous ← or_else corrupt_previous_bucket (read_previous hexdigest r.previous)
    require (chain_all_ok r p previous) limit_conflict
    decide r p previous
