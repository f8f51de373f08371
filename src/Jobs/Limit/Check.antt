-- ===== src/Jobs/Limit/Check.antt =====
-- The validation of server/jobs_limit.py, with the values read: requests, policies, and the previous
-- record, whose id must recompute.
use openchess.Base.{
  true, false, [], ◌∷◌, some, none, codes, Bool, Option, Text, if◌then◌else◌, ℕ, ◌++◌, ◌&&◌,
  text_eq, leb, ◌-◌, ltb, ◌*◌, ◌+◌,
}
use openchess.Base.Maybe.{◌>>=◌, ◌>>◌, guard}
use openchess.Python.Values.{
  Value, text, dict, null, entry, end, integer, pos, get, text_matching, int_in, Entries,
}
use openchess.Python.Grammar.{Grammar, is_hex, fullmatch, worker_grammar}
use openchess.Python.Dumps.{dumps}
use openchess.Jobs.Queue.Check.{keys_are}
use openchess.Jobs.Queue.Engine.{text_or_null, int_or_null}
use openchess.Jobs.Limit.{
  Decision, admit, deny, Record, Request, Policy, max_now, max_capacity, max_refill,
}

-- data/contracts/limit.yaml, identifiers.limit_id
abbrev pub limit_id_grammar : Grammar
limit_id_grammar = record { prefix = codes "lm1:"; class = is_hex; fewest = 64; most = 64 }

abbrev pub dict_or_null : Value → Bool
dict_or_null (dict i d) = true
dict_or_null null = true
dict_or_null _ = false

abbrev pub is_dict : Value → Bool
is_dict (dict i d) = true
is_dict _ = false

-- `_request_ok`; the previous record is null or a dict
unfoldable pub request_ok : Value → Option Request
request_ok (dict i d) = do
  keys_are d (
      codes "op"
      ∷ codes "key"
      ∷ codes "cost"
      ∷ codes "now"
      ∷ codes "policy"
      ∷ codes "previous"
      ∷ [])
  get (codes "op") d >>= text_matching (text_eq (codes "admit"))
  key ← get (codes "key") d >>= text_matching (fullmatch worker_grammar)
  cost ← get (codes "cost") d >>= int_in 1 max_capacity
  now ← get (codes "now") d >>= int_in 0 max_now
  policy ← get (codes "policy") d
  previous ← get (codes "previous") d
  guard (is_dict policy && dict_or_null previous)
  some (record { key = key; cost = cost; now = now; policy = policy; previous = previous })
request_ok _ = none

-- `_policy_ok`
unfoldable pub policy_ok : Value → Option Policy
policy_ok (dict i d) = do
  keys_are d (codes "capacity" ∷ codes "refill_ms" ∷ [])
  capacity ← get (codes "capacity") d >>= int_in 1 max_capacity
  refill_ms ← get (codes "refill_ms") d >>= int_in 1 max_refill
  some (record { capacity = capacity; refill_ms = refill_ms })
policy_ok _ = none

abbrev pub decision_name : Decision → Text
decision_name admit = codes "admit"
decision_name deny = codes "deny"

-- The fields of a record without its id, with further ones after them.
abbrev encode_fields : Record → Entries → Entries
encode_fields r more = entry (text (codes "op")) (text (codes "admit")) (
    entry (text (codes "key")) (text r.key) (
      entry (text (codes "capacity")) (integer (pos r.capacity)) (
        entry (text (codes "refill_ms")) (integer (pos r.refill_ms)) (
          entry (text (codes "cost")) (integer (pos r.cost)) (
            entry (text (codes "decision")) (text (decision_name r.decision)) (
              entry (text (codes "tokens")) (integer (pos r.tokens)) (
                entry (text (codes "updated_at")) (integer (pos r.updated_at)) (
                  entry (text (codes "retry_after_ms")) (int_or_null r.retry_after_ms)
                    (entry (text (codes "previous_id")) (text_or_null r.previous_id) more)))))))))

-- The record without its id, as the dict that is dumped.
pub encode_body : Record → Value
encode_body r = dict 0 (encode_fields r end)

-- The dict that `admit` returns.
unfoldable pub encode_record : Record → Value
encode_record r = dict 0 (encode_fields r (entry (text (codes "limit_id")) (text r.limit_id) end))

unfoldable pub read_decision : Value → Option Decision
read_decision (text t) =
    if text_eq t (codes "admit")
    then some admit
    else if text_eq t (codes "deny")
    then some deny
    else none
read_decision _ = none

abbrev pub read_or_null {ℓ} : {A : Type ℓ} → (Value → Option A) → Value → Option (Option A)
read_or_null f null = some none
read_or_null f v = do a ← f v; some (some a)

-- What the decision of a record says of its tokens and of the time to wait.
abbrev pub agrees : Decision → Option ℕ → Record → Bool
agrees admit none r = leb r.tokens (r.capacity - r.cost)
agrees deny (some wait) r =
    ltb r.tokens r.cost
    && ltb ((r.cost - r.tokens - 1) * r.refill_ms) wait
    && leb wait ((r.cost - r.tokens) * r.refill_ms)
    && leb (r.updated_at + wait) max_now
agrees _ _ r = false

unfoldable pub decision_ok : Record → Bool
decision_ok r = agrees r.decision r.retry_after_ms r

-- The fields of a previous record, each within its bounds.
unfoldable pub read_record : Value → Option Record
unfolding read_decision
read_record (dict i d) = do
  keys_are d (
      codes "op"
      ∷ codes "key"
      ∷ codes "capacity"
      ∷ codes "refill_ms"
      ∷ codes "cost"
      ∷ codes "decision"
      ∷ codes "tokens"
      ∷ codes "updated_at"
      ∷ codes "retry_after_ms"
      ∷ codes "previous_id"
      ∷ codes "limit_id"
      ∷ [])
  get (codes "op") d >>= text_matching (text_eq (codes "admit"))
  key ← get (codes "key") d >>= text_matching (fullmatch worker_grammar)
  capacity ← get (codes "capacity") d >>= int_in 1 max_capacity
  refill_ms ← get (codes "refill_ms") d >>= int_in 1 max_refill
  cost ← get (codes "cost") d >>= int_in 1 capacity
  decision ← get (codes "decision") d >>= read_decision
  tokens ← get (codes "tokens") d >>= int_in 0 capacity
  updated_at ← get (codes "updated_at") d >>= int_in 0 max_now
  wait ← get (codes "retry_after_ms") d >>= read_or_null (int_in 1 max_now)
  previous_id ←
      get (codes "previous_id") d >>= read_or_null (text_matching (fullmatch limit_id_grammar))
  limit_id ← get (codes "limit_id") d >>= text_matching (fullmatch limit_id_grammar)
  some (record {
    key = key;
    capacity = capacity;
    refill_ms = refill_ms;
    cost = cost;
    decision = decision;
    tokens = tokens;
    updated_at = updated_at;
    retry_after_ms = wait;
    previous_id = previous_id;
    limit_id = limit_id;
  })
read_record _ = none

-- `hexdigest` stands for SHA-256 over the UTF-8 bytes of a text, in hexadecimal.
module _ (hexdigest : Text → Text) where
  -- `_limit_id`
  unfoldable pub limit_id : Record → Text
  unfolding encode_body
  limit_id r = codes "lm1:" ++ hexdigest (codes "lm1" ++ (0 ∷ dumps true (encode_body r)))

  -- `record["limit_id"] = _limit_id(record)`
  abbrev pub with_id : Record → Record
  with_id r = record r { limit_id = limit_id r }

  -- `_previous_ok` on the fields that were read
  unfoldable pub previous_ok : Record → Bool
  unfolding decision_ok
  previous_ok r = decision_ok r && text_eq r.limit_id (limit_id r)

  -- The previous record: none for a null one.
  unfoldable pub read_previous : Value → Option (Option Record)
  unfolding previous_ok
  read_previous null = some none
  read_previous v = do r ← read_record v; guard (previous_ok r); some (some r)
