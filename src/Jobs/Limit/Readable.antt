-- ===== src/Jobs/Limit/Readable.antt =====
-- What the checks of server/jobs_limit.py promise, and records that come back from their dicts.
use openchess.Base.{
  refl, true, ◌≡◌, ◌≤◌, codes, text_eq, Option, Text, some, none, arith, ℕ, text_in, ◌&&◌,
}
use openchess.Base.Maybe.{◌>>=◌, guard, OnRead, OnRead-bind}
use openchess.Python.Values.{
  Value, dict, text, get, int_in, text_matching, read-int_in, read-text_matching,
  text_matching-text, int_in-pos, text_keys,
}
use openchess.Python.Grammar.{fullmatch, worker_grammar}
use openchess.Jobs.Queue.Check.{keys_are}
use openchess.Jobs.Queue.Engine.{text_or_null, int_or_null}
use openchess.Jobs.Limit.{
  Policy, Request, Record, Decision, admit, deny, max_capacity, max_refill, max_now,
}
use openchess.Jobs.Limit.Check.{
  is_dict, request_ok, policy_ok, read_record, read_or_null, read_decision, limit_id_grammar,
  dict_or_null, encode_record, decision_name,
}

-- What the check of a request promises.
pub record InRange (r : Request) : Type 0 where
  pub key_matches : fullmatch worker_grammar r.key ≡ true
  pub some_cost : 1 ≤ r.cost
  pub clock_bound : r.now ≤ max_now

pub request_ok-InRange : (v : Value) → OnRead InRange (request_ok v)
unfolding request_ok
request_ok-InRange (dict i d) = OnRead-bind InRange (keys_are d _) _ λ _ _.
    OnRead-bind InRange (get (codes "op") d >>= text_matching (text_eq (codes "admit"))) _ λ _ _.
      OnRead-bind InRange (get (codes "key") d >>= text_matching (fullmatch worker_grammar)) _
        λ key e_key.
          OnRead-bind InRange (get (codes "cost") d >>= int_in 1 max_capacity) _ λ cost e_cost.
            OnRead-bind InRange (get (codes "now") d >>= int_in 0 max_now) _ λ now e_now.
              OnRead-bind InRange (get (codes "policy") d) _ λ policy _.
                OnRead-bind InRange (get (codes "previous") d) _ λ previous _.
                  OnRead-bind InRange (guard (is_dict policy && dict_or_null previous)) _ λ _ _.
                    record {
                      key_matches = read-text_matching _ _ e_key;
                      some_cost = (read-int_in 1 max_capacity _ e_cost).0;
                      clock_bound = (read-int_in 0 max_now _ e_now).1;
                    }
request_ok-InRange _ = tt

-- What the check of a policy promises.
pub record PolicyOk (p : Policy) : Type 0 where
  pub some_capacity : 1 ≤ p.capacity
  pub capacity_bound : p.capacity ≤ max_capacity
  pub refill_pos : 1 ≤ p.refill_ms
  pub refill_bound : p.refill_ms ≤ max_refill

pub policy_ok-PolicyOk : (v : Value) → OnRead PolicyOk (policy_ok v)
unfolding policy_ok
policy_ok-PolicyOk (dict i d) = OnRead-bind PolicyOk (keys_are d _) _ λ _ _.
    OnRead-bind PolicyOk (get (codes "capacity") d >>= int_in 1 max_capacity) _ λ capacity e_c.
      OnRead-bind PolicyOk (get (codes "refill_ms") d >>= int_in 1 max_refill) _ λ refill e_r.
        record {
          some_capacity = (read-int_in 1 max_capacity _ e_c).0;
          capacity_bound = (read-int_in 1 max_capacity _ e_c).1;
          refill_pos = (read-int_in 1 max_refill _ e_r).0;
          refill_bound = (read-int_in 1 max_refill _ e_r).1;
        }
policy_ok-PolicyOk _ = tt

-- What the refill needs to know of a record that was read.
pub record Sound (c : Record) : Type 0 where
  pub within : c.tokens ≤ c.capacity
  pub id_matches : fullmatch limit_id_grammar c.limit_id ≡ true

pub read_record-Sound : (v : Value) → OnRead Sound (read_record v)
unfolding read_record
read_record-Sound (dict i d) = OnRead-bind Sound (keys_are d _) _ λ _ _.
    OnRead-bind Sound (get (codes "op") d >>= text_matching (text_eq (codes "admit"))) _ λ _ _.
      OnRead-bind Sound (get (codes "key") d >>= text_matching (fullmatch worker_grammar)) _
        λ key _.
          OnRead-bind Sound (get (codes "capacity") d >>= int_in 1 max_capacity) _ λ capacity _.
            OnRead-bind Sound (get (codes "refill_ms") d >>= int_in 1 max_refill) _ λ refill _.
              OnRead-bind Sound (get (codes "cost") d >>= int_in 1 capacity) _ λ cost _.
                OnRead-bind Sound (get (codes "decision") d >>= read_decision) _ λ decision _.
                  OnRead-bind Sound (get (codes "tokens") d >>= int_in 0 capacity) _
                    λ tokens e_tokens.
                      OnRead-bind Sound (get (codes "updated_at") d >>= int_in 0 max_now) _ λ at _.
                        OnRead-bind Sound
                          (get (codes "retry_after_ms") d >>= read_or_null (int_in 1 max_now)) _
                          λ wait _.
                            OnRead-bind Sound
                              (get (codes "previous_id") d
                                >>= read_or_null (text_matching (fullmatch limit_id_grammar)))
                              _
                              λ before _.
                                OnRead-bind Sound
                                  (get (codes "limit_id") d
                                    >>= text_matching (fullmatch limit_id_grammar))
                                  _
                                  λ own e_own. record {
                                    within = (read-int_in 0 capacity _ e_tokens).1;
                                    id_matches = read-text_matching _ _ e_own;
                                  }
read_record-Sound _ = tt

abbrev pub IdMatches : Option Text → Type 0
IdMatches none = Unit
IdMatches (some t) = fullmatch limit_id_grammar t ≡ true

abbrev pub WaitOk : Option ℕ → Type 0
WaitOk none = Unit
WaitOk (some wait) = (1 ≤ wait) × (wait ≤ max_now)

-- A record whose fields have the form and the bounds that `_previous_ok` asks for.
pub record Readable (c : Record) : Type 0 where
  pub key_matches : fullmatch worker_grammar c.key ≡ true
  pub policy : PolicyOk (record { capacity = c.capacity; refill_ms = c.refill_ms })
  pub some_cost : 1 ≤ c.cost
  pub cost_bound : c.cost ≤ c.capacity
  pub within : c.tokens ≤ c.capacity
  pub clock_bound : c.updated_at ≤ max_now
  pub wait_ok : WaitOk c.retry_after_ms
  pub previous_matches : IdMatches c.previous_id
  pub id_matches : fullmatch limit_id_grammar c.limit_id ≡ true

read_or_null-wait :
    (o : Option ℕ) → WaitOk o → read_or_null (int_in 1 max_now) (int_or_null o) ≡ some o
read_or_null-wait none h = refl
read_or_null-wait (some wait) h = rw (int_in-pos 1 max_now wait h.0 h.1) refl

read_or_null-id :
    (o : Option Text)
    → IdMatches o
    → read_or_null (text_matching (fullmatch limit_id_grammar)) (text_or_null o) ≡ some o
read_or_null-id none h = refl
read_or_null-id (some t) h = rw (text_matching-text (fullmatch limit_id_grammar) t h) refl

read_decision-name : (d : Decision) → read_decision (text (decision_name d)) ≡ some d
unfolding read_decision text_eq
read_decision-name admit = refl
read_decision-name deny = refl

-- A record comes back from its dict.
pub read_record-encode_record : (c : Record) → Readable c → read_record (encode_record c) ≡ some c
unfolding read_record encode_record text_matching get text_eq text_in text_keys
read_record-encode_record c v =
    rw
      (
        text_matching-text (fullmatch worker_grammar) c.key v.key_matches,
        int_in-pos 1 max_capacity c.capacity v.policy.some_capacity v.policy.capacity_bound,
        int_in-pos 1 max_refill c.refill_ms v.policy.refill_pos v.policy.refill_bound,
        int_in-pos 1 c.capacity c.cost v.some_cost v.cost_bound,
        read_decision-name c.decision,
        int_in-pos 0 c.capacity c.tokens (omega arith) v.within,
        int_in-pos 0 max_now c.updated_at (omega arith) v.clock_bound,
        read_or_null-wait c.retry_after_ms v.wait_ok,
        read_or_null-id c.previous_id v.previous_matches,
        text_matching-text (fullmatch limit_id_grammar) c.limit_id v.id_matches,
      )
      refl
