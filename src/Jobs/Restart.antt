-- ===== src/Jobs/Restart.antt =====
-- The restart of a worker (server/jobs_restart.py): its request, its checks, its receipt.
pub mod Run
pub mod Released
pub mod Accepted
pub mod Receipts
use openchess.Base.{
  ℕ, not, Option, none, some, List, [], ◌∷◌, leb, Text, codes, text_eq, text_in, if◌then◌else◌, ◌+◌,
}
use openchess.Base.Maybe.{◌>>=◌, ◌>>◌, guard}
use openchess.Python.Values.{
  Value, text, integer, pos, list, dict, Items, item, nil, end, entry, get, int_in, text_matching,
  as_text,
}
use openchess.Python.Grammar.{fullmatch, worker_grammar}
use openchess.Jobs.Queue.{Job, State, max_now, max_jobs, ready}
use openchess.Jobs.Queue.Check.{keys_are, as_items, items_length}
use openchess.Jobs.Queue.Engine.{held, release}
use openchess.Jobs.Stored.{stored_job}

pub data Failure : Type 0 where
  malformed_restart_request corrupt_queue : Failure

-- The checked copy of a request.
pub record Request : Type 0 where
  pub worker : Text
  pub now : ℕ

-- `_request_ok`
unfoldable pub request_ok : Value → Option Request
request_ok (dict i d) = do
  keys_are d (codes "op" ∷ codes "worker" ∷ codes "now" ∷ [])
  op ← get (codes "op") d >>= as_text
  guard (text_eq op (codes "restart"))
  worker ← get (codes "worker") d >>= text_matching (fullmatch worker_grammar)
  now ← get (codes "now") d >>= int_in 0 max_now
  some (record { worker = worker; now = now })
request_ok _ = none

-- The loop of `_state_ok` over the jobs.
unfoldable pub jobs_ok : List Text → ℕ → ℕ → List ℕ → Items → Option (List Job)
jobs_ok seen_ids lowest_seq next_seq containers nil = some []
jobs_ok seen_ids lowest_seq next_seq containers (item v vs) = do
  (job, containers') ← stored_job lowest_seq next_seq containers v
  guard (not (text_in job.job_id seen_ids))
  jobs ← jobs_ok (job.job_id ∷ seen_ids) (job.seq + 1) next_seq containers' vs
  some (job ∷ jobs)

-- `_state_ok`
unfoldable pub state_ok : Value → Option State
unfolding jobs_ok
state_ok (dict i d) = do
  keys_are d (codes "jobs" ∷ codes "next_seq" ∷ [])
  jobs ← get (codes "jobs") d >>= as_items
  next_seq ← get (codes "next_seq") d >>= int_in 0 max_now
  guard (leb (items_length jobs) max_jobs)
  checked ← jobs_ok [] 0 next_seq [] jobs
  some (record { jobs = checked; next_seq = next_seq })
state_ok _ = none

-- The loop of `restart`: the jobs as it leaves them, and the ids of the released ones.
unfoldable pub release_all : Text → ℕ → List Job → List Job × List Text
release_all worker now [] = ([], [])
release_all worker now (job ∷ jobs) =
    let (rest, released) = release_all worker now jobs in
    if held job worker now
    then (release ready job ∷ rest, job.job_id ∷ released)
    else (job ∷ rest, released)

abbrev pub restarted : Text → ℕ → State → State
restarted worker now s = record s { jobs = (release_all worker now s.jobs).0 }

-- data/contracts/restart.yaml, record.fields, less the fixed `op`
pub record Receipt : Type 0 where
  pub worker : Text
  pub restarted_at : ℕ
  pub released : List Text
  pub prior_state_id : Text
  pub state_id : Text
  pub restart_id : Text

abbrev pub text_items : List Text → Items
text_items [] = nil
text_items (t ∷ ts) = item (text t) (text_items ts)

-- The record without its id, as the dict that is dumped.
abbrev pub encode_receipt : Text → ℕ → List Text → Text → Text → Value
encode_receipt worker now released prior after = dict 0 (
    entry (text (codes "op")) (text (codes "restart")) (
      entry (text (codes "worker")) (text worker) (
        entry (text (codes "restarted_at")) (integer (pos now)) (
          entry (text (codes "released")) (list 0 (text_items released)) (
            entry (text (codes "prior_state_id")) (text prior)
              (entry (text (codes "state_id")) (text after) end))))))
