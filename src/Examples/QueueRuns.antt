-- ===== src/Examples/QueueRuns.antt =====
-- Runs of the queue of server/jobs_queue.py and of the retry decision of server/jobs_retry.py.
use openchess.Jobs.Payload.Walk.{payloads_ok_iff}
use openchess.Jobs.Queue.Order.{claim_job-Leads, Due, NotAfter}
use openchess.Jobs.Payload.{scalar, payloads_ok}
use openchess.Jobs.Queue.Stable.{claim_job-unclaimable, transition-Ended, enqueue_job-again}
use openchess.Jobs.Payload.Shape.{admissible, count, meets}
use openchess.Jobs.Queue.Valid.Kept.{apply-IsValid, digest_grammar}
use openchess.Jobs.Queue.Check.{check_request, check_state}
use openchess.Python.Grammar.{fullmatch, is_hex, is_token}
use openchess.Base.{
  refl, none, some, ok, [], ◌∷◌, inl, Text, codes, text_eq, ◌≡◌, text_in, true, ◌<◌, OnOk, List,
  arith, ℕ, All, ◌↔◌, ◌+◌, ◌≤◌, inr,
}
use openchess.Python.Values.{Value, null, text, integer, pos, dict, list, nil, item, entry, end}
use openchess.Jobs.Queue.{Job, State, ready, done, enqueue, claim, max_now, max_attempts}
use openchess.Jobs.Queue.Engine.{
  apply, transition, claim_job, enqueue_job, by_id, lease, receipt, claimables, claimable,
  sort_jobs, claim_loop, update_job, release,
}
use openchess.Jobs.Queue.Valid.{IsValid, JobOk}

-- A digest of the right form.
abbrev zeros : Text → Text
zeros t = codes "0000000000000000000000000000000000000000000000000000000000000000"

abbrev first_id : Text
first_id = codes "job1:0000000000000000000000000000000000000000000000000000000000000000"

zeros-hex : (t : Text) → fullmatch digest_grammar (zeros t) ≡ true
unfolding fullmatch is_hex
zeros-hex t = refl

abbrev empty_queue : Value
empty_queue = dict 1 (
    entry (text (codes "jobs")) (list 2 nil)
      (entry (text (codes "next_seq")) (integer (pos 0)) end))

abbrev enqueue_request : Value
enqueue_request = dict 3 (
    entry (text (codes "op")) (text (codes "enqueue")) (
      entry (text (codes "dedupe_key")) (text (codes "import")) (
        entry (text (codes "priority")) (integer (pos 3))
          (entry (text (codes "payload")) (list 4 (item null nil)) end))))

abbrev payload : Value
payload = list 4 (item null nil)

abbrev queued : Job
queued = record {
  job_id = first_id;
  seq = 0;
  priority = 3;
  payload = payload;
  status = ready;
  attempts = 0;
  lease_owner = none;
  lease_expires_at = none;
}

abbrev one_job : State
one_job = record { jobs = queued ∷ []; next_seq = 1 }

enqueue_runs :
    apply zeros empty_queue enqueue_request
    ≡ ok (one_job, receipt zeros (enqueue (codes "import") 3 payload) (some queued) one_job)
unfolding apply check_request check_state text_eq text_in enqueue_job openchess.Python.Values.get
    openchess.Python.Values.text_keys openchess.Python.Values.text_matching fullmatch
    openchess.Python.Grammar.is_token openchess.Python.Values.int_in
    openchess.Jobs.Payload.payloads_ok openchess.Jobs.Payload.walk openchess.Jobs.Payload.size
    openchess.Jobs.Queue.Engine.enqueue_found by_id openchess.Jobs.Queue.Engine.job_id_for
enqueue_runs = refl

apply-IsValid_example : IsValid one_job
apply-IsValid_example =
    apply-IsValid zeros zeros-hex empty_queue enqueue_request one_job
      (receipt zeros (enqueue (codes "import") 3 payload) (some queued) one_job) enqueue_runs

queued-JobOk : JobOk queued
unfolding fullmatch is_hex admissible scalar
queued-JobOk = record {
  id_grammar = refl;
  priority_bound = omega arith;
  attempts_bound = omega arith;
  lease_ok = tt;
  payload_ok = refl;
}

-- One valid job under the first id makes a valid state.
single-IsValid : (j : Job) → j.seq ≡ 0 → JobOk j → IsValid (record { jobs = j ∷ []; next_seq = 1 })
unfolding text_in
single-IsValid j s v = record {
  clock_bound = omega arith;
  few = omega arith;
  jobs_ok = (refl, omega arith, omega arith, v, tt);
}

abbrev leased_job : Job
leased_job = lease (codes "w") 10 5 queued

abbrev leased_state : State
leased_state = record { jobs = leased_job ∷ []; next_seq = 1 }

claim_runs : claim_job (codes "w") 10 5 one_job ≡ (leased_state, some leased_job)
unfolding claim_job claimables claimable sort_jobs claim_loop update_job text_eq
claim_runs = refl

claim_job-Leads_example :
    (j : Job) × (leased_job ≡ lease (codes "w") 10 5 j)
    × (by_id j.job_id one_job.jobs ≡ some j)
    × Due 10 j
    × (j.attempts < max_attempts)
    × All (λ k. Due 10 k → k.attempts < max_attempts → NotAfter j k) one_job.jobs
claim_job-Leads_example =
    claim_job-Leads (codes "w") 10 5 one_job leased_state leased_job
      (single-IsValid queued refl queued-JobOk) claim_runs

leased-JobOk : JobOk leased_job
unfolding fullmatch is_hex is_token admissible scalar
leased-JobOk = record {
  id_grammar = refl;
  priority_bound = omega arith;
  attempts_bound = omega arith;
  lease_ok = (refl, omega arith, omega arith, omega arith);
  payload_ok = refl;
}

leased-found : by_id first_id leased_state.jobs ≡ some leased_job
unfolding by_id text_eq
leased-found = refl

-- The lease runs until 15.
leased-not-Due : ¬ (Due 12 leased_job)
leased-not-Due (inl is_ready) = cc
leased-not-Due (inr (_, e, until, expired)) = let same : 15 ≡ e = cc in omega (arith, same)

claim_job-unclaimable_example :
    by_id first_id (claim_job (codes "v") 12 5 leased_state).0.jobs ≡ some leased_job
claim_job-unclaimable_example =
    claim_job-unclaimable (codes "v") 12 5 leased_state first_id leased_job
      (single-IsValid leased_job refl leased-JobOk) leased-found leased-not-Due

abbrev done_job : Job
done_job = release done leased_job

abbrev done_state : State
done_state = record { jobs = done_job ∷ []; next_seq = 1 }

done-JobOk : JobOk done_job
unfolding fullmatch is_hex admissible scalar
done-JobOk = record {
  id_grammar = refl;
  priority_bound = omega arith;
  attempts_bound = omega arith;
  lease_ok = omega arith;
  payload_ok = refl;
}

done-found : by_id first_id done_state.jobs ≡ some done_job
unfolding by_id text_eq
done-found = refl

transition-Ended_example :
    OnOk
      (λ r. by_id first_id r.0.jobs ≡ some done_job)
      (transition zeros done_state (claim (codes "w") 20 5))
transition-Ended_example =
    transition-Ended zeros done_state (claim (codes "w") 20 5) first_id done_job
      (single-IsValid done_job refl done-JobOk) done-found (inl refl)

enqueue_once :
    enqueue_job zeros max_now (codes "import") 3 payload (record { jobs = []; next_seq = 0 })
    ≡ ok (one_job, queued)
unfolding enqueue_job openchess.Jobs.Queue.Engine.enqueue_found by_id
    openchess.Jobs.Queue.Engine.job_id_for
enqueue_once = refl

enqueue_job-again_example :
    enqueue_job zeros max_now (codes "import") 3 payload one_job ≡ ok (one_job, queued)
enqueue_job-again_example =
    enqueue_job-again zeros max_now (codes "import") 3 payload (record { jobs = []; next_seq = 0 })
      one_job queued enqueue_once

payloads_ok_iff_example :
    ((visited' : List ℕ) × (payloads_ok (payload ∷ []) (7 ∷ []) ≡ some visited'))
    ↔ ((admissible 1 payload ≡ true) × ((a : ℕ) → count a (7 ∷ []) + meets a payload ≤ 1))
payloads_ok_iff_example = payloads_ok_iff payload (7 ∷ []) (λ a. ground arith)
