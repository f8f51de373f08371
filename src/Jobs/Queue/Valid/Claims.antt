-- ===== src/Jobs/Queue/Valid/Claims.antt =====
-- The claim loop of server/jobs_queue.py visits, in sorted order, jobs that the list still holds.
use openchess.Jobs.Queue.Valid.Updates.{by_id-update_job_ne, update_job-JobsOk, length-update_job}
use mathlib.Core.Path.{subst}
use openchess.Base.{
  true, false, refl, [], ◌∷◌, inl, inr, leb, Text, List, text_in, ℕ, All, ◌≡◌, Bool-cases, text_eq,
  ◌+◌, some, arith, text_eq_comm, ◌∙◌, ◌≤◌, text_eq_refl, length, Option,
}
use openchess.Jobs.Queue.{Job, max_attempts, max_now}
use openchess.Jobs.Queue.Engine.{
  by_id, update_job, bury, lease, claim_loop, claimables, insert_job, sort_jobs, claimable, sooner,
}
use openchess.Jobs.Queue.Valid.{JobOk, JobsOk, fullmatch, worker_grammar}

-- The id is no other's.
abbrev Apart : Text → List Job → Type 0
Apart jid js = All (λ k. text_eq jid k.job_id ≡ false) js

-- Every job to visit is in the list under its id, and no two have one id.
abbrev pub Fresh : List Job → List Job → Type 0
Fresh jobs [] = Unit {0}
Fresh jobs (j ∷ js) = (by_id j.job_id jobs ≡ some j) × Apart j.job_id js × Fresh jobs js

All-claimables : (P : Job → Type 0) (now : ℕ) (js : List Job) → All P js → All P (claimables now js)
unfolding claimables
All-claimables P now [] h = tt
All-claimables P now (j ∷ js) h = elim (Bool-cases (claimable now j)) [
  | inl e ↦ rw e (h.0, All-claimables P now js h.1)
  | inr e ↦ rw e (All-claimables P now js h.1)
]

pub claimables-claimable :
    (now : ℕ) (js : List Job) → All (λ j. claimable now j ≡ true) (claimables now js)
unfolding claimables
claimables-claimable now [] = tt
claimables-claimable now (j ∷ js) = elim (Bool-cases (claimable now j)) [
  | inl e ↦ rw e (e, claimables-claimable now js)
  | inr e ↦ rw e (claimables-claimable now js)
]

Fresh-claimables :
    (jobs : List Job) (now : ℕ) (js : List Job) → Fresh jobs js → Fresh jobs (claimables now js)
unfolding claimables
Fresh-claimables jobs now [] h = tt
Fresh-claimables jobs now (j ∷ js) h = elim (Bool-cases (claimable now j)) [
  | inl e ↦ rw e (
    h.0,
    All-claimables (λ k. text_eq j.job_id k.job_id ≡ false) now js h.1,
    Fresh-claimables jobs now js h.2,
  )
  | inr e ↦ rw e (Fresh-claimables jobs now js h.2)
]

pub All-insert_job :
    (P : Job → Type 0) (j : Job) (js : List Job) → P j → All P js → All P (insert_job j js)
unfolding insert_job
All-insert_job P j [] p h = (p, tt)
All-insert_job P j (k ∷ ks) p h = elim (Bool-cases (sooner k j)) [
  | inl e ↦ rw e (h.0, All-insert_job P j ks p h.1)
  | inr e ↦ rw e (p, h)
]

pub All-sort_jobs : (P : Job → Type 0) (js : List Job) → All P js → All P (sort_jobs js)
unfolding sort_jobs
All-sort_jobs P [] h = tt
All-sort_jobs P (j ∷ js) h = All-insert_job P j (sort_jobs js) h.0 (All-sort_jobs P js h.1)

Fresh-insert_job :
    (jobs : List Job) (j : Job) (js : List Job)
    → by_id j.job_id jobs ≡ some j
    → Apart j.job_id js
    → Fresh jobs js
    → Fresh jobs (insert_job j js)
unfolding insert_job
Fresh-insert_job jobs j [] found apart h = (found, tt, tt)
Fresh-insert_job jobs j (k ∷ ks) found apart h = elim (Bool-cases (sooner k j)) [
  | inl e ↦ rw e (
    h.0,
    All-insert_job (λ i. text_eq k.job_id i.job_id ≡ false) j ks
        (text_eq_comm k.job_id j.job_id ∙ apart.0) h.1,
    Fresh-insert_job jobs j ks found apart.1 h.2,
  )
  | inr e ↦ rw e (found, apart, h)
]

Fresh-sort_jobs : (jobs js : List Job) → Fresh jobs js → Fresh jobs (sort_jobs js)
unfolding sort_jobs
Fresh-sort_jobs jobs [] h = tt
Fresh-sort_jobs jobs (j ∷ js) h =
    Fresh-insert_job jobs j (sort_jobs js) h.0
      (All-sort_jobs (λ k. text_eq j.job_id k.job_id ≡ false) js h.1) (Fresh-sort_jobs jobs js h.2)

-- The ids of later jobs are new after those before.
new_ids :
    (js : List Job) (ids : List Text) (low next : ℕ) (jid : Text)
    → ((t : Text) → text_in t ids ≡ false → text_eq jid t ≡ false)
    → JobsOk ids low next js
    → Apart jid js
unfolding text_in
new_ids [] ids low next jid k v = tt
new_ids (j ∷ js) ids low next jid k v = (
  k j.job_id v.0,
  new_ids js (j.job_id ∷ ids) (j.seq + 1) next jid (λ t h. k t (ground arith)) v.4,
)

-- What `_by_id` finds in a tail it finds behind a job with another id.
Fresh-cons :
    (j : Job) (jobs js : List Job) → Apart j.job_id js → Fresh jobs js → Fresh (j ∷ jobs) js
unfolding by_id
Fresh-cons j jobs [] apart h = tt
Fresh-cons j jobs (k ∷ ks) apart h = (rw apart.0 h.0, h.1, Fresh-cons j jobs ks apart.1 h.2)

Fresh-self : (js : List Job) (ids : List Text) (low next : ℕ) → JobsOk ids low next js → Fresh js js
unfolding by_id text_in
Fresh-self [] ids low next v = tt
Fresh-self (j ∷ js) ids low next v =
    let apart =
      new_ids js (j.job_id ∷ ids) (j.seq + 1) next j.job_id
        (λ t h. ground (arith, text_eq_comm t j.job_id)) v.4 in
    (
      rw (text_eq_refl j.job_id),
      apart,
      Fresh-cons j js js apart (Fresh-self js (j.job_id ∷ ids) (j.seq + 1) next v.4),
    )

-- The jobs that `_claim` sorts are in the list, each under an id of its own.
pub Fresh-sorted :
    (now : ℕ) (jobs : List Job) (next : ℕ)
    → JobsOk [] 0 next jobs
    → Fresh jobs (sort_jobs (claimables now jobs))
Fresh-sorted now jobs next v =
    Fresh-sort_jobs jobs _ (Fresh-claimables jobs now jobs (Fresh-self jobs [] 0 next v))

-- An update of another job leaves them there.
Fresh-update_job :
    (f : Job → Job) (jid : Text) (jobs js : List Job)
    → ((j : Job) → (f j).job_id ≡ j.job_id)
    → ((j : Job) → (f j).seq ≡ j.seq)
    → Apart jid js
    → Fresh jobs js
    → Fresh (update_job jid f jobs) js
Fresh-update_job f jid jobs [] same_id same_seq apart h = tt
Fresh-update_job f jid jobs (j ∷ js) same_id same_seq apart h = (
  by_id-update_job_ne f same_id same_seq j.job_id jid jobs apart.0 ∙ h.0,
  h.1,
  Fresh-update_job f jid jobs js same_id same_seq apart.1 h.2,
)

pub found_same : {o : Option Job} {j k : Job} → o ≡ some j → o ≡ some k → j ≡ k
found_same p q = cc

bury-JobOk : (j : Job) → JobOk j → leb max_attempts j.attempts ≡ true → JobOk (bury j)
bury-JobOk j v h = record {
  id_grammar = v.id_grammar;
  priority_bound = v.priority_bound;
  attempts_bound = v.attempts_bound;
  lease_ok = ground (arith, v.attempts_bound);
  payload_ok = v.payload_ok;
}

lease-JobOk :
    (worker : Text) (now lease_ms : ℕ) (j : Job)
    → fullmatch worker_grammar worker ≡ true
    → 1 ≤ lease_ms
    → now + lease_ms ≤ max_now
    → JobOk j
    → leb max_attempts j.attempts ≡ false
    → JobOk (lease worker now lease_ms j)
lease-JobOk worker now lease_ms j w l m v h = record {
  id_grammar = v.id_grammar;
  priority_bound = v.priority_bound;
  attempts_bound = ground arith;
  lease_ok = (w, omega arith, m, omega arith);
  payload_ok = v.payload_ok;
}

module _ (worker : Text) (now lease_ms : ℕ) (w : fullmatch worker_grammar worker ≡ true)
    (l : 1 ≤ lease_ms) (m : now + lease_ms ≤ max_now) where
  pub claim_loop-JobsOk :
      (js jobs : List Job) (next : ℕ)
      → Fresh jobs js
      → JobsOk [] 0 next jobs
      → JobsOk [] 0 next (claim_loop worker now lease_ms js jobs).0
  unfolding claim_loop
  claim_loop-JobsOk [] jobs next h v = v
  claim_loop-JobsOk (j ∷ js) jobs next h v = elim (Bool-cases (leb max_attempts j.attempts)) [
    | inl e ↦ rw e (
        claim_loop-JobsOk js (update_job j.job_id bury jobs) next
          (Fresh-update_job bury j.job_id jobs js (λ k. refl) (λ k. refl) h.1 h.2)
          (update_job-JobsOk bury (λ k. refl) (λ k. refl) j.job_id jobs [] 0 next
            (λ job found ok_job.
              bury-JobOk job ok_job
                (subst (λ k. leb max_attempts k.attempts ≡ true) (found_same h.0 found) e))
            v))
    | inr e ↦ rw e (
        update_job-JobsOk (lease worker now lease_ms) (λ k. refl) (λ k. refl) j.job_id jobs [] 0
          next
          (λ job found ok_job.
            lease-JobOk worker now lease_ms job w l m ok_job
              (subst (λ k. leb max_attempts k.attempts ≡ false) (found_same h.0 found) e))
          v)
  ]

  pub length-claim_loop :
      (js jobs : List Job) → length (claim_loop worker now lease_ms js jobs).0 ≡ length jobs
  unfolding claim_loop
  length-claim_loop [] jobs = refl
  length-claim_loop (j ∷ js) jobs = elim (Bool-cases (leb max_attempts j.attempts)) [
    | inl e ↦ rw e (
        length-claim_loop js (update_job j.job_id bury jobs) ∙ length-update_job bury j.job_id jobs)
    | inr e ↦ rw e (length-update_job (lease worker now lease_ms) j.job_id jobs)
  ]
