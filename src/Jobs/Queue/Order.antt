-- ===== src/Jobs/Queue/Order.antt =====
-- Which job `_claim` of server/jobs_queue.py leases.
use openchess.Jobs.Queue.Valid.Claims.{
  All-insert_job, Fresh, Fresh-sorted, All-sort_jobs, claimables-claimable,
}
use mathlib.Core.Option
use openchess.Base.{
  true, false, refl, [], ◌∷◌, inl, inr, leb, none, some, List, Text, All, ◌≡◌, Bool-cases, Option,
  ℕ, ◌<◌, arith, if◌then◌else◌, leb→lt, Option-cases, ap, sym, ◌∙◌, ◌⊎◌, ◌≤◌,
}
use openchess.Base.Maybe.{OnRead, OnRead-at}
use openchess.Jobs.Queue.{Status, ready, leased, Job, max_attempts, State}
use openchess.Jobs.Queue.Engine.{
  by_id, lease, claim_loop, sooner, insert_job, sort_jobs, update_job, claimables, claim_job, bury,
  claimable, lapsed,
}
use openchess.Jobs.Queue.Valid.{IsValid}

-- No later job comes sooner.
Sorted : List Job → Type 0
Sorted [] = Unit {0}
Sorted (j ∷ js) = All (λ k. sooner k j ≡ false) js × Sorted js

sooner_trans : (i j k : Job) → sooner j i ≡ false → sooner k j ≡ false → sooner k i ≡ false
unfolding sooner
sooner_trans i j k p q = ground arith

sooner_asym : (j k : Job) → sooner k j ≡ true → sooner j k ≡ false
unfolding sooner
sooner_asym j k p = ground arith

sooner_irr : (j : Job) → sooner j j ≡ false
unfolding sooner
sooner_irr j = ground arith

pub All-map : (P Q : Job → Type 0) (js : List Job) → ((j : Job) → P j → Q j) → All P js → All Q js
All-map P Q [] f h = tt
All-map P Q (j ∷ js) f h = (f j h.0, All-map P Q js f h.1)

Sorted-insert_job : (j : Job) (js : List Job) → Sorted js → Sorted (insert_job j js)
unfolding insert_job Sorted
Sorted-insert_job j [] h = (tt, tt)
Sorted-insert_job j (k ∷ ks) h = elim (Bool-cases (sooner k j)) [
  | inl e ↦ rw e (
    All-insert_job (λ i. sooner i k ≡ false) j ks (sooner_asym j k e) h.0,
    Sorted-insert_job j ks h.1,
  )
  | inr e ↦ rw e (
    (
      e,
      All-map (λ i. sooner i k ≡ false) (λ i. sooner i j ≡ false) ks (λ i q. sooner_trans j k i e q)
          h.0,
    ),
    h,
  )
]

Sorted-sort_jobs : (js : List Job) → Sorted (sort_jobs js)
unfolding sort_jobs Sorted
Sorted-sort_jobs [] = tt
Sorted-sort_jobs (j ∷ js) = Sorted-insert_job j (sort_jobs js) (Sorted-sort_jobs js)

-- The first job with attempts left.
first_live : List Job → Option Job
first_live [] = none
first_live (j ∷ js) =
    let rest = first_live js in if leb max_attempts j.attempts then rest else some j

claim_loop-first_live :
    (worker : Text) (now lease_ms : ℕ) (js jobs : List Job)
    → (claim_loop worker now lease_ms js jobs).1
      ≡ Option.map (lease worker now lease_ms) (first_live js)
unfolding claim_loop first_live
claim_loop-first_live worker now lease_ms [] jobs = refl
claim_loop-first_live worker now lease_ms (j ∷ js) jobs =
    elim (Bool-cases (leb max_attempts j.attempts)) [
      | inl e ↦ rw e (claim_loop-first_live worker now lease_ms js (update_job j.job_id bury jobs))
      | inr e ↦ rw e refl
    ]

-- The job is in the list, and has attempts left; no other such job comes sooner.
abbrev Leads : (Job → Type 0) → List Job → Job → Type 0
Leads P js j =
    P j × (j.attempts < max_attempts) × All (λ k. k.attempts < max_attempts → sooner k j ≡ false) js

first_live-Leads :
    (P : Job → Type 0) (js : List Job) → Sorted js → All P js → OnRead (Leads P js) (first_live js)
unfolding first_live Sorted
first_live-Leads P [] st h = tt
first_live-Leads P (j ∷ js) st h = elim (Bool-cases (leb max_attempts j.attempts)) [
  | inl e ↦ rw e (OnRead-weaken j js e (first_live js) (first_live-Leads P js st.1 h.1))
  | inr e ↦ rw e (
    h.0,
    leb→lt _ _ e,
    (λ _. sooner_irr j, All-map (λ k. sooner k j ≡ false) _ js (λ k p _. p) st.0),
  )
]
  where
    OnRead-weaken :
        (j : Job) (js : List Job)
        → leb max_attempts j.attempts ≡ true
        → (o : Option Job) → OnRead (Leads P js) o
        → OnRead (Leads P (j ∷ js)) o
    OnRead-weaken j js e none r = tt
    OnRead-weaken j js e (some i) r = (r.0, r.1, (λ few. absurd (ground arith), r.2))

All-of-insert_job :
    (P : Job → Type 0) (j : Job) (js : List Job) → All P (insert_job j js) → All P (j ∷ js)
unfolding insert_job
All-of-insert_job P j [] h = h
All-of-insert_job P j (k ∷ ks) h = elim (Bool-cases (sooner k j)) [
  | inl e ↦
      let both : All P (k ∷ insert_job j ks) = rw e at h in
      let rest = All-of-insert_job P j ks both.1 in (rest.0, (both.0, rest.1))
  | inr e ↦ rw e at h
]

All-of-sort_jobs : (P : Job → Type 0) (js : List Job) → All P (sort_jobs js) → All P js
unfolding sort_jobs
All-of-sort_jobs P [] h = tt
All-of-sort_jobs P (j ∷ js) h =
    let both = All-of-insert_job P j (sort_jobs js) h in (both.0, All-of-sort_jobs P js both.1)

All-of-claimables :
    (P : Job → Type 0) (now : ℕ) (js : List Job)
    → All P (claimables now js)
    → All (λ k. claimable now k ≡ true → P k) js
unfolding claimables
All-of-claimables P now [] h = tt
All-of-claimables P now (j ∷ js) h = elim (Bool-cases (claimable now j)) [
  | inl e ↦
      let both : All P (j ∷ claimables now js) = rw e at h in
      ((λ _. both.0), All-of-claimables P now js both.1)
  | inr e ↦ ((λ c. absurd (ground arith)), All-of-claimables P now js (rw e at h))
]

abbrev pub Present : State → ℕ → Job → Type 0
Present s now j = (by_id j.job_id s.jobs ≡ some j) × (claimable now j ≡ true)

-- The jobs that `_claim` visits are in the list, and claimable.
pub Fresh-Present :
    (s : State) (now : ℕ) (js : List Job)
    → Fresh s.jobs js
    → All (λ j. claimable now j ≡ true) js
    → All (Present s now) js
Fresh-Present s now [] f c = tt
Fresh-Present s now (j ∷ js) f c = ((f.0, c.0), Fresh-Present s now js f.2 c.1)

-- The job is ready, or its lease has expired.
abbrev pub Due : ℕ → Job → Type 0
Due now j =
    (j.status ≡ ready) ⊎ ((j.status ≡ leased) × (e : ℕ) × (j.lease_expires_at ≡ some e) × (e ≤ now))

-- The first job's turn is before the second's, or they have the same.
abbrev pub NotAfter : Job → Job → Type 0
NotAfter j k = (j.priority < k.priority) ⊎ ((j.priority ≡ k.priority) × (j.seq ≤ k.seq))

lapsed-Due :
    (now : ℕ) (j : Job) (st : Status) (o : Option ℕ)
    → j.status ≡ st
    → j.lease_expires_at ≡ o
    → lapsed st o now ≡ true
    → Due now j
lapsed-Due now j ready o s e h = inl s
lapsed-Due now j leased (some t) s e h = inr (s, t, e, ground arith)
lapsed-Due now j leased none s e h = cc
lapsed-Due now j _ o s e h = cc

pub claimable-Due : (now : ℕ) (j : Job) → claimable now j ≡ true → Due now j
unfolding claimable
claimable-Due now j h = lapsed-Due now j j.status j.lease_expires_at refl refl h

Due-claimable : (now : ℕ) (j : Job) → Due now j → claimable now j ≡ true
unfolding claimable
Due-claimable now j (inl e) = rw e refl
Due-claimable now j (inr (s, t, e, le)) = rw (s, e) (ground arith)

sooner-NotAfter : (j k : Job) → sooner k j ≡ false → NotAfter j k
unfolding sooner
sooner-NotAfter j k h = ground arith

-- A claim that leases a job has leased, of the jobs of a valid state that are ready or whose lease
-- has expired and that have attempts left, one that none of these precedes by priority and sequence
-- number; the job that it reports is this one with the lease written in and one attempt more.
pub claim_job-Leads :
    (worker : Text) (now lease_ms : ℕ) (s s' : State) (leased_job : Job)
    → IsValid s
    → claim_job worker now lease_ms s ≡ (s', some leased_job)
    → (j : Job) × (leased_job ≡ lease worker now lease_ms j)
      × (by_id j.job_id s.jobs ≡ some j)
      × Due now j
      × (j.attempts < max_attempts)
      × All (λ k. Due now k → k.attempts < max_attempts → NotAfter j k) s.jobs
unfolding claim_job
claim_job-Leads worker now lease_ms s s' leased_job v h =
    let js = sort_jobs (claimables now s.jobs) in
    let present =
      Fresh-Present s now js (Fresh-sorted now s.jobs s.next_seq v.jobs_ok)
        (All-sort_jobs (λ j. claimable now j ≡ true) _ (claimables-claimable now s.jobs)) in
    elim (Option-cases (first_live js)) [
      | inl e ↦ cc (
        claim_loop-first_live worker now lease_ms js s.jobs,
        ap (λ (r : State × Option Job). r.1) h,
        e,
      )
      | inr (j, e) ↦
          let lead =
            OnRead-at (Leads (Present s now) js) _
              (first_live-Leads (Present s now) js (Sorted-sort_jobs (claimables now s.jobs))
                present)
              e in
          let reported : some leased_job ≡ some (lease worker now lease_ms j) =
            sym (ap (λ (r : State × Option Job). r.1) h)
            ∙ claim_loop-first_live worker now lease_ms js s.jobs
            ∙ ap (Option.map (lease worker now lease_ms)) e in
          (
            j,
            cc reported,
            lead.0.0,
            claimable-Due now j lead.0.1,
            lead.1,
            All-map _ _ s.jobs
                (λ k first due few. sooner-NotAfter j k (first (Due-claimable now k due) few))
                (All-of-claimables (λ k. k.attempts < max_attempts → sooner k j ≡ false) now s.jobs
                  (All-of-sort_jobs (λ k. k.attempts < max_attempts → sooner k j ≡ false) _
                    lead.2)),
          )
    ]
