-- ===== src/Jobs/Queue/Valid/Updates.antt =====
-- The list of jobs under `_by_id`, in-place updates and `append` (server/jobs_queue.py).
use mathlib.Core.Path.{subst, ap, sym, subst₂}
use openchess.Base.{
  refl, ◌∙◌, false, [], ◌∷◌, inl, inr, Text, ◌≡◌, List, ℕ, some, text_eq, length, Bool-cases, arith,
  ◌≤◌, ◌+◌, text_eq_sound, text_in, none, ◌++◌, text_eq_comm,
}
use openchess.Jobs.Queue.{Job}
use openchess.Jobs.Queue.Engine.{by_id, update_job}
use openchess.Jobs.Queue.Valid.{JobOk, JobsOk}

-- What `_by_id` finds is valid, and has the id.
pub by_id-JobOk :
    (jid : Text) (jobs : List Job) (ids : List Text) (low next : ℕ) (job : Job)
    → JobsOk ids low next jobs
    → by_id jid jobs ≡ some job
    → JobOk job
unfolding by_id
by_id-JobOk jid [] ids low next job v h = cc
by_id-JobOk jid (j ∷ js) ids low next job v h = elim (Bool-cases (text_eq j.job_id jid)) [
  | inl e ↦ let same : j ≡ job = cc (rw e at h) in subst JobOk same v.3
  | inr e ↦ by_id-JobOk jid js (j.job_id ∷ ids) (j.seq + 1) next job v.4 (rw e at h)
]

pub job_id-by_id :
    (jid : Text) (jobs : List Job) (job : Job) → by_id jid jobs ≡ some job → job.job_id ≡ jid
unfolding by_id
job_id-by_id jid [] job h = cc
job_id-by_id jid (j ∷ js) job h = elim (Bool-cases (text_eq j.job_id jid)) [
  | inl e ↦
      let same : j ≡ job = cc (rw e at h) in ap (λ k. k.job_id) (sym same) ∙ text_eq_sound _ _ e
  | inr e ↦ job_id-by_id jid js job (rw e at h)
]

-- Another version of the first job.
JobsOk-head :
    (j k : Job) (js : List Job) (ids : List Text) (low next : ℕ)
    → k.job_id ≡ j.job_id
    → k.seq ≡ j.seq
    → JobOk k
    → JobsOk ids low next (j ∷ js)
    → JobsOk ids low next (k ∷ js)
JobsOk-head j k js ids low next same_id same_seq ok_k v = (
  subst (λ t. text_in t ids ≡ false) (sym same_id) v.0,
  omega arith,
  omega arith,
  ok_k,
  subst₂ (λ t n. JobsOk (t ∷ ids) (n + 1) next js) (sym same_id) (sym same_seq) v.4,
)

-- An update of the job that `_by_id` finds, which keeps its id and sequence number.
module _ (f : Job → Job) (same_id : (j : Job) → (f j).job_id ≡ j.job_id)
    (same_seq : (j : Job) → (f j).seq ≡ j.seq) where
  pub update_job-JobsOk :
      (jid : Text) (jobs : List Job) (ids : List Text) (low next : ℕ)
      → ((job : Job) → by_id jid jobs ≡ some job → JobOk job → JobOk (f job))
      → JobsOk ids low next jobs
      → JobsOk ids low next (update_job jid f jobs)
  unfolding by_id update_job
  update_job-JobsOk jid [] ids low next k v = tt
  update_job-JobsOk jid (j ∷ js) ids low next k v = elim (Bool-cases (text_eq j.job_id jid)) [
    | inl e ↦ rw e (JobsOk-head j (f j) js ids low next (same_id j) (same_seq j) (k j (rw e) v.3) v)
    | inr e ↦ rw e (
      v.0,
      v.1,
      v.2,
      v.3,
      update_job-JobsOk jid js (j.job_id ∷ ids) (j.seq + 1) next (λ job found. k job (rw e found))
          v.4,
    )
  ]

  pub by_id-update_job_ne :
      (jid other : Text) (jobs : List Job)
      → text_eq other jid ≡ false
      → by_id jid (update_job other f jobs) ≡ by_id jid jobs
  unfolding by_id update_job
  by_id-update_job_ne jid other [] ne = refl
  by_id-update_job_ne jid other (j ∷ js) ne = elim (Bool-cases (text_eq j.job_id other)) [
    | inl e ↦
        let apart : text_eq j.job_id jid ≡ false =
          subst (λ t. text_eq t jid ≡ false) (sym (text_eq_sound j.job_id other e)) ne in
        let apart' : text_eq (f j).job_id jid ≡ false =
          subst (λ t. text_eq t jid ≡ false) (sym (same_id j)) apart in
        rw (e, apart, apart')
    | inr e ↦ rw (e, by_id-update_job_ne jid other js ne)
  ]

pub length-update_job :
    (f : Job → Job) (jid : Text) (jobs : List Job) → length (update_job jid f jobs) ≡ length jobs
unfolding update_job
length-update_job f jid [] = refl
length-update_job f jid (j ∷ js) = ground (arith, length-update_job f jid js)

-- A new job with the next sequence number, under an id that no job has.
pub append-JobsOk :
    (jobs : List Job) (job : Job) (ids : List Text) (low next : ℕ)
    → low ≤ next
    → job.seq ≡ next
    → JobOk job
    → text_in job.job_id ids ≡ false
    → by_id job.job_id jobs ≡ none
    → JobsOk ids low next jobs
    → JobsOk ids low (next + 1) (jobs ++ (job ∷ []))
unfolding by_id text_in
append-JobsOk [] job ids low next le s ok_job new_id absent v =
    (new_id, omega arith, omega arith, ok_job, tt)
append-JobsOk (j ∷ js) job ids low next le s ok_job new_id absent v =
    let apart : text_eq j.job_id job.job_id ≡ false = ground arith in
    let new_after : text_in job.job_id (j.job_id ∷ ids) ≡ false =
      ground (arith, text_eq_comm job.job_id j.job_id) in
    (
      v.0,
      v.1,
      omega (arith, v.2),
      v.3,
      append-JobsOk js job (j.job_id ∷ ids) (j.seq + 1) next (omega (arith, v.2)) s ok_job new_after
          (ground arith) v.4,
    )
