-- ===== src/Jobs/Queue/Unclaimed.antt =====
-- Jobs that the loop of `_claim` of server/jobs_queue.py does not visit.
use openchess.Jobs.Queue.Valid.Claims.{
  found_same, Fresh-sorted, All-sort_jobs, claimables-claimable,
}
use openchess.Jobs.Queue.Valid.Updates.{by_id-update_job_ne}
use openchess.Jobs.Queue.Order.{Present, All-map, Fresh-Present}
use mathlib.Core.Path.{subst, sym}
use openchess.Base.{
  true, false, refl, [], ◌∷◌, inl, inr, some, leb, Text, ℕ, ◌≡◌, List, text_eq, All, Bool-cases,
  text_eq_sound, ◌∙◌,
}
use openchess.Jobs.Queue.{Job, State, max_attempts}
use openchess.Jobs.Queue.Engine.{
  by_id, bury, lease, claim_loop, claim_job, claimable, sort_jobs, claimables, update_job,
}
use openchess.Jobs.Queue.Valid.{IsValid}

by_id-claim_loop :
    (worker : Text) (now lease_ms : ℕ) (jid : Text) (js jobs : List Job)
    → All (λ k. text_eq k.job_id jid ≡ false) js
    → by_id jid (claim_loop worker now lease_ms js jobs).0 ≡ by_id jid jobs
unfolding claim_loop
by_id-claim_loop worker now lease_ms jid [] jobs h = refl
by_id-claim_loop worker now lease_ms jid (k ∷ ks) jobs h =
    elim (Bool-cases (leb max_attempts k.attempts)) [
      | inl e ↦ rw e (
          by_id-claim_loop worker now lease_ms jid ks (update_job k.job_id bury jobs) h.1
          ∙ by_id-update_job_ne bury (λ i. refl) (λ i. refl) jid k.job_id jobs h.0)
      | inr e ↦ rw e (
          by_id-update_job_ne (lease worker now lease_ms) (λ i. refl) (λ i. refl) jid k.job_id jobs
            h.0)
    ]

-- A job that is not claimable is none of those that `_claim` visits.
other_job :
    (s : State) (now : ℕ) (jid : Text) (j : Job)
    → by_id jid s.jobs ≡ some j
    → claimable now j ≡ false
    → (k : Job) → Present s now k
    → text_eq k.job_id jid ≡ false
other_job s now jid j found not_claimable k present = elim (Bool-cases (text_eq k.job_id jid)) [
  | inl e ↦
      let again : by_id k.job_id s.jobs ≡ some j =
        subst (λ t. by_id t s.jobs ≡ some j) (sym (text_eq_sound k.job_id jid e)) found in
      let same : k ≡ j = found_same present.0 again in
      cc (subst (λ i. claimable now i ≡ true) same present.1, not_claimable)
  | inr e ↦ e
]

pub claim_job-refused :
    (worker : Text) (now lease_ms : ℕ) (s : State) (jid : Text) (j : Job)
    → IsValid s
    → by_id jid s.jobs ≡ some j
    → claimable now j ≡ false
    → by_id jid (claim_job worker now lease_ms s).0.jobs ≡ some j
unfolding claim_job
claim_job-refused worker now lease_ms s jid j v found not_claimable =
    let js = sort_jobs (claimables now s.jobs) in
    by_id-claim_loop worker now lease_ms jid js s.jobs (
      All-map (Present s now) (λ k. text_eq k.job_id jid ≡ false) js
        (other_job s now jid j found not_claimable)
        (Fresh-Present s now js (Fresh-sorted now s.jobs s.next_seq v.jobs_ok)
          (All-sort_jobs (λ i. claimable now i ≡ true) _ (claimables-claimable now s.jobs))))
    ∙ found
