-- ===== src/Jobs/Bury/Apart.antt =====
-- `bury` of server/jobs_dead_letter.py and `cancel` of server/jobs_cancel.py on the same job.
use openchess.Base.{refl, ◌≡◌, ◌⊎◌, inl, inr, some, Option-cases, ok, err, Text}
use openchess.Python.Values.{Value}
use openchess.Jobs.Queue.{Job, Status, ready, leased, done, dead}
use openchess.Jobs.Stored.{single_job}
use openchess.Jobs.Cancel
use openchess.Jobs.Cancel.{cancellable, job_not_cancellable}
use openchess.Jobs.Cancel.Decide.{cancel, make_record}
use openchess.Jobs.Bury
use openchess.Jobs.Bury.{is_dead, job_not_dead}
use openchess.Jobs.Bury.Decide.{bury, make_entry}

module _ (hexdigest : Text → Text) where
  -- What becomes of a job under each status, in a request to cancel it and in one to bury it.
  abbrev pub Parted : Value → Cancel.Request → Value → Bury.Request → Job → Status → Type 0
  Parted request c request' b j done =
      (cancel hexdigest request ≡ err job_not_cancellable)
      × (bury hexdigest request' ≡ err job_not_dead)
  Parted request c request' b j dead =
      (cancel hexdigest request ≡ err job_not_cancellable)
      × (bury hexdigest request' ≡ ok (make_entry hexdigest b j))
  Parted request c request' b j _ =
      (cancel hexdigest request ≡ ok (make_record hexdigest c j))
      × (bury hexdigest request' ≡ err job_not_dead)

  parted :
      (request : Value) (c : Cancel.Request) (request' : Value) (b : Bury.Request) (j : Job)
      (st : Status)
      → Cancel.request_ok request ≡ some c
      → Bury.request_ok request' ≡ some b
      → single_job c.job ≡ some j
      → single_job b.job ≡ some j
      → j.status ≡ st
      → Parted request c request' b j st
  unfolding cancel bury cancellable is_dead
  parted request c request' b j ready e_c e_b j_c j_b s =
      (rw (e_c, j_c, s) refl, rw (e_b, j_b, s) refl)
  parted request c request' b j leased e_c e_b j_c j_b s =
      (rw (e_c, j_c, s) refl, rw (e_b, j_b, s) refl)
  parted request c request' b j done e_c e_b j_c j_b s =
      (rw (e_c, j_c, s) refl, rw (e_b, j_b, s) refl)
  parted request c request' b j dead e_c e_b j_c j_b s =
      (rw (e_c, j_c, s) refl, rw (e_b, j_b, s) refl)

  -- Of two well-formed requests for the same job object, one to cancel it and one to bury it, either
  -- both are refused because the object is no valid job, or the object is a valid job, and then a ready
  -- or leased one is cancelled and not buried, a dead one buried and not cancelled, and a done one
  -- neither.
  pub cancel-bury :
      (request : Value) (c : Cancel.Request) (request' : Value) (b : Bury.Request)
      → Cancel.request_ok request ≡ some c
      → Bury.request_ok request' ≡ some b
      → b.job ≡ c.job
      → ((cancel hexdigest request ≡ err Cancel.corrupt_job)
          × (bury hexdigest request' ≡ err Bury.corrupt_job))
        ⊎ ((j : Job) × (single_job c.job ≡ some j) × Parted request c request' b j j.status)
  unfolding cancel bury
  cancel-bury request c request' b e_c e_b same = elim (Option-cases (single_job c.job)) [
    | inl e ↦ inl (rw (e_c, e) refl, rw (e_b, same, e) refl)
    | inr (j, e) ↦ inr (j, e, parted request c request' b j j.status e_c e_b e (rw same e) refl)
  ]
