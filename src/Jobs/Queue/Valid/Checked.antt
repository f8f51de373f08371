-- ===== src/Jobs/Queue/Valid/Checked.antt =====
-- What `_check_state` of server/jobs_queue.py accepts satisfies the invariant.
use openchess.Base.Maybe.{◌>>=◌, guard, OnRead, OnRead-bind, OnRead-at}
use mathlib.Core.Path.{subst}
use openchess.Base.{
  refl, codes, not, leb, ◌∷◌, [], ℕ, List, Text, ◌≡◌, some, ok, Option, arith, text_in, false, ◌≤◌,
  ◌<◌, Option-cases, ◌∷◌, ◌+◌, [], length, inl, suc, inr, ap,
}
use openchess.Python.Values.{
  Value, null, dict, Items, nil, item, get, int_in, int_in_bounds, int_below, text_matching,
  text_matching-matches, read-int_below, read-text_matching, read-int_in,
}
use openchess.Jobs.Payload.{payloads_ok}
use openchess.Jobs.Payload.Walk.{payloads_ok-admissible}
use openchess.Jobs.Queue.{
  max_jobs, Status, ready, leased, done, dead, Job, State, max_now, max_priority, max_attempts,
}
use openchess.Jobs.Queue.Check.{
  keys_are, job_fields, as_items, read_status, check_job, check_jobs, check_state, read_lease,
  read_status, items_length, read_state,
}
use openchess.Jobs.Queue.Valid.{
  LeaseOk, JobOk, JobsOk, IsValid, fullmatch, worker_grammar, job_id_grammar,
}

read_lease-LeaseOk :
    (st : Status) (n : ℕ) (owner expires : Value) (o : Option Text) (e : Option ℕ)
    → read_lease st n owner expires ≡ some (o, e)
    → LeaseOk st n o e
unfolding read_lease
read_lease-LeaseOk leased n owner expires o e h =
    ground (
      arith,
      text_matching-matches (fullmatch worker_grammar) owner,
      int_in_bounds 1 max_now expires,
    )
read_lease-LeaseOk ready n null null o e h = ground arith
read_lease-LeaseOk done n null null o e h = ground arith
read_lease-LeaseOk dead n null null o e h = ground arith
read_lease-LeaseOk _ n _ _ o e h = cc

-- What one round of the loop has shown of the job that it read.
abbrev RoundOk : List Text → ℕ → ℕ → Job × List ℕ → Type 0
RoundOk ids low next r =
    (text_in r.0.job_id ids ≡ false) × (low ≤ r.0.seq) × (r.0.seq < next) × JobOk r.0

check_job-RoundOk :
    (ids : List Text) (low next : ℕ) (visited : List ℕ) (v : Value)
    → OnRead (RoundOk ids low next) (check_job ids low next visited v)
unfolding check_job
check_job-RoundOk ids low next visited (dict i d) =
    OnRead-bind (RoundOk ids low next) (keys_are d job_fields) _ λ _ _.
      OnRead-bind (RoundOk ids low next)
        (get (codes "job_id") d >>= text_matching (fullmatch job_id_grammar)) _
        λ jid e_id. OnRead-bind (RoundOk ids low next) (guard (not (text_in jid ids))) _ λ _ e_new.
          OnRead-bind (RoundOk ids low next) (get (codes "seq") d >>= int_below low next) _
            λ seq e_seq.
              OnRead-bind (RoundOk ids low next)
                (get (codes "priority") d >>= int_in 0 max_priority) _
                λ priority e_priority.
                  OnRead-bind (RoundOk ids low next) (get (codes "status") d >>= read_status) _
                    λ status e_status.
                      OnRead-bind (RoundOk ids low next)
                        (get (codes "attempts") d >>= int_in 0 max_attempts) _
                        λ attempts e_attempts.
                          OnRead-bind (RoundOk ids low next) (get (codes "lease_owner") d) _
                            λ owner e_owner.
                              OnRead-bind (RoundOk ids low next) (get (codes "lease_expires_at") d)
                                _
                                λ expires e_expires.
                                  OnRead-bind (RoundOk ids low next)
                                    (read_lease status attempts owner expires) _
                                    λ lease e_lease.
                                      OnRead-bind (RoundOk ids low next) (get (codes "payload") d) _
                                        λ payload e_payload.
                                          OnRead-bind (RoundOk ids low next)
                                            (payloads_ok (payload ∷ []) visited) _
                                            λ visited' e_visited. (
                                              ground arith,
                                              (read-int_below low next _ e_seq).0,
                                              (read-int_below low next _ e_seq).1,
                                              record {
                                                id_grammar = read-text_matching _ _ e_id;
                                                priority_bound =
                                                    (read-int_in 0 max_priority _ e_priority).1;
                                                attempts_bound =
                                                    (read-int_in 0 max_attempts _ e_attempts).1;
                                                lease_ok =
                                                    read_lease-LeaseOk status attempts owner expires
                                                      lease.0 lease.1 e_lease;
                                                payload_ok =
                                                    payloads_ok-admissible payload visited visited'
                                                      e_visited;
                                              },
                                            )
check_job-RoundOk ids low next visited _ = tt

check_jobs-JobsOk :
    (ids : List Text) (low next : ℕ) (visited : List ℕ) (vs : Items)
    → OnRead (JobsOk ids low next) (check_jobs ids low next visited vs)
unfolding check_jobs
check_jobs-JobsOk ids low next visited nil = tt
check_jobs-JobsOk ids low next visited (item v vs) =
    OnRead-bind (JobsOk ids low next) _ _ λ r e_job.
      OnRead-bind (JobsOk ids low next) (check_jobs (r.0.job_id ∷ ids) (r.0.seq + 1) next r.1 vs) _
        λ js e_jobs.
          let job =
            OnRead-at (RoundOk ids low next) _ (check_job-RoundOk ids low next visited v) e_job in
          let rest =
            OnRead-at _ _ (check_jobs-JobsOk (r.0.job_id ∷ ids) (r.0.seq + 1) next r.1 vs) e_jobs in
          (job.0, job.1, job.2, job.3, rest)

-- An accepted list has as many jobs as it has items.
length-check_jobs :
    (ids : List Text) (low next : ℕ) (visited : List ℕ) (vs : Items)
    → OnRead (λ js. length js ≡ items_length vs) (check_jobs ids low next visited vs)
unfolding check_jobs items_length
length-check_jobs ids low next visited nil = refl
length-check_jobs ids low next visited (item v vs) =
    OnRead-bind (λ js. length js ≡ suc (items_length vs)) (check_job ids low next visited v) _
      λ r e_job.
        OnRead-bind (λ js. length js ≡ suc (items_length vs))
          (check_jobs (r.0.job_id ∷ ids) (r.0.seq + 1) next r.1 vs) _
          λ js e_jobs.
            ap suc (
              OnRead-at _ _ (length-check_jobs (r.0.job_id ∷ ids) (r.0.seq + 1) next r.1 vs) e_jobs)

read_state-IsValid : (v : Value) → OnRead IsValid (read_state v)
unfolding read_state
read_state-IsValid (dict i d) =
    OnRead-bind IsValid (keys_are d (codes "jobs" ∷ codes "next_seq" ∷ [])) _ λ _ _.
      OnRead-bind IsValid (get (codes "jobs") d >>= as_items) _ λ vs _.
        OnRead-bind IsValid (get (codes "next_seq") d >>= int_in 0 max_now) _ λ next e_next.
          OnRead-bind IsValid (guard (leb (items_length vs) max_jobs)) _ λ _ e_few.
            OnRead-bind IsValid (check_jobs [] 0 next [] vs) _ λ js e_jobs.
              let same = OnRead-at _ _ (length-check_jobs [] 0 next [] vs) e_jobs in
              record {
                clock_bound = (read-int_in 0 max_now _ e_next).1;
                few = ground (arith, same);
                jobs_ok = OnRead-at _ _ (check_jobs-JobsOk [] 0 next [] vs) e_jobs;
              }
read_state-IsValid _ = tt

-- Whatever object `_check_state` accepts satisfies the invariant.
pub check_state-IsValid : (v : Value) (s : State) → check_state v ≡ ok s → IsValid s
unfolding check_state
check_state-IsValid v s h = elim (Option-cases (read_state v)) [
  | inl e ↦ cc (rw e at h)
  | inr (s', e) ↦
      let same : s' ≡ s = cc (rw e at h) in
      subst IsValid same (OnRead-at _ _ (read_state-IsValid v) e)
]
