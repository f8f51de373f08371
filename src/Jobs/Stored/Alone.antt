-- ===== src/Jobs/Stored/Alone.antt =====
-- A job object of a queue state on its own, as server/jobs_cancel.py and server/jobs_dead_letter.py are
-- given it.
use openchess.Jobs.Stored.Same.{check_job-stored_job}
use openchess.Base.Maybe.{◌>>=◌, OnRead, OnRead-bind, guard, OnRead-at}
use mathlib.Core.Path.{subst}
use openchess.Base.{
  refl, ◌∷◌, [], ℕ, List, ◌≡◌, ◌≤◌, Option, none, some, codes, arith, Bool, Text, Bool-cases, inl,
  ◌+◌, ok, inr, not, leb, Option-cases, text_in, sym, ◌∙◌,
}
use openchess.Python.Values.{
  Value, dict, get, int_in, int_below, text_matching, integer, pos, negsuc, Items, item, Entries,
  list, nil, read-int_in,
}
use openchess.Python.Grammar.{fullmatch, job_id_grammar}
use openchess.Jobs.Payload.{payloads_ok}
use openchess.Jobs.Payload.Shape.{count}
use openchess.Jobs.Payload.Walk.{payloads_ok_iff, payloads_ok-distinct}
use openchess.Jobs.Queue.{Job, max_attempts, max_priority, max_now, State, max_jobs}
use openchess.Jobs.Queue.Check.{
  keys_are, job_fields, read_status, read_lease, check_jobs, read_state, check_state, check_job,
  as_items, items_length,
}
use openchess.Jobs.Stored.{payload_ok, stored_job, single_job}

abbrev pub Distinct : List ℕ → Type 0
Distinct visited = (a : ℕ) → count a visited ≤ 1

payloads_ok-alone :
    (payload : Value) (visited visited' : List ℕ)
    → Distinct visited
    → payloads_ok (payload ∷ []) visited ≡ some visited'
    → (alone : List ℕ) × (payloads_ok (payload ∷ []) [] ≡ some alone)
payloads_ok-alone payload visited visited' distinct h =
    let shape = (payloads_ok_iff payload visited distinct).0 (visited', h) in
    (payloads_ok_iff payload [] (λ a. omega arith)).1 (shape.0, λ a. omega (arith, shape.1 a))

int_below-widen :
    (lo hi lo' hi' : ℕ) (v : Value) (n : ℕ)
    → lo' ≤ lo
    → hi ≤ hi'
    → int_below lo hi v ≡ some n
    → int_below lo' hi' v ≡ some n
unfolding int_below
int_below-widen lo hi lo' hi' (integer (pos m)) n l k h = ground arith
int_below-widen lo hi lo' hi' (integer (negsuc m)) n l k h = cc
int_below-widen lo hi lo' hi' _ n l k h = cc

read-int_below-widen :
    (lo hi lo' hi' : ℕ) (o : Option Value) (n : ℕ)
    → lo' ≤ lo
    → hi ≤ hi'
    → (o >>= int_below lo hi) ≡ some n
    → (o >>= int_below lo' hi') ≡ some n
read-int_below-widen lo hi lo' hi' none n l k h = cc
read-int_below-widen lo hi lo' hi' (some v) n l k h = int_below-widen lo hi lo' hi' v n l k h

-- Alone, the object gives the same job; the containers seen stay without repetitions.
abbrev Alone : Value → Job × List ℕ → Type 0
Alone v r = (single_job v ≡ some r.0) × Distinct r.1

stored_job-Alone :
    (low next : ℕ) (visited : List ℕ) (v : Value)
    → next ≤ max_now
    → Distinct visited
    → OnRead (Alone v) (stored_job low next visited v)
unfolding stored_job single_job
stored_job-Alone low next visited (dict i d) bound distinct =
    let P = Alone (dict i d) in
    OnRead-bind P (keys_are d job_fields) _ λ _ e_keys.
      OnRead-bind P (get (codes "job_id") d >>= text_matching (fullmatch job_id_grammar)) _
        λ jid e_id. OnRead-bind P (get (codes "seq") d >>= int_below low next) _ λ seq e_seq.
          OnRead-bind P (get (codes "priority") d >>= int_in 0 max_priority) _
            λ priority e_priority.
              OnRead-bind P (get (codes "status") d >>= read_status) _ λ status e_status.
                OnRead-bind P (get (codes "attempts") d >>= int_in 0 max_attempts) _
                  λ attempts e_attempts.
                    OnRead-bind P (get (codes "lease_owner") d) _ λ owner e_owner.
                      OnRead-bind P (get (codes "lease_expires_at") d) _ λ expires e_expires.
                        OnRead-bind P (read_lease status attempts owner expires) _ λ lease e_lease.
                          OnRead-bind P (get (codes "payload") d) _ λ payload e_payload.
                            OnRead-bind P (payload_ok payload visited) _ λ visited' e_visited.
                              let wide =
                                read-int_below-widen low next 0 max_now _ seq (omega arith) bound
                                  e_seq in
                              let alone =
                                payloads_ok-alone payload visited visited' distinct e_visited in
                              (
                                rw
                                    (
                                      e_keys, e_id, wide, e_priority, e_status, e_attempts, e_owner,
                                      e_expires, e_lease, e_payload, alone.1,
                                    )
                                    refl,
                                payloads_ok-distinct payload visited visited' distinct e_visited,
                              )
stored_job-Alone low next visited _ bound distinct = tt

-- Each object is the job beside it, taken alone.
abbrev pub Matches : Items → List Job → Type 0
Matches nil [] = Unit {0}
Matches (item v vs) (j ∷ js) = (single_job v ≡ some j) × Matches vs js
Matches _ _ = ⊥

guard-read :
    (m : Option (Job × List ℕ)) (f : Job × List ℕ → Bool) (r : Job × List ℕ)
    → (m >>= λ q. guard (f q) >>= λ _. some q) ≡ some r
    → m ≡ some r
guard-read none f r h = cc
guard-read (some q) f r h = elim (Bool-cases (f q)) [ inl e ↦ rw e at h | inr e ↦ cc (rw e at h) ]

check_jobs-Matches :
    (ids : List Text) (low next : ℕ) (visited : List ℕ) (vs : Items)
    → next ≤ max_now
    → Distinct visited
    → OnRead (Matches vs) (check_jobs ids low next visited vs)
unfolding check_jobs
check_jobs-Matches ids low next visited nil bound distinct = tt
check_jobs-Matches ids low next visited (item v vs) bound distinct =
    OnRead-bind (Matches (item v vs)) (check_job ids low next visited v) _ λ r e_job.
      OnRead-bind (Matches (item v vs)) (check_jobs (r.0.job_id ∷ ids) (r.0.seq + 1) next r.1 vs) _
        λ js e_jobs.
          let stored : stored_job low next visited v ≡ some r =
            guard-read _ (λ q. not (text_in q.0.job_id ids)) r
              (sym (check_job-stored_job ids low next visited v) ∙ e_job) in
          let job = OnRead-at _ _ (stored_job-Alone low next visited v bound distinct) stored in
          (
            job.0,
            OnRead-at _ _
                (check_jobs-Matches (r.0.job_id ∷ ids) (r.0.seq + 1) next r.1 vs bound job.1)
                e_jobs,
          )

read_state-Matches :
    (i k : ℕ) (d : Entries) (vs : Items)
    → get (codes "jobs") d ≡ some (list k vs)
    → OnRead (λ s. Matches vs s.jobs) (read_state (dict i d))
unfolding read_state
read_state-Matches i k d vs h =
    let P = λ (s : State). Matches vs s.jobs in
    OnRead-bind P (keys_are d (codes "jobs" ∷ codes "next_seq" ∷ [])) _ λ _ _.
      OnRead-bind P (get (codes "jobs") d >>= as_items) _ λ ws e_ws.
        OnRead-bind P (get (codes "next_seq") d >>= int_in 0 max_now) _ λ next e_next.
          OnRead-bind P (guard (leb (items_length ws) max_jobs)) _ λ _ _.
            OnRead-bind P (check_jobs [] 0 next [] ws) _ λ js e_jobs.
              let same : ws ≡ vs = cc (rw h at e_ws) in
              subst (λ us. Matches us js) same
                (OnRead-at _ _
                  (check_jobs-Matches [] 0 next [] ws (read-int_in 0 max_now _ e_next).1
                    (λ a. omega arith))
                  e_jobs)

-- Each object in the list of jobs of a state that the queue accepts passes, taken alone, the job check
-- of `cancel` and `bury`, which reads from it the job that the queue has in its place.
pub check_state-Matches :
    (i k : ℕ) (d : Entries) (vs : Items) (s : State)
    → get (codes "jobs") d ≡ some (list k vs)
    → check_state (dict i d) ≡ ok s
    → Matches vs s.jobs
unfolding check_state
check_state-Matches i k d vs s jobs h = elim (Option-cases (read_state (dict i d))) [
  | inl e ↦ cc (rw e at h)
  | inr (t, e) ↦
      let same : t ≡ s = cc (rw e at h) in
      subst (λ u. Matches vs u.jobs) same (OnRead-at _ _ (read_state-Matches i k d vs jobs) e)
]
