-- ===== src/Jobs/Queue/Stable.antt =====
-- What the transitions of server/jobs_queue.py leave alone.
use openchess.Python.Dumps.{dumps}
use openchess.Jobs.Queue.Valid.Claims.{found_same}
use openchess.Jobs.Queue.Valid.Updates.{job_id-by_id, by_id-update_job_ne}
use openchess.Jobs.Queue.Order.{Due, claimable-Due}
use mathlib.Core.Path.{subst, sym}
use openchess.Base.{
  true, false, refl, [], ◌∷◌, inl, inr, none, some, ok, leb, OnOk, OnOk-bind, Text, ℕ, ◌≡◌, List,
  ◌⊎◌, arith, text_eq, Option-cases, Bool-cases, ◌++◌, Option, OnOk-at, text_eq_sound, length, ◌||◌,
  ◌==◌, ◌&&◌, ◌∙◌, text_eq_refl,
}
use openchess.Jobs.Queue.{
  Job, State, Status, ready, done, dead, Request, enqueue, claim, ack, nack, Value, max_now,
  max_jobs,
}
use openchess.Jobs.Queue.Engine.{
  by_id, release, claim_job, settle, settle_found, enqueue_job, enqueue_found, transition, held,
  claimable, new_job, job_id_for,
}
use openchess.Jobs.Queue.Valid.{IsValid}
use openchess.Jobs.Queue.Unclaimed.{claim_job-refused}

-- A claim, by whatever worker, leaves each job of a valid state as it was that is neither ready nor
-- leased with an expiry that is not after the present: in particular a job whose lease another
-- worker still holds.
pub claim_job-unclaimable :
    (worker : Text) (now lease_ms : ℕ) (s : State) (jid : Text) (j : Job)
    → IsValid s
    → by_id jid s.jobs ≡ some j
    → ¬ (Due now j)
    → by_id jid (claim_job worker now lease_ms s).0.jobs ≡ some j
claim_job-unclaimable worker now lease_ms s jid j v found not_due =
    elim (Bool-cases (claimable now j)) [
      | inl e ↦ absurd (not_due (claimable-Due now j e))
      | inr e ↦ claim_job-refused worker now lease_ms s jid j v found e
    ]

by_id-append :
    (jid : Text) (jobs more : List Job) (j : Job)
    → by_id jid jobs ≡ some j
    → by_id jid (jobs ++ more) ≡ some j
unfolding by_id
by_id-append jid [] more j h = cc
by_id-append jid (k ∷ ks) more j h = elim (Bool-cases (text_eq k.job_id jid)) [
  | inl e ↦ rw e (rw e at h)
  | inr e ↦ rw e (by_id-append jid ks more j (rw e at h))
]

by_id-append_new :
    (jid : Text) (jobs : List Job) (j : Job)
    → by_id jid jobs ≡ none
    → text_eq j.job_id jid ≡ true
    → by_id jid (jobs ++ (j ∷ [])) ≡ some j
unfolding by_id
by_id-append_new jid [] j absent same = rw same
by_id-append_new jid (k ∷ ks) j absent same = elim (Bool-cases (text_eq k.job_id jid)) [
  | inl e ↦ cc (rw e at absent)
  | inr e ↦ rw e (by_id-append_new jid ks j (rw e at absent) same)
]

-- The job has come to its end.
abbrev pub Ended : Job → Type 0
Ended j = (j.status ≡ done) ⊎ (j.status ≡ dead)

Ended-unclaimable : (now : ℕ) (j : Job) → Ended j → claimable now j ≡ false
unfolding claimable
Ended-unclaimable now j h = ground arith

Ended-not_held : (j : Job) (worker : Text) (now : ℕ) → Ended j → held j worker now ≡ false
unfolding held
Ended-not_held j worker now h = ground arith

settle_found-Ended :
    (status : Status) (worker : Text) (now : ℕ) (s : State) (jid : Text) (j k : Job)
    → Ended j
    → by_id jid s.jobs ≡ some j
    → by_id k.job_id s.jobs ≡ some k
    → OnOk (λ r. by_id jid r.0.jobs ≡ some j) (settle_found status worker now s (some k))
unfolding settle_found
settle_found-Ended status worker now s jid j k ended found found_k =
    elim (Bool-cases (held k worker now)) [
      | inl h ↦ rw h (
          by_id-update_job_ne (release status) (λ i. refl) (λ i. refl) jid k.job_id s.jobs (apart h)
          ∙ found)
      | inr h ↦ rw h tt
    ]
  where
    apart : held k worker now ≡ true → text_eq k.job_id jid ≡ false
    apart h = elim (Bool-cases (text_eq k.job_id jid)) [
      | inl e ↦
          let again : by_id k.job_id s.jobs ≡ some j =
            subst (λ t. by_id t s.jobs ≡ some j) (sym (text_eq_sound k.job_id jid e)) found in
          let same : j ≡ k = found_same again found_k in
          cc (subst (λ i. held i worker now ≡ false) same (Ended-not_held j worker now ended), h)
      | inr e ↦ e
    ]

settle-Ended :
    (status : Status) (other worker : Text) (now : ℕ) (s : State) (jid : Text) (j : Job)
    → Ended j
    → by_id jid s.jobs ≡ some j
    → OnOk (λ r. by_id jid r.0.jobs ≡ some j) (settle status other worker now s)
unfolding settle settle_found
settle-Ended status other worker now s jid j ended found =
    elim (Option-cases (by_id other s.jobs)) [
      | inl e ↦ rw (e, OnOk) tt
      | inr (k, e) ↦ rw e (
          settle_found-Ended status worker now s jid j k ended found
            (subst (λ t. by_id t s.jobs ≡ some k) (sym (job_id-by_id other s.jobs k e)) e))
    ]

module _ (hexdigest : Text → Text) where
  enqueue_found-by_id :
      (key : Text) (priority : ℕ) (payload : Value) (s : State) (o : Option Job) (jid : Text)
      (j : Job)
      → by_id jid s.jobs ≡ some j
      → OnOk
          (λ r. by_id jid r.0.jobs ≡ some j)
          (enqueue_found hexdigest max_now key priority payload s o)
  unfolding enqueue_found
  enqueue_found-by_id key priority payload s none jid j found =
      elim (Bool-cases (leb max_jobs (length s.jobs) || leb max_now s.next_seq)) [
        | inl full ↦ rw full tt
        | inr room ↦ rw room (
            by_id-append jid s.jobs (new_job hexdigest key priority payload s.next_seq ∷ []) j
              found)
      ]
  enqueue_found-by_id key priority payload s (some k) jid j found =
      elim (Bool-cases
        ((k.priority == priority) && text_eq (dumps false k.payload) (dumps false payload))) [
          | inl same ↦ rw same found
          | inr differs ↦ rw differs tt
        ]

  -- A job of a valid state that is done or dead stays in the queue as it is under every transition
  -- that returns, whatever the request.
  pub transition-Ended :
      (s : State) (req : Request) (jid : Text) (j : Job)
      → IsValid s
      → by_id jid s.jobs ≡ some j
      → Ended j
      → OnOk (λ r. by_id jid r.0.jobs ≡ some j) (transition hexdigest s req)
  unfolding transition enqueue_job
  transition-Ended s (enqueue key priority payload) jid j v found ended =
      OnOk-bind (λ r. by_id jid r.0.jobs ≡ some j)
        (enqueue_job hexdigest max_now key priority payload s) _
        λ w e.
          OnOk-at (λ r. by_id jid r.0.jobs ≡ some j) _
            (enqueue_found-by_id key priority payload s _ jid j found) e
  transition-Ended s (claim worker now lease_ms) jid j v found ended =
      claim_job-refused worker now lease_ms s jid j v found (Ended-unclaimable now j ended)
  transition-Ended s (ack other worker now) jid j v found ended =
      OnOk-bind (λ r. by_id jid r.0.jobs ≡ some j) (settle done other worker now s) _
        λ w e.
          OnOk-at (λ r. by_id jid r.0.jobs ≡ some j) _
            (settle-Ended done other worker now s jid j ended found) e
  transition-Ended s (nack other worker now) jid j v found ended =
      OnOk-bind (λ r. by_id jid r.0.jobs ≡ some j) (settle ready other worker now s) _
        λ w e.
          OnOk-at (λ r. by_id jid r.0.jobs ≡ some j) _
            (settle-Ended ready other worker now s jid j ended found) e

  enqueue_found-same :
      (seq_limit : ℕ) (key : Text) (priority : ℕ) (payload : Value) (s : State) (k : Job)
      → ((k.priority == priority) && text_eq (dumps false k.payload) (dumps false payload)) ≡ true
      → enqueue_found hexdigest seq_limit key priority payload s (some k) ≡ ok (s, k)
  unfolding enqueue_found
  enqueue_found-same seq_limit key priority payload s k same = rw same

  enqueue_job-repeats :
      (seq_limit : ℕ) (key : Text) (priority : ℕ) (payload : Value) (s : State)
      → OnOk
          (λ r. enqueue_job hexdigest seq_limit key priority payload r.0 ≡ ok r)
          (enqueue_job hexdigest seq_limit key priority payload s)
  unfolding enqueue_job enqueue_found
  enqueue_job-repeats seq_limit key priority payload s =
      elim (Option-cases (by_id (job_id_for hexdigest key) s.jobs)) [
        | inr (k, e) ↦
            elim (Bool-cases
              ((k.priority == priority) && text_eq (dumps false k.payload) (dumps false payload))) [
                | inl same ↦ rw (e, same) (rw (e, same) refl)
                | inr differs ↦ rw (e, differs) tt
              ]
        | inl e ↦ elim (Bool-cases (leb max_jobs (length s.jobs) || leb seq_limit s.next_seq)) [
          | inl full ↦ rw (e, full) tt
          | inr room ↦
              let added = new_job hexdigest key priority payload s.next_seq in
              rw (e, room)
                (rw
                  (by_id-append_new (job_id_for hexdigest key) s.jobs added e
                    (text_eq_refl (job_id_for hexdigest key)))
                  (enqueue_found-same seq_limit key priority payload _ added
                    (ground (arith, text_eq_refl (dumps false payload)))))
        ]
      ]

  -- An enqueue that succeeded can be repeated: the same key, priority and payload give the same job
  -- again, and change nothing.
  pub enqueue_job-again :
      (seq_limit : ℕ) (key : Text) (priority : ℕ) (payload : Value) (s s' : State) (j : Job)
      → enqueue_job hexdigest seq_limit key priority payload s ≡ ok (s', j)
      → enqueue_job hexdigest seq_limit key priority payload s' ≡ ok (s', j)
  enqueue_job-again seq_limit key priority payload s s' j h =
      OnOk-at (λ (r : State × Job). enqueue_job hexdigest seq_limit key priority payload r.0 ≡ ok r)
        _ (enqueue_job-repeats seq_limit key priority payload s) h
