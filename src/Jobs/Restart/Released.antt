-- ===== src/Jobs/Restart/Released.antt =====
-- What `restart` of server/jobs_restart.py leaves behind, in terms of the queue it works on.
use openchess.Jobs.Queue.Valid.{JobsOk, IsValid}
use openchess.Jobs.Queue.Valid.Updates.{job_id-by_id}
use mathlib.Core.Path.{subst, sym}
use openchess.Base.{
  some, Option, refl, ◌≡◌, ◌∙◌, ◌∷◌, [], Text, List, ℕ, Bool-cases, inl, inr, ok, Result, ◌>>=◌,
  All, arith, false, true, text_eq, Option-cases, err, text_in, text_eq_sound, ◌+◌, text_eq_refl,
  ◌≤◌, Option,
}
use openchess.Jobs.Queue.{leased, Job, State, ready, Failure, Status}
use openchess.Jobs.Queue.Engine.{by_id, held, settle, settle_found, update_job, release, held_by}
use openchess.Jobs.Restart.{release_all, restarted}

-- A `nack` by the worker of each of the jobs, in this order.
abbrev pub nack_all : Text → ℕ → List Text → State → Result Failure State
nack_all worker now [] s = ok s
nack_all worker now (jid ∷ ids) s =
    settle ready jid worker now s >>= λ r. nack_all worker now ids r.0

abbrev in_front : Job → State → State
in_front j s = record s { jobs = j ∷ s.jobs }

abbrev in_front_of : Job → State × Job → State × Job
in_front_of j (s, k) = (in_front j s, k)

-- `_settle` of another job does not look at the first one.
settle-in_front :
    (j : Job) (jid worker : Text) (now : ℕ) (s : State)
    → text_eq j.job_id jid ≡ false
    → settle ready jid worker now (in_front j s)
      ≡ (settle ready jid worker now s >>= λ r. ok (in_front_of j r))
unfolding settle by_id settle_found
settle-in_front j jid worker now s ne = elim (Option-cases (by_id jid s.jobs)) [
  | inl e ↦ rw (ne, e) refl
  | inr (k, e) ↦
      let other : text_eq j.job_id k.job_id ≡ false =
        subst (λ t. text_eq j.job_id t ≡ false) (sym (job_id-by_id jid s.jobs k e)) ne in
      elim (Bool-cases (held k worker now)) [
        | inl h ↦ rw (ne, e, h, other) refl
        | inr h ↦ rw (ne, e, h) refl
      ]
]

nack_all-in_front :
    (j : Job) (worker : Text) (now : ℕ) (ids : List Text) (s : State)
    → All (λ i. text_eq j.job_id i ≡ false) ids
    → nack_all worker now ids (in_front j s)
      ≡ (nack_all worker now ids s >>= λ s'. ok (in_front j s'))
nack_all-in_front j worker now [] s h = refl
nack_all-in_front j worker now (i ∷ is) s h =
    rw (settle-in_front j i worker now s h.0)
      (carry (λ t. nack_all-in_front j worker now is t h.1) (settle ready i worker now s))
  where
    carry :
        ((t : State)
          → nack_all worker now is (in_front j t)
            ≡ (nack_all worker now is t >>= λ s'. ok (in_front j s')))
        → (m : Result Failure (State × Job))
        → ((m >>= λ r. ok (in_front_of j r)) >>= λ r. nack_all worker now is r.0)
          ≡ ((m >>= λ r. nack_all worker now is r.0) >>= λ s'. ok (in_front j s'))
    carry f (ok r) = f r.0
    carry f (err e) = refl

-- An id that was seen before the jobs is not among those released.
released-new :
    (worker : Text) (now : ℕ) (t : Text) (jobs : List Job) (ids : List Text) (low next : ℕ)
    → JobsOk ids low next jobs
    → text_in t ids ≡ true
    → All (λ i. text_eq t i ≡ false) (release_all worker now jobs).1
unfolding release_all text_in
released-new worker now t [] ids low next v h = tt
released-new worker now t (j ∷ js) ids low next v h =
    let rest : All (λ i. text_eq t i ≡ false) (release_all worker now js).1 =
      released-new worker now t js (j.job_id ∷ ids) (j.seq + 1) next v.4 (ground arith) in
    elim (Bool-cases (held j worker now)) [ inl e ↦ rw e (apart, rest) | inr e ↦ rw e rest ]
  where
    apart : text_eq t j.job_id ≡ false
    apart = elim (Bool-cases (text_eq t j.job_id)) [
      | inl e ↦ cc (subst (λ i. text_in i ids ≡ true) (text_eq_sound t j.job_id e) h, v.0)
      | inr e ↦ e
    ]

settle-first :
    (j : Job) (worker : Text) (now : ℕ) (s : State)
    → held j worker now ≡ true
    → settle ready j.job_id worker now (in_front j s)
      ≡ ok (in_front (release ready j) s, release ready j)
unfolding settle settle_found by_id update_job
settle-first j worker now s h = rw (text_eq_refl j.job_id, h, text_eq_refl j.job_id) refl

nack_all-released :
    (worker : Text) (now : ℕ) (jobs : List Job) (ids : List Text) (low next : ℕ) (n : ℕ)
    → JobsOk ids low next jobs
    → nack_all worker now (release_all worker now jobs).1 (record { jobs = jobs; next_seq = n })
      ≡ ok (record { jobs = (release_all worker now jobs).0; next_seq = n })
unfolding release_all
nack_all-released worker now [] ids low next n v = refl
nack_all-released worker now (j ∷ js) ids low next n v =
    let rest = nack_all-released worker now js (j.job_id ∷ ids) (j.seq + 1) next n v.4 in
    let new : All (λ i. text_eq j.job_id i ≡ false) (release_all worker now js).1 =
      released-new worker now j.job_id js (j.job_id ∷ ids) (j.seq + 1) next v.4
        (unfold text_in in rw (text_eq_refl j.job_id) refl) in
    elim (Bool-cases (held j worker now)) [
      | inl e ↦ rw e (
          rw (settle-first j worker now (record { jobs = js; next_seq = n }) e) (
            nack_all-in_front (release ready j) worker now (release_all worker now js).1
              (record { jobs = js; next_seq = n }) new
            ∙ rw rest refl))
      | inr e ↦ rw e (
          nack_all-in_front j worker now (release_all worker now js).1
            (record { jobs = js; next_seq = n }) new
          ∙ rw rest refl)
    ]

-- On a valid state, a restart is the same as one `nack` by the worker after another, of exactly the
-- jobs that the receipt lists as released: each of them succeeds.
pub restarted-nack_all :
    (worker : Text) (now : ℕ) (s : State)
    → IsValid s
    → nack_all worker now (release_all worker now s.jobs).1 s ≡ ok (restarted worker now s)
restarted-nack_all worker now s v =
    nack_all-released worker now s.jobs [] 0 s.next_seq s.next_seq v.jobs_ok

release-not_held : (j : Job) (worker : Text) (now : ℕ) → held (release ready j) worker now ≡ false
unfolding held
release-not_held j worker now = refl

held_by-earlier :
    (st : Status) (o : Option Text) (e : Option ℕ) (worker : Text) (now later : ℕ)
    → now ≤ later
    → held_by st o e worker now ≡ false
    → held_by st o e worker later ≡ false
held_by-earlier leased (some o) (some e) worker now later le h = ground arith
held_by-earlier _ _ _ worker now later le h = refl

held-earlier :
    (j : Job) (worker : Text) (now later : ℕ)
    → now ≤ later
    → held j worker now ≡ false
    → held j worker later ≡ false
unfolding held
held-earlier j worker now later le h = held_by-earlier _ _ _ worker now later le h

-- A second restart of the worker, at the same time or later, finds nothing to release: it leaves the
-- jobs as they are and reports none.
pub release_all-again :
    (worker : Text) (now later : ℕ) (jobs : List Job)
    → now ≤ later
    → release_all worker later (release_all worker now jobs).0
      ≡ ((release_all worker now jobs).0, [])
unfolding release_all
release_all-again worker now later [] le = refl
release_all-again worker now later (j ∷ js) le = elim (Bool-cases (held j worker now)) [
  | inl e ↦ rw (e, release-not_held j worker later, release_all-again worker now later js le) refl
  | inr e ↦
      rw (e, held-earlier j worker now later le e, release_all-again worker now later js le) refl
]
