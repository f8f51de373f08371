-- ===== src/Jobs/Queue/Valid/Kept.antt =====
-- Every transition of `QueueEngine` (server/jobs_queue.py) keeps the invariant.
use openchess.Jobs.Queue.Valid.Checked.{check_state-IsValid}
use openchess.Jobs.Queue.Valid.Requests.{check_request-RequestOk}
use openchess.Jobs.Queue.Check.{check_request, check_state}
use openchess.Jobs.Queue.Valid.Updates.{
  length-update_job, update_job-JobsOk, append-JobsOk, job_id-by_id,
}
use openchess.Jobs.Queue.Valid.Claims.{
  length-claim_loop, claim_loop-JobsOk, Fresh-sorted, found_same,
}
use mathlib.Core.Path.{subst, sym}
use openchess.Base.{
  refl, none, some, true, false, [], ◌∷◌, inl, inr, ok, leb, Text, ℕ, ◌≡◌, ◌⊎◌, arith, none, Bool,
  OnOk, Option-cases, OnOk-bind, if◌then◌else◌, Bool-cases, codes, OnOk-at, err, ◌++◌, length, ◌||◌,
  length-append, text_in,
}
use openchess.Python.Grammar.{Grammar, is_hex, fullmatch}
use openchess.Jobs.Queue.{
  dead, State, Job, Status, ready, leased, done, Request, enqueue, claim, ack, nack, Value, max_now,
  Failure, max_jobs, dedupe_conflict,
}
use openchess.Jobs.Queue.Engine.{
  by_id, settle, held, release, enqueue_job, claim_job, transition, apply, sort_jobs, claimables,
  new_job, Receipt, job_id_for, settle_found, enqueue_found,
}
use openchess.Jobs.Queue.Valid.{IsValid, JobOk, RequestOk, LeaseOk}

-- 64 lower-case hexadecimal digits
abbrev pub digest_grammar : Grammar
digest_grammar = record { prefix = []; class = is_hex; fewest = 64; most = 64 }

-- `claim_job` keeps the invariant.
claim_job-IsValid :
    (worker : Text) (now lease_ms : ℕ) (s : State)
    → RequestOk (claim worker now lease_ms)
    → IsValid s
    → IsValid (claim_job worker now lease_ms s).0
unfolding claim_job
claim_job-IsValid worker now lease_ms s r v =
    let js = sort_jobs (claimables now s.jobs) in
    record {
      clock_bound = v.clock_bound;
      few = omega (arith, v.few, length-claim_loop worker now lease_ms r.0 r.1 r.2 js s.jobs);
      jobs_ok =
          claim_loop-JobsOk worker now lease_ms r.0 r.1 r.2 js s.jobs s.next_seq
            (Fresh-sorted now s.jobs s.next_seq v.jobs_ok) v.jobs_ok;
    }

release-LeaseOk :
    (status : Status) (j : Job) (worker : Text) (now : ℕ)
    → (status ≡ done) ⊎ (status ≡ ready)
    → held j worker now ≡ true
    → LeaseOk j.status j.attempts j.lease_owner j.lease_expires_at
    → LeaseOk status j.attempts none none
unfolding held
release-LeaseOk ready j worker now st h v = tt
release-LeaseOk done j worker now st h v = ground arith
release-LeaseOk leased j worker now st h v = ground arith
release-LeaseOk dead j worker now st h v = ground arith

-- A job whose lease is held goes back to `ready` or on to `done`.
release-JobOk :
    (status : Status) (j : Job) (worker : Text) (now : ℕ)
    → (status ≡ done) ⊎ (status ≡ ready)
    → held j worker now ≡ true
    → JobOk j
    → JobOk (release status j)
release-JobOk status j worker now st h v = record {
  id_grammar = v.id_grammar;
  priority_bound = v.priority_bound;
  attempts_bound = v.attempts_bound;
  lease_ok = release-LeaseOk status j worker now st h v.lease_ok;
  payload_ok = v.payload_ok;
}

if-IsValid :
    (b : Bool) (s : State) (j : Job) (e : Failure)
    → IsValid s
    → OnOk {E = Failure} {A = State × Job} (λ r. IsValid r.0) (if b then ok (s, j) else err e)
if-IsValid true s j e v = v
if-IsValid false s j e v = tt

settle_found-IsValid :
    (status : Status) (worker : Text) (now : ℕ) (s : State) (j : Job)
    → (status ≡ done) ⊎ (status ≡ ready)
    → IsValid s
    → by_id j.job_id s.jobs ≡ some j
    → OnOk (λ r. IsValid r.0) (settle_found status worker now s (some j))
unfolding settle_found
settle_found-IsValid status worker now s j st v found = elim (Bool-cases (held j worker now)) [
  | inl h ↦ rw h (record {
    clock_bound = v.clock_bound;
    few = omega (arith, v.few, length-update_job (release status) j.job_id s.jobs);
    jobs_ok =
        update_job-JobsOk (release status) (λ k. refl) (λ k. refl) j.job_id s.jobs [] 0 s.next_seq
          (λ k found_k ok_k.
            release-JobOk status k worker now st
              (subst (λ i. held i worker now ≡ true) (found_same found found_k) h) ok_k)
          v.jobs_ok;
  })
  | inr h ↦ rw h tt
]

pub settle-IsValid :
    (status : Status) (jid worker : Text) (now : ℕ) (s : State)
    → (status ≡ done) ⊎ (status ≡ ready)
    → IsValid s
    → OnOk (λ r. IsValid r.0) (settle status jid worker now s)
unfolding settle settle_found
settle-IsValid status jid worker now s st v = elim (Option-cases (by_id jid s.jobs)) [
  | inl e ↦ rw (e, OnOk) tt
  | inr (j, e) ↦ rw e (
      settle_found-IsValid status worker now s j st v
        (subst (λ t. by_id t s.jobs ≡ some j) (sym (job_id-by_id jid s.jobs j e)) e))
]

module _ (hexdigest : Text → Text)
    (digest_hex : (t : Text) → fullmatch digest_grammar (hexdigest t) ≡ true) where
  new_job-JobOk :
      (key : Text) (priority : ℕ) (payload : Value) (seq : ℕ)
      → RequestOk (enqueue key priority payload)
      → JobOk (new_job hexdigest key priority payload seq)
  unfolding new_job job_id_for fullmatch
  new_job-JobOk key priority payload seq r = record {
    id_grammar = digest_hex (codes "job1|" ++ key);
    priority_bound = r.0;
    attempts_bound = omega arith;
    lease_ok = tt;
    payload_ok = r.1;
  }

  enqueue_found-IsValid :
      (key : Text) (priority : ℕ) (payload : Value) (s : State)
      → RequestOk (enqueue key priority payload)
      → IsValid s
      → by_id (job_id_for hexdigest key) s.jobs ≡ none
      → OnOk (λ r. IsValid r.0) (enqueue_found hexdigest max_now key priority payload s none)
  unfolding enqueue_found text_in
  enqueue_found-IsValid key priority payload s r v absent =
      let added = new_job hexdigest key priority payload s.next_seq in
      elim (Bool-cases (leb max_jobs (length s.jobs) || leb max_now s.next_seq)) [
        | inl full ↦ rw full tt
        | inr room ↦ rw room (record {
          clock_bound = ground arith;
          few = ground (arith, length-append s.jobs (added ∷ []));
          jobs_ok =
              append-JobsOk s.jobs added [] 0 s.next_seq (omega arith) refl
                (new_job-JobOk key priority payload s.next_seq r) refl absent v.jobs_ok;
        })
      ]

  enqueue_job-IsValid :
      (key : Text) (priority : ℕ) (payload : Value) (s : State)
      → RequestOk (enqueue key priority payload)
      → IsValid s
      → OnOk (λ r. IsValid r.0) (enqueue_job hexdigest max_now key priority payload s)
  unfolding enqueue_job
  enqueue_job-IsValid key priority payload s r v =
      elim (Option-cases (by_id (job_id_for hexdigest key) s.jobs)) [
        | inr (j, e) ↦ rw e (unfold enqueue_found in if-IsValid _ s j dedupe_conflict v)
        | inl e ↦ rw e (enqueue_found-IsValid key priority payload s r v e)
      ]

  -- Every transition that returns leaves a state that satisfies the invariant, for a state that does
  -- and a request in range.
  pub transition-IsValid :
      (s : State) (req : Request)
      → RequestOk req
      → IsValid s
      → OnOk (λ r. IsValid r.0) (transition hexdigest s req)
  unfolding transition
  transition-IsValid s (enqueue key priority payload) r v =
      OnOk-bind (λ r. IsValid r.0) _ _
        λ w e. OnOk-at (λ r. IsValid r.0) _ (enqueue_job-IsValid key priority payload s r v) e
  transition-IsValid s (claim worker now lease_ms) r v = claim_job-IsValid worker now lease_ms s r v
  transition-IsValid s (ack jid worker now) r v =
      OnOk-bind (λ r. IsValid r.0) _ _
        λ w e. OnOk-at (λ r. IsValid r.0) _ (settle-IsValid done jid worker now s (inl refl) v) e
  transition-IsValid s (nack jid worker now) r v =
      OnOk-bind (λ r. IsValid r.0) _ _
        λ w e. OnOk-at (λ r. IsValid r.0) _ (settle-IsValid ready jid worker now s (inr refl) v) e

  -- `apply`, called with any two objects whatever as the state and the request, either raises a typed
  -- failure or commits a state that satisfies every invariant that `_check_state` checks; SHA-256 is
  -- assumed to give 64 lower-case hexadecimal digits.
  pub apply-IsValid :
      (state request : Value) (s' : State) (rec : Receipt)
      → apply hexdigest state request ≡ ok (s', rec)
      → IsValid s'
  unfolding apply
  apply-IsValid state request s' rec h =
      let kept : OnOk (λ r. IsValid r.0) (apply hexdigest state request) =
        OnOk-bind (λ r. IsValid r.0) (check_request max_now request) _
          λ req e_req.
            OnOk-bind (λ r. IsValid r.0) (check_state state) _
              λ s e_s.
                OnOk-bind (λ r. IsValid r.0) (transition hexdigest s req) _
                  λ w e.
                    OnOk-at (λ r. IsValid r.0) _
                      (transition-IsValid s req (check_request-RequestOk request req e_req)
                        (check_state-IsValid state s e_s))
                      e in
      OnOk-at (λ (r : State × Receipt). IsValid r.0) _ kept h
