-- ===== src/Jobs/Stored/Same.antt =====
-- The job check of server/jobs_restart.py against the one of server/jobs_queue.py: they differ in when
-- they look for a repeated id.
use openchess.Jobs.Queue.{max_priority, max_attempts}
use openchess.Python.Grammar.{fullmatch, job_id_grammar}
use openchess.Base.Maybe.{◌>>=◌, guard}
use openchess.Base.{
  refl, ℕ, List, Text, ◌≡◌, Option, none, some, Bool, true, false, not, text_in, codes,
}
use openchess.Python.Values.{Value, dict, get, text_matching, int_below, int_in}
use openchess.Jobs.Queue.Check.{check_job, keys_are, job_fields, read_status, read_lease}
use openchess.Jobs.Stored.{stored_job, payload_ok}

module _ {ℓ κ μ} {A : Type ℓ} {B : Type κ} {C : Type μ} (g : A → Option B) (k : B → Option C)
    (f : A → Option C) where
  -- What is done last can be done with each value read.
  pub bind-later : (m : Option A) → ((a : A) → f a ≡ (g a >>= k)) → (m >>= f) ≡ ((m >>= g) >>= k)
  bind-later none h = refl
  bind-later (some a) h = h a

  -- A test that stands before a read can be made after it.
  guard-later :
      (b : Bool) (m : Option A)
      → ((a : A) → (guard b >>= λ _. f a) ≡ (g a >>= k))
      → (guard b >>= λ _. m >>= f) ≡ ((m >>= g) >>= k)
  guard-later true none h = refl
  guard-later true (some a) h = h a
  guard-later false none h = refl
  guard-later false (some a) h = h a

-- The check of the queue is the other one with the look for a repeated id put after it.
pub check_job-stored_job :
    (ids : List Text) (low next : ℕ) (visited : List ℕ) (v : Value)
    → check_job ids low next visited v ≡ (
        stored_job low next visited v >>= λ r. guard (not (text_in r.0.job_id ids)) >>= λ _. some r)
unfolding check_job stored_job
check_job-stored_job ids low next visited (dict i d) = bind-later _ _ _ (keys_are d job_fields) λ _.
    bind-later _ _ _ (get (codes "job_id") d >>= text_matching (fullmatch job_id_grammar)) λ jid.
      let fresh = not (text_in jid ids) in
      guard-later _ _ _ fresh (get (codes "seq") d >>= int_below low next) λ seq.
        guard-later _ _ _ fresh (get (codes "priority") d >>= int_in 0 max_priority) λ priority.
          guard-later _ _ _ fresh (get (codes "status") d >>= read_status) λ status.
            guard-later _ _ _ fresh (get (codes "attempts") d >>= int_in 0 max_attempts) λ attempts.
              guard-later _ _ _ fresh (get (codes "lease_owner") d) λ owner.
                guard-later _ _ _ fresh (get (codes "lease_expires_at") d) λ expires.
                  guard-later _ _ _ fresh (read_lease status attempts owner expires) λ lease.
                    guard-later _ _ _ fresh (get (codes "payload") d) λ payload.
                      guard-later _ _ _ fresh (payload_ok payload visited) λ visited'. refl
check_job-stored_job ids low next visited _ = refl
