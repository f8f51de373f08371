-- ===== src/Jobs/Restart/Accepted.antt =====
-- Which states `restart` of server/jobs_restart.py accepts, and what it makes of them.
use openchess.Base.Maybe.{◌>>=◌, ◌>>◌, guard}
use openchess.Base.{
  refl, ◌≡◌, ◌∷◌, [], Option, none, some, Bool, true, false, not, Text, List, ℕ, ◌+◌, codes, leb,
  text_in,
}
use openchess.Python.Values.{Value, dict, Items, item, nil, get, int_in}
use openchess.Jobs.Queue.{max_now, max_jobs}
use openchess.Jobs.Queue.Check.{check_jobs, read_state, keys_are, as_items, items_length}
use openchess.Jobs.Stored.{stored_job}
use openchess.Jobs.Stored.Same.{bind-later, check_job-stored_job}
use openchess.Jobs.Restart.{jobs_ok, state_ok}

module _ {ℓ κ} {A : Type ℓ} {B : Type κ} where
  guard-some :
      (b : Bool) (a : A) (m : Option B) (k : A → Option B)
      → m ≡ k a
      → (guard b >> m) ≡ ((guard b >>= λ _. some a) >>= k)
  guard-some true a m k h = h
  guard-some false a m k h = refl

  bind-cong : (m : Option A) (f g : A → Option B) → ((a : A) → f a ≡ g a) → (m >>= f) ≡ (m >>= g)
  bind-cong none f g h = refl
  bind-cong (some a) f g h = h a

jobs_ok-check_jobs :
    (ids : List Text) (low next : ℕ) (visited : List ℕ) (vs : Items)
    → jobs_ok ids low next visited vs ≡ check_jobs ids low next visited vs
unfolding jobs_ok check_jobs
jobs_ok-check_jobs ids low next visited nil = refl
jobs_ok-check_jobs ids low next visited (item v vs) =
    rw (check_job-stored_job ids low next visited v) (
      bind-later _ _ _ (stored_job low next visited v) λ r.
        guard-some (not (text_in r.0.job_id ids)) r _ _
          (rw (jobs_ok-check_jobs (r.0.job_id ∷ ids) (r.0.seq + 1) next r.1 vs) refl))

-- `_state_ok` of a restart accepts exactly the objects that `_check_state` of the queue accepts, and
-- reads the same state from them.
pub state_ok-read_state : (v : Value) → state_ok v ≡ read_state v
unfolding state_ok read_state
state_ok-read_state (dict i d) =
    bind-cong (keys_are d (codes "jobs" ∷ codes "next_seq" ∷ [])) _ _ λ _.
      bind-cong (get (codes "jobs") d >>= as_items) _ _ λ vs.
        bind-cong (get (codes "next_seq") d >>= int_in 0 max_now) _ _ λ next.
          bind-cong (guard (leb (items_length vs) max_jobs)) _ _
            λ _. rw (jobs_ok-check_jobs [] 0 next [] vs) refl
state_ok-read_state _ = refl
