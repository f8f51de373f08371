-- ===== src/Jobs/Restart/Receipts.antt =====
-- What a call of `restart` of server/jobs_restart.py commits and reports.
use openchess.Base.{
  refl, ◌≡◌, ◌∷◌, [], ok, Text, List, ℕ, or_else, OnOk, OnOk-bind, OnOk-at, inr, ◌∙◌, sym,
  or_else-eq-ok,
}
use openchess.Python.Values.{Value}
use openchess.Jobs.Queue.{State, ready}
use openchess.Jobs.Queue.Check.{check_state}
use openchess.Jobs.Queue.Engine.{settle}
use openchess.Jobs.Queue.Valid.{IsValid}
use openchess.Jobs.Queue.Valid.Checked.{check_state-IsValid}
use openchess.Jobs.Queue.Valid.Kept.{settle-IsValid}
use openchess.Jobs.Restart
use openchess.Jobs.Restart.{Receipt, state_ok, request_ok, malformed_restart_request, corrupt_queue}
use openchess.Jobs.Restart.Accepted.{state_ok-read_state}
use openchess.Jobs.Restart.Released.{nack_all, restarted-nack_all}
use openchess.Jobs.Restart.Run.{restart}

nack_all-IsValid :
    (worker : Text) (now : ℕ) (ids : List Text) (s : State)
    → IsValid s
    → OnOk IsValid (nack_all worker now ids s)
nack_all-IsValid worker now [] s v = v
nack_all-IsValid worker now (i ∷ is) s v = OnOk-bind IsValid (settle ready i worker now s) _ λ r e.
    nack_all-IsValid worker now is r.0
      (OnOk-at (λ r. IsValid r.0) _ (settle-IsValid ready i worker now s (inr refl) v) e)

accepted :
    (v : Value) (s : State)
    → or_else Restart.corrupt_queue (state_ok v) ≡ ok s
    → check_state v ≡ ok s
unfolding check_state
accepted v s h = rw (sym (state_ok-read_state v) ∙ or_else-eq-ok _ _ h) refl

-- What the receipt says of the committed state.
abbrev Accounts : Value → State × Receipt → Type 0
Accounts state (s', rec) =
    (s : State) × (check_state state ≡ ok s)
    × (nack_all rec.worker rec.restarted_at rec.released s ≡ ok s')
    × IsValid s'

-- A restart that returns was given a state that the queue accepts too, and commits what a `nack` by
-- the restarted worker of each job that the receipt lists as released makes of it, all of which
-- succeed at the time of the receipt; the committed state satisfies the invariant of the queue.
pub restart-Accounts :
    (hexdigest : Text → Text) (state request : Value) (s' : State) (rec : Receipt)
    → restart hexdigest state request ≡ ok (s', rec)
    → (s : State) × (check_state state ≡ ok s)
      × (nack_all rec.worker rec.restarted_at rec.released s ≡ ok s')
      × IsValid s'
unfolding restart
restart-Accounts hexdigest state request s' rec h =
    OnOk-at (Accounts state) (restart hexdigest state request)
      (OnOk-bind (Accounts state) (or_else malformed_restart_request (request_ok request)) _
        λ req _. OnOk-bind (Accounts state) (or_else corrupt_queue (state_ok state)) _ λ s e.
          let read = accepted state s e in
          let valid = check_state-IsValid state s read in
          let nacks = restarted-nack_all req.worker req.now s valid in
          (s, read, nacks, OnOk-at IsValid _ (nack_all-IsValid req.worker req.now _ s valid) nacks))
      h
