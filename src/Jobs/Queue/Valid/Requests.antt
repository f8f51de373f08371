-- ===== src/Jobs/Queue/Valid/Requests.antt =====
-- What `_check_request` of server/jobs_queue.py accepts is in range.
use openchess.Jobs.Payload.{payloads_ok}
use openchess.Jobs.Queue.{max_lease_ms}
use openchess.Python.Grammar.{dedupe_key_grammar}
use mathlib.Core.Path.{subst}
use openchess.Base.{
  true, false, Option-cases, inl, inr, codes, Text, Bool, ◌∷◌, ℕ, Option, text_eq, ◌≡◌, [], ◌≤◌,
  if◌then◌else◌, ok, true, leb, ◌+◌, leb→le,
}
use openchess.Base.Maybe.{◌>>=◌, guard, OnRead, OnRead-at, OnRead-bind, guard-eq-some}
use openchess.Python.Values.{
  Value, dict, Entries, get, int_in, text_matching, read-int_in, read-text_matching,
}
use openchess.Jobs.Payload.Walk.{payloads_ok-admissible}
use openchess.Jobs.Queue.Check.{
  keys_are, as_text, read_enqueue, read_claim, read_settle, read_op, read_request, check_request,
}
use openchess.Jobs.Queue.Valid.{
  RequestOk, max_now, Request, ack, fullmatch, nack, worker_grammar, max_priority, job_id_grammar,
}

read_enqueue-RequestOk : (d : Entries) → OnRead RequestOk (read_enqueue d)
unfolding read_enqueue
read_enqueue-RequestOk d =
    OnRead-bind RequestOk
      (keys_are d (codes "op" ∷ codes "dedupe_key" ∷ codes "priority" ∷ codes "payload" ∷ [])) _
      λ _ _.
        OnRead-bind RequestOk
          (get (codes "dedupe_key") d >>= text_matching (fullmatch dedupe_key_grammar)) _
          λ key _.
            OnRead-bind RequestOk (get (codes "priority") d >>= int_in 0 max_priority) _
              λ priority e_priority. OnRead-bind RequestOk (get (codes "payload") d) _ λ payload _.
                OnRead-bind RequestOk (payloads_ok (payload ∷ []) []) _ λ visited e_visited. (
                  (read-int_in 0 max_priority _ e_priority).1,
                  payloads_ok-admissible payload [] visited e_visited,
                )

read_claim-RequestOk : (d : Entries) → OnRead RequestOk (read_claim max_now d)
unfolding read_claim
read_claim-RequestOk d =
    OnRead-bind RequestOk
      (keys_are d (codes "op" ∷ codes "worker" ∷ codes "now" ∷ codes "lease_ms" ∷ [])) _
      λ _ _.
        OnRead-bind RequestOk (get (codes "worker") d >>= text_matching (fullmatch worker_grammar))
          _
          λ worker e_worker.
            OnRead-bind RequestOk (get (codes "now") d >>= int_in 0 max_now) _ λ now _.
              OnRead-bind RequestOk (get (codes "lease_ms") d >>= int_in 1 max_lease_ms) _
                λ lease_ms e_lease.
                  OnRead-bind RequestOk (guard (leb (now + lease_ms) max_now)) _ λ _ e_end. (
                    read-text_matching _ _ e_worker,
                    (read-int_in 1 max_lease_ms _ e_lease).0,
                    leb→le _ _ (guard-eq-some _ e_end),
                  )

read_settle-RequestOk :
    (make : Text → Text → ℕ → Request) (d : Entries)
    → ((jid worker : Text) (now : ℕ) → now ≤ max_now → RequestOk (make jid worker now))
    → OnRead RequestOk (read_settle make d)
unfolding read_settle
read_settle-RequestOk make d k =
    OnRead-bind RequestOk
      (keys_are d (codes "op" ∷ codes "job_id" ∷ codes "worker" ∷ codes "now" ∷ [])) _
      λ _ _.
        OnRead-bind RequestOk (get (codes "worker") d >>= text_matching (fullmatch worker_grammar))
          _
          λ worker _.
            OnRead-bind RequestOk (get (codes "now") d >>= int_in 0 max_now) _ λ now e_now.
              OnRead-bind RequestOk
                (get (codes "job_id") d >>= text_matching (fullmatch job_id_grammar)) _
                λ jid _. k jid worker now (read-int_in 0 max_now _ e_now).1

OnRead-if {ℓ κ} :
    {A : Type ℓ} (P : A → Type κ) (b : Bool) (x y : Option A)
    → OnRead P x
    → OnRead P y
    → OnRead P (if b then x else y)
OnRead-if P true x y p q = p
OnRead-if P false x y p q = q

read_op-RequestOk : (op : Text) (d : Entries) → OnRead RequestOk (read_op max_now op d)
unfolding read_op
read_op-RequestOk op d =
    OnRead-if RequestOk (text_eq op (codes "enqueue")) _ _ (read_enqueue-RequestOk d) (
      OnRead-if RequestOk (text_eq op (codes "claim")) _ _ (read_claim-RequestOk d) (
        OnRead-if RequestOk (text_eq op (codes "ack")) _ _
          (read_settle-RequestOk ack d (λ jid worker now h. h))
          (OnRead-if RequestOk (text_eq op (codes "nack")) _ _
            (read_settle-RequestOk nack d (λ jid worker now h. h)) tt)))

read_request-RequestOk : (v : Value) → OnRead RequestOk (read_request max_now v)
unfolding read_request
read_request-RequestOk (dict i d) =
    OnRead-bind RequestOk (get (codes "op") d >>= as_text) _ λ op _. read_op-RequestOk op d
read_request-RequestOk _ = tt

-- Whatever object `_check_request` accepts is a request in range.
pub check_request-RequestOk :
    (v : Value) (r : Request) → check_request max_now v ≡ ok r → RequestOk r
unfolding check_request
check_request-RequestOk v r h = elim (Option-cases (read_request max_now v)) [
  | inl e ↦ cc (rw e at h)
  | inr (r', e) ↦
      let same : r' ≡ r = cc (rw e at h) in
      subst RequestOk same (OnRead-at _ _ (read_request-RequestOk v) e)
]
