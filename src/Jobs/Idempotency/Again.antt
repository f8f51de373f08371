-- ===== src/Jobs/Idempotency/Again.antt =====
-- Calls of `apply` of server/jobs_idempotency.py that are repeated.
use openchess.Base.{
  refl, ◌≡◌, false, some, ok, err, OnOk, OnOk-bind, OnOk-at, OnOk-eq, OnOk-weaken, List, Text, not,
  ◌||◌, Option, or_else, require, if◌then◌else◌, Bool, ◌∙◌,
}
use openchess.Python.Values.{Value}
use openchess.Jobs.Queue.Check.{check_state}
use openchess.Jobs.Queue.Engine.{state_id_for}
use openchess.Jobs.Idempotency.{
  malformed_idempotency_request, corrupt_queue, corrupt_ledger, divergent_fingerprint, Request,
  Receipt,
}
use openchess.Jobs.Idempotency.Check.{read_idempotent, read_ledger, containers, overlap}
use openchess.Jobs.Idempotency.Engine.{Outcome, replayed, Store, recast, apply_once, apply}
use openchess.Jobs.Idempotency.Bound.{faithful}
use openchess.Jobs.Idempotency.Once.{apply_once-again, after_all, given, token_of}

-- The request and the state, or the request and the ledger, have a container in common.
abbrev pub entangled : Value → Value → Value → Bool
entangled state ledger request =
    overlap (containers request) (containers state)
    || overlap (containers request) (containers ledger)

module _ (hexdigest : Text → Text) where
  -- The call came to apply the request on some state and ledger.
  Comes : (Text → Value → Option Value) → Request → Outcome × Receipt × Store → Type 0
  Comes fingerprinter req x =
      (store : Store) × (apply_once hexdigest fingerprinter req store ≡ ok x)

  apply-Comes :
      (fingerprinter : Text → Value → Option Value) (state ledger request : Value) (req : Request)
      → read_idempotent request ≡ some req
      → OnOk (Comes fingerprinter req) (apply hexdigest fingerprinter state ledger request)
  unfolding apply Comes
  apply-Comes fingerprinter state ledger request req reads =
      let P = Comes fingerprinter req in
      rw reads (
        OnOk-bind P (recast (λ _. corrupt_queue) (check_state state)) _ λ s _.
          OnOk-bind P
            (or_else corrupt_ledger (read_ledger hexdigest (state_id_for hexdigest s) ledger)) _
            λ receipts _.
              OnOk-bind P
                (require (not (entangled state ledger request)) malformed_idempotency_request) _
                λ _ _.
                  let store : Store = record { state = s; ledger = receipts } in
                  let m = apply_once hexdigest fingerprinter req store in
                  OnOk-weaken (λ x. m ≡ ok x) P m (OnOk-eq m) λ x e. (store, e))

  apply-read :
      (fingerprinter : Text → Value → Option Value) (state ledger request : Value) (req : Request)
      (store : Store)
      → read_idempotent request ≡ some req
      → check_state state ≡ ok store.state
      → read_ledger hexdigest (state_id_for hexdigest store.state) ledger ≡ some store.ledger
      → entangled state ledger request ≡ false
      → apply hexdigest fingerprinter state ledger request
        ≡ apply_once hexdigest fingerprinter req store
  unfolding apply
  apply-read fingerprinter state ledger request req store reads s l apart =
      rw (reads, s, l, apart) refl

  -- A call of apply that was answered can be repeated at any later time, whatever other requests were
  -- answered or refused in between, and whatever the fingerprinter did at each call: with any objects
  -- that read as a request with the same key and fingerprint and as the state and the ledger of that
  -- time, the request sharing no container with them, the call is replayed with the same receipt and
  -- changes nothing if the fingerprinter gives the fingerprint at this call too; else it is refused as
  -- divergent_fingerprint.
  pub apply-again :
      (first later : Text → Value → Option Value)
      (state ledger request state' ledger' request' : Value) (req again : Request) (store : Store)
      (o : Outcome) (r : Receipt) (reqs : List ((Text → Value → Option Value) × Request))
      → read_idempotent request ≡ some req
      → apply hexdigest first state ledger request ≡ ok (o, r, store)
      → read_idempotent request' ≡ some again
      → again.idempotency_key ≡ req.idempotency_key
      → token_of hexdigest again ≡ token_of hexdigest req
      → check_state state' ≡ ok (after_all hexdigest reqs store).state
      → read_ledger hexdigest
          (state_id_for hexdigest (after_all hexdigest reqs store).state)
          ledger'
        ≡ some (after_all hexdigest reqs store).ledger
      → entangled state' ledger' request' ≡ false
      → apply hexdigest later state' ledger' request' ≡ (
          if faithful (token_of hexdigest again) (given hexdigest later again)
          then ok (replayed, r, after_all hexdigest reqs store)
          else err divergent_fingerprint)
  unfolding Comes
  apply-again first later state ledger request state' ledger' request' req again store o r reqs
        reads h reads' same_key same_token s l apart =
      let came = OnOk-at (Comes first req) _ (apply-Comes first state ledger request req reads) h in
      apply-read later state' ledger' request' again (after_all hexdigest reqs store) reads' s l
        apart
      ∙ apply_once-again hexdigest first later req again came.0 store o r reqs came.1 same_key
          same_token
