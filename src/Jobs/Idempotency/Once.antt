-- ===== src/Jobs/Idempotency/Once.antt =====
-- Requests of server/jobs_idempotency.py that are sent again.
use mathlib.Core.Path.{subst}
use openchess.Base.{
  refl, ◌≡◌, ◌∙◌, sym, inl, inr, none, some, Option, ok, err, Result, OnOk, OnOk-bind, OnOk-at,
  List, [], ◌∷◌, ◌++◌, Text, text_eq, text_eq_refl, text_eq_sound, true, false, Bool-cases,
  if◌then◌else◌, require, require-eq-ok, >>=-first, text_eq_iff,
}
use openchess.Python.Values.{Value}
use openchess.Python.Grammar.{fullmatch}
use openchess.Jobs.Queue.Engine
use openchess.Jobs.Queue.Engine.{op_name, encode_state}
use openchess.Jobs.Idempotency.{
  Failure, divergent_fingerprint, key_conflict, queue_rejected, Request, Receipt,
  request_fingerprint, encode_payload, fingerprint_grammar,
}
use openchess.Jobs.Idempotency.Bound.{
  bound_token-fingerprint, WellFormed, bound_token-WellFormed, bound_token-faithful,
  bound_token-cases, faithful,
}
use openchess.Jobs.Idempotency.Engine.{
  stored_for, Outcome, replayed, Store, bound_token, apply_new, apply_stored, apply_once,
  encode_request, recast,
}

stored_for-snoc :
    (key : Text) (rs : List Receipt) (r : Receipt)
    → stored_for key (rs ++ (r ∷ []))
      ≡ (if text_eq r.idempotency_key key then some r else stored_for key rs)
unfolding stored_for
stored_for-snoc key [] r = refl
stored_for-snoc key (q ∷ qs) r = elim (Bool-cases (text_eq r.idempotency_key key)) [
  | inl e ↦ rw (stored_for-snoc key qs r, e) refl
  | inr e ↦ rw (stored_for-snoc key qs r, e) refl
]

-- The store after an operation, which is as before if the operation was refused.
unfoldable pub store_after : Result Failure (Outcome × Receipt × Store) → Store → Store
store_after (ok (o, r, store')) store = store'
store_after (err e) store = store

module _ (hexdigest : Text → Text) where
  -- What an operation leaves in the ledger: its receipt under its key, and all that was there.
  record Recorded (token : Text) (req : Request) (store : Store) (r : Receipt) (store' : Store)
      : Type 0 where
    pub stored : stored_for req.idempotency_key store'.ledger ≡ some r
    pub bound : r.request_fingerprint ≡ token
    pub kept :
        (key : Text) (q : Receipt)
        → stored_for key store.ledger ≡ some q
        → stored_for key store'.ledger ≡ some q

  abbrev Records : Text → Request → Store → Outcome × Receipt × Store → Type 0
  Records token req store (o, r, store') = Recorded token req store r store'

  apply_new-Records :
      (token : Text) (req : Request) (store : Store)
      → stored_for req.idempotency_key store.ledger ≡ none
      → OnOk (Records token req store) (apply_new hexdigest token req store)
  unfolding apply_new
  apply_new-Records token req store fresh =
      OnOk-bind (Records token req store)
        (recast queue_rejected
          (Engine.apply hexdigest (encode_state store.state) (encode_request req.operation)))
        _
        λ work _. record {
          stored = rw (stored_for-snoc, text_eq_refl req.idempotency_key) refl;
          bound = refl;
          kept = λ key q found. elim (Bool-cases (text_eq req.idempotency_key key)) [
            | inl e ↦
                let same : req.idempotency_key ≡ key = text_eq_sound _ _ e in
                cc (subst (λ k. stored_for k store.ledger ≡ none) same fresh, found)
            | inr e ↦ rw (stored_for-snoc, e) found
          ];
        }

  apply_stored-Records :
      (token : Text) (req : Request) (store : Store) (o : Option Receipt)
      → stored_for req.idempotency_key store.ledger ≡ o
      → OnOk (Records token req store) (apply_stored hexdigest token req store o)
  unfolding apply_stored
  apply_stored-Records token req store (some stored) found =
      OnOk-bind (Records token req store)
        (require (text_eq stored.request_fingerprint token) key_conflict) _
        λ _ e. record {
          stored = found;
          bound = text_eq_sound _ _ (require-eq-ok _ key_conflict e);
          kept = λ key q known. known;
        }
  apply_stored-Records token req store none fresh = apply_new-Records token req store fresh

  -- The fingerprint that the request is bound to.
  abbrev pub token_of : Request → Text
  token_of req = request_fingerprint hexdigest req.operation

  -- What a fingerprinter gives for the request.
  abbrev pub given : (Text → Value → Option Value) → Request → Option Value
  given fingerprinter req = fingerprinter (op_name req.operation) (encode_payload req.operation)

  apply_once-Records :
      (fingerprinter : Text → Value → Option Value) (req : Request) (store : Store)
      → OnOk (Records (token_of req) req store) (apply_once hexdigest fingerprinter req store)
  unfolding apply_once
  apply_once-Records fingerprinter req store =
      OnOk-bind (Records (token_of req) req store)
        (bound_token (token_of req) (given fingerprinter req)) _
        λ token e.
          let same : token ≡ token_of req =
            OnOk-at (λ t. t ≡ token_of req) _ (bound_token-fingerprint _ _) e in
          subst
            (λ t. OnOk (Records t req store) (
              apply_stored hexdigest token req store (stored_for req.idempotency_key store.ledger)))
            same
            (apply_stored-Records token req store (stored_for req.idempotency_key store.ledger)
              refl)

  -- The store after further requests, some of which may be refused, each with what the fingerprinter
  -- does at its call.
  unfoldable pub after_all : List ((Text → Value → Option Value) × Request) → Store → Store
  after_all [] store = store
  after_all ((fingerprinter, req) ∷ reqs) store =
      after_all reqs (store_after (apply_once hexdigest fingerprinter req store) store)

  store_after-stored :
      (req : Request) (store : Store) (key : Text) (r : Receipt)
      (m : Result Failure (Outcome × Receipt × Store))
      → OnOk (Records (token_of req) req store) m
      → stored_for key store.ledger ≡ some r
      → stored_for key (store_after m store).ledger ≡ some r
  unfolding store_after
  store_after-stored req store key r (ok x) recorded h = recorded.kept key r h
  store_after-stored req store key r (err e) recorded h = h

  after_all-stored :
      (reqs : List ((Text → Value → Option Value) × Request)) (store : Store) (key : Text)
      (r : Receipt)
      → stored_for key store.ledger ≡ some r
      → stored_for key (after_all reqs store).ledger ≡ some r
  unfolding after_all
  after_all-stored [] store key r h = h
  after_all-stored ((fingerprinter, req) ∷ reqs) store key r h =
      let m = apply_once hexdigest fingerprinter req store in
      after_all-stored reqs (store_after m store) key r
        (store_after-stored req store key r m (apply_once-Records fingerprinter req store) h)

  -- A request that was answered stays bound to its receipt, whatever happens in between: sent again
  -- under its key and with its fingerprint, it is replayed if the fingerprinter gives this fingerprint,
  -- and refused if it does not.
  pub apply_once-again :
      (first later : Text → Value → Option Value) (req again : Request) (store store' : Store)
      (o : Outcome) (r : Receipt) (reqs : List ((Text → Value → Option Value) × Request))
      → apply_once hexdigest first req store ≡ ok (o, r, store')
      → again.idempotency_key ≡ req.idempotency_key
      → token_of again ≡ token_of req
      → apply_once hexdigest later again (after_all reqs store') ≡ (
          if faithful (token_of again) (given later again)
          then ok (replayed, r, after_all reqs store')
          else err divergent_fingerprint)
  unfolding apply_once apply_stored
  apply_once-again first later req again store store' o r reqs h same_key same_token =
      let recorded =
        OnOk-at (Records (token_of req) req store) _ (apply_once-Records first req store) h in
      let bound = >>=-first (bound_token (token_of req) (given first req)) _ h in
      let formed : fullmatch fingerprint_grammar (token_of again) ≡ true =
        rw same_token
          (OnOk-at (WellFormed (token_of req)) _ (bound_token-WellFormed _ _) bound.1) in
      let found : stored_for again.idempotency_key (after_all reqs store').ledger ≡ some r =
        rw same_key (after_all-stored reqs store' req.idempotency_key r recorded.stored) in
      let matches : text_eq r.request_fingerprint (token_of again) ≡ true =
        (text_eq_iff r.request_fingerprint (token_of again)).1 (recorded.bound ∙ sym same_token) in
      let token = bound_token-faithful (token_of again) (given later again) formed in
      elim (Bool-cases (faithful (token_of again) (given later again))) [
        | inl e ↦ rw (token, e, found, matches) refl
        | inr e ↦ rw (token, e) refl
      ]

  -- A key that was answered is bound to its request: another request under it, with another
  -- fingerprint, is refused at any later time, whatever the fingerprinter does at each call.
  pub apply_once-conflict :
      (first later : Text → Value → Option Value) (req other : Request) (store store' : Store)
      (o : Outcome) (r : Receipt) (reqs : List ((Text → Value → Option Value) × Request))
      → apply_once hexdigest first req store ≡ ok (o, r, store')
      → other.idempotency_key ≡ req.idempotency_key
      → text_eq
          (request_fingerprint hexdigest req.operation)
          (request_fingerprint hexdigest other.operation)
        ≡ false
      → (e : Failure) × (apply_once hexdigest later other (after_all reqs store') ≡ err e)
  unfolding apply_once apply_stored
  apply_once-conflict first later req other store store' o r reqs h same_key differ =
      let recorded =
        OnOk-at (Records (token_of req) req store) _ (apply_once-Records first req store) h in
      let found : stored_for other.idempotency_key (after_all reqs store').ledger ≡ some r =
        rw same_key (after_all-stored reqs store' req.idempotency_key r recorded.stored) in
      let apart : text_eq r.request_fingerprint (token_of other) ≡ false =
        rw recorded.bound differ in
      elim (bound_token-cases (token_of other) (bound_token (token_of other) (given later other))
        (bound_token-fingerprint (token_of other) (given later other))) [
          | inl e ↦ (key_conflict, rw (e, found, apart) refl)
          | inr (f, e) ↦ (f, rw e refl)
        ]
