-- ===== src/Jobs/Idempotency/Next.antt =====
-- The ledger that a call of server/jobs_idempotency.py leaves, as the next call reads it.
use mathlib.Core.Path.{subst}
use openchess.Base.{
  refl, ◌≡◌, sym, none, some, Option, ok, OnOk, OnOk-bind, OnOk-at, List, [], Text, text_eq,
  text_eq_refl, true, arith, ℕ, length, require,
}
use openchess.Base.Maybe.{OnRead-at}
use openchess.Python.Values.{Value, list}
use openchess.Python.Grammar.{fullmatch}
use openchess.Jobs.Queue.{State}
use openchess.Jobs.Queue.Engine
use openchess.Jobs.Queue.Engine.{encode_state, state_id_for, op_name}
use openchess.Jobs.Queue.Valid.Kept.{digest_grammar}
use openchess.Jobs.Idempotency.{
  queue_rejected, key_conflict, Receipt, Request, key_ok, fingerprint_grammar, state_id_grammar,
  receipt_grammar, derive_receipt_id, request_fingerprint, encode_payload,
}
use openchess.Jobs.Idempotency.Check.{read_ledger}
use openchess.Jobs.Idempotency.Engine.{
  Outcome, Store, stored_for, recast, encode_request, apply_new, apply_stored, apply_once,
  bound_token, new_receipt,
}
use openchess.Jobs.Idempotency.Ledger.{Genuine, encode_receipts}
use openchess.Jobs.Idempotency.Chain.{
  Chained, Chained-snoc, read_receipts-Chained, read_receipts-encode_receipts,
}
use openchess.Jobs.Idempotency.Bound.{bound_token-fingerprint}

module _ (hexdigest : Text → Text)
    (digest_hex : (t : Text) → fullmatch digest_grammar (hexdigest t) ≡ true) where
  -- The ledger is a chain of receipts up to the state.
  Kept : Store → Type 0
  Kept s = Chained hexdigest 0 [] none (state_id_for hexdigest s.state) s.ledger

  request_fingerprint-matches :
      (q : openchess.Jobs.Queue.Request)
      → fullmatch fingerprint_grammar (request_fingerprint hexdigest q) ≡ true
  unfolding request_fingerprint fullmatch
  request_fingerprint-matches q = digest_hex _

  state_id_for-matches : (s : State) → fullmatch state_id_grammar (state_id_for hexdigest s) ≡ true
  unfolding state_id_for fullmatch
  state_id_for-matches s = digest_hex _

  derive_receipt_id-matches :
      (key token prior after : Text) (n : ℕ)
      → fullmatch receipt_grammar (derive_receipt_id hexdigest key token prior after n) ≡ true
  unfolding derive_receipt_id fullmatch
  derive_receipt_id-matches key token prior after n = digest_hex _

  new_receipt-Genuine :
      (key token : Text) (s s' : State) (ledger : List Receipt)
      → key_ok key ≡ true
      → fullmatch fingerprint_grammar token ≡ true
      → Genuine hexdigest (new_receipt hexdigest key token s s' ledger)
  unfolding new_receipt
  new_receipt-Genuine key token s s' ledger k t = record {
    key_matches = k;
    token_matches = t;
    prior_matches = state_id_for-matches s;
    after_matches = state_id_for-matches s';
    own_matches =
        derive_receipt_id-matches key token (state_id_for hexdigest s) (state_id_for hexdigest s')
          (length ledger);
    derived = text_eq_refl _;
  }

  apply_new-Kept :
      (token : Text) (req : Request) (store : Store)
      → key_ok req.idempotency_key ≡ true
      → fullmatch fingerprint_grammar token ≡ true
      → Kept store
      → stored_for req.idempotency_key store.ledger ≡ none
      → OnOk (λ x. Kept x.2) (apply_new hexdigest token req store)
  unfolding apply_new Kept new_receipt openchess.Base.text_in
  apply_new-Kept token req store k t c fresh =
      let P = λ (x : Outcome × Receipt × Store). Kept x.2 in
      OnOk-bind P
        (recast queue_rejected
          (Engine.apply hexdigest (encode_state store.state) (encode_request req.operation)))
        _
        λ work _.
          Chained-snoc hexdigest 0 [] none (state_id_for hexdigest store.state) store.ledger
            (new_receipt hexdigest req.idempotency_key token store.state work.0 store.ledger) c
            (new_receipt-Genuine req.idempotency_key token store.state work.0 store.ledger k t)
            (omega arith) refl fresh refl

  apply_stored-Kept :
      (token : Text) (req : Request) (store : Store) (o : Option Receipt)
      → key_ok req.idempotency_key ≡ true
      → fullmatch fingerprint_grammar token ≡ true
      → Kept store
      → stored_for req.idempotency_key store.ledger ≡ o
      → OnOk (λ x. Kept x.2) (apply_stored hexdigest token req store o)
  unfolding apply_stored
  apply_stored-Kept token req store (some stored) k t c found =
      OnOk-bind (λ (x : Outcome × Receipt × Store). Kept x.2)
        (require (text_eq stored.request_fingerprint token) key_conflict) _ λ _ _. c
  apply_stored-Kept token req store none k t c fresh = apply_new-Kept token req store k t c fresh

  module _ (fingerprinter : Text → Value → Option Value) where
    apply_once-Kept :
        (req : Request) (store : Store)
        → key_ok req.idempotency_key ≡ true
        → Kept store
        → OnOk (λ x. Kept x.2) (apply_once hexdigest fingerprinter req store)
    unfolding apply_once
    apply_once-Kept req store k c =
        let q = req.operation in
        let expected = request_fingerprint hexdigest q in
        OnOk-bind (λ (x : Outcome × Receipt × Store). Kept x.2)
          (bound_token expected (fingerprinter (op_name q) (encode_payload q))) _
          λ token e.
            let same : token ≡ expected =
              OnOk-at (λ t. t ≡ expected) _
                (bound_token-fingerprint expected (fingerprinter (op_name q) (encode_payload q)))
                e in
            apply_stored-Kept token req store (stored_for req.idempotency_key store.ledger) k
              (subst (λ t. fullmatch fingerprint_grammar t ≡ true) (sym same)
                (request_fingerprint-matches q))
              c refl

    -- The ledger that a call leaves is accepted by the next call with the state that it leaves: where
    -- the check read the ledger of the store from an object, it reads the new ledger from its list of
    -- dicts. SHA-256 is assumed to give 64 lower-case hexadecimal digits, and the key is well-formed.
    pub apply_once-accepted :
        (req : Request) (store store' : Store) (o : Outcome) (r : Receipt) (ledger : Value) (i : ℕ)
        → key_ok req.idempotency_key ≡ true
        → read_ledger hexdigest (state_id_for hexdigest store.state) ledger ≡ some store.ledger
        → apply_once hexdigest fingerprinter req store ≡ ok (o, r, store')
        → read_ledger hexdigest
            (state_id_for hexdigest store'.state)
            (list i (encode_receipts store'.ledger))
          ≡ some store'.ledger
    unfolding Kept read_ledger
    apply_once-accepted req store store' o r (list j vs) i k e h =
        let kept =
          OnRead-at (Chained hexdigest 0 [] none (state_id_for hexdigest store.state)) _
            (read_receipts-Chained hexdigest 0 [] none (state_id_for hexdigest store.state) vs) e in
        read_receipts-encode_receipts hexdigest 0 [] none (state_id_for hexdigest store'.state)
          store'.ledger
          (OnOk-at (λ (x : Outcome × Receipt × Store). Kept x.2) _
            (apply_once-Kept req store k kept) h)
    apply_once-accepted req store store' o r _ i k e h = cc
