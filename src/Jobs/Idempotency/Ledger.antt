-- ===== src/Jobs/Idempotency/Ledger.antt =====
-- The ledger of server/jobs_idempotency.py from one call to the next.
use openchess.Base.{
  refl, ◌≡◌, some, Option, List, [], ◌∷◌, Text, text_eq, text_in, true, false, Bool, arith, codes,
  ℕ, not,
}
use openchess.Base.Maybe.{◌>>=◌, guard, OnRead, OnRead-bind, guard-eq-some}
use openchess.Python.Values.{
  Value, text, dict, integer, pos, Items, nil, item, end, entry, get, int_in, text_matching,
  read-text_matching, read-int_in, text_matching-text, int_in-pos,
}
use openchess.Python.Grammar.{fullmatch}
use openchess.Jobs.Queue.Check.{keys_are}
use openchess.Jobs.Idempotency.{
  Receipt, key_ok, fingerprint_grammar, state_id_grammar, receipt_grammar, derive_receipt_id,
}
use openchess.Jobs.Idempotency.Check.{read_receipt, continues}

abbrev pub encode_receipt : Receipt → Value
encode_receipt r = dict 0 (
    entry (text (codes "receipt_id")) (text r.receipt_id) (
      entry (text (codes "idempotency_key")) (text r.idempotency_key) (
        entry (text (codes "request_fingerprint")) (text r.request_fingerprint) (
          entry (text (codes "prior_state_id")) (text r.prior_state_id) (
            entry (text (codes "state_id")) (text r.state_id)
              (entry (text (codes "sequence")) (integer (pos r.sequence)) end))))))

-- The list of dicts that a ledger is.
unfoldable pub encode_receipts : List Receipt → Items
encode_receipts [] = nil
encode_receipts (r ∷ rs) = item (encode_receipt r) (encode_receipts rs)

module _ (hexdigest : Text → Text) where
  -- What the check of a ledger promises of a receipt, apart from its place.
  pub record Genuine (r : Receipt) : Type 0 where
    pub key_matches : key_ok r.idempotency_key ≡ true
    pub token_matches : fullmatch fingerprint_grammar r.request_fingerprint ≡ true
    pub prior_matches : fullmatch state_id_grammar r.prior_state_id ≡ true
    pub after_matches : fullmatch state_id_grammar r.state_id ≡ true
    pub own_matches : fullmatch receipt_grammar r.receipt_id ≡ true
    pub derived :
        text_eq r.receipt_id (
          derive_receipt_id hexdigest r.idempotency_key r.request_fingerprint r.prior_state_id
            r.state_id r.sequence)
        ≡ true

  -- A receipt in its place of the ledger.
  pub record Placed (index : ℕ) (seen : List Text) (last : Option Text) (r : Receipt) : Type 0 where
    pub genuine : Genuine r
    pub number : r.sequence ≡ index
    pub fresh : text_in r.idempotency_key seen ≡ false
    pub chained : continues last r.prior_state_id ≡ true

  not-eq-true : (b : Bool) → not b ≡ true → b ≡ false
  not-eq-true true h = cc
  not-eq-true false h = refl

  pub read_receipt-Placed :
      (index : ℕ) (seen : List Text) (last : Option Text) (v : Value)
      → OnRead (Placed index seen last) (read_receipt hexdigest index seen last v)
  unfolding read_receipt
  read_receipt-Placed index seen last (dict i d) =
      let P = Placed index seen last in
      let field = λ (name : Text) (test : Text → Bool). get name d >>= text_matching test in
      OnRead-bind P
        (keys_are d (
          codes "receipt_id"
          ∷ codes "idempotency_key"
          ∷ codes "request_fingerprint"
          ∷ codes "prior_state_id"
          ∷ codes "state_id"
          ∷ codes "sequence"
          ∷ []))
        _
        λ _ _. OnRead-bind P (field (codes "idempotency_key") key_ok) _ λ key e_k.
          OnRead-bind P (field (codes "request_fingerprint") (fullmatch fingerprint_grammar)) _
            λ token e_t.
              OnRead-bind P (field (codes "prior_state_id") (fullmatch state_id_grammar)) _
                λ prior e_p.
                  OnRead-bind P (field (codes "state_id") (fullmatch state_id_grammar)) _
                    λ after e_a.
                      OnRead-bind P (field (codes "receipt_id") (fullmatch receipt_grammar)) _
                        λ rid e_r.
                          OnRead-bind P (get (codes "sequence") d >>= int_in index index) _ λ n e_n.
                            OnRead-bind P (guard (not (text_in key seen))) _ λ _ g_s.
                              OnRead-bind P (guard (continues last prior)) _ λ _ g_c.
                                OnRead-bind P
                                  (guard (
                                    text_eq rid
                                      (derive_receipt_id hexdigest key token prior after n)))
                                  _
                                  λ _ g_d. record {
                                    genuine = record {
                                      key_matches = read-text_matching _ _ e_k;
                                      token_matches = read-text_matching _ _ e_t;
                                      prior_matches = read-text_matching _ _ e_p;
                                      after_matches = read-text_matching _ _ e_a;
                                      own_matches = read-text_matching _ _ e_r;
                                      derived = guard-eq-some _ g_d;
                                    };
                                    number = omega (arith, read-int_in index index _ e_n);
                                    fresh = not-eq-true _ (guard-eq-some _ g_s);
                                    chained = guard-eq-some _ g_c;
                                  }
  read_receipt-Placed index seen last _ = tt

  pub read_receipt-encode_receipt :
      (index : ℕ) (seen : List Text) (last : Option Text) (r : Receipt)
      → Placed index seen last r
      → read_receipt hexdigest index seen last (encode_receipt r) ≡ some r
  unfolding read_receipt text_matching get text_eq text_in openchess.Python.Values.text_keys
  read_receipt-encode_receipt index seen last r p =
      let g = p.genuine in
      rw
        (
          text_matching-text key_ok r.idempotency_key g.key_matches,
          text_matching-text (fullmatch fingerprint_grammar) r.request_fingerprint g.token_matches,
          text_matching-text (fullmatch state_id_grammar) r.prior_state_id g.prior_matches,
          text_matching-text (fullmatch state_id_grammar) r.state_id g.after_matches,
          text_matching-text (fullmatch receipt_grammar) r.receipt_id g.own_matches,
          int_in-pos index index r.sequence (omega (arith, p.number)) (omega (arith, p.number)),
          p.fresh,
          p.chained,
          g.derived,
        )
        refl
