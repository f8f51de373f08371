-- ===== src/Jobs/Idempotency/Chain.antt =====
-- The chain of receipts of server/jobs_idempotency.py, and the ledger that a call leaves.
use mathlib.Core.Path.{subst}
use openchess.Base.{
  refl, ◌≡◌, sym, inl, inr, none, some, Option, List, [], ◌∷◌, ◌++◌, Text, text_eq, text_eq_refl,
  text_eq_comm, text_in, true, false, Bool-cases, Option-cases, arith, ℕ, ◌+◌, length,
}
use openchess.Base.Maybe.{guard, OnRead, OnRead-bind, OnRead-at, guard-eq-some}
use openchess.Python.Values.{Items, nil, item}
use openchess.Jobs.Idempotency.{Receipt}
use openchess.Jobs.Idempotency.Check.{read_receipt, read_receipts, continues}
use openchess.Jobs.Idempotency.Engine.{stored_for}
use openchess.Jobs.Idempotency.Ledger.{
  Genuine, Placed, encode_receipts, read_receipt-Placed, read_receipt-encode_receipt,
}

module _ (hexdigest : Text → Text) where
  -- The receipts from one place of the ledger to the end, with the id of the live state.
  unfoldable pub Chained : ℕ → List Text → Option Text → Text → List Receipt → Type 0
  Chained index seen last live [] = continues last live ≡ true
  Chained index seen last live (r ∷ rs) =
      Placed hexdigest index seen last r
      × Chained (index + 1) (r.idempotency_key ∷ seen) (some r.state_id) live rs

  pub read_receipts-Chained :
      (index : ℕ) (seen : List Text) (last : Option Text) (live : Text) (vs : Items)
      → OnRead (Chained index seen last live) (read_receipts hexdigest index seen last live vs)
  unfolding read_receipts Chained
  read_receipts-Chained index seen last live nil =
      OnRead-bind (Chained index seen last live) (guard (continues last live)) (λ _. some [])
        λ _ g. guard-eq-some _ g
  read_receipts-Chained index seen last live (item v vs) =
      let P = Chained index seen last live in
      OnRead-bind P (read_receipt hexdigest index seen last v) _ λ r e.
        let next = r.idempotency_key ∷ seen in
        OnRead-bind P (read_receipts hexdigest (index + 1) next (some r.state_id) live vs)
          (λ rest. some (r ∷ rest))
          λ rest h. (
            OnRead-at (Placed hexdigest index seen last) _
                (read_receipt-Placed hexdigest index seen last v) e,
            OnRead-at (Chained (index + 1) next (some r.state_id) live) _
                (read_receipts-Chained (index + 1) next (some r.state_id) live vs) h,
          )

  pub read_receipts-encode_receipts :
      (index : ℕ) (seen : List Text) (last : Option Text) (live : Text) (rs : List Receipt)
      → Chained index seen last live rs
      → read_receipts hexdigest index seen last live (encode_receipts rs) ≡ some rs
  unfolding read_receipts Chained encode_receipts
  read_receipts-encode_receipts index seen last live [] c = rw c refl
  read_receipts-encode_receipts index seen last live (r ∷ rs) (p, c) =
      rw
        (
          read_receipt-encode_receipt hexdigest index seen last r p,
          read_receipts-encode_receipts (index + 1) (r.idempotency_key ∷ seen) (some r.state_id)
              live rs c,
        )
        refl

  unstored :
      (key : Text) (q : Receipt) (rs : List Receipt)
      → stored_for key (q ∷ rs) ≡ none
      → (stored_for key rs ≡ none) × (text_eq q.idempotency_key key ≡ false)
  unfolding stored_for
  unstored key q rs h = elim (Option-cases (stored_for key rs)) [
    | inl n ↦ elim (Bool-cases (text_eq q.idempotency_key key)) [
      | inl e ↦ cc (rw (n, e) at h)
      | inr e ↦ (n, e)
    ]
    | inr (s, e) ↦ cc (rw e at h)
  ]

  unseen :
      (key other : Text) (seen : List Text)
      → text_eq other key ≡ false
      → text_in key seen ≡ false
      → text_in key (other ∷ seen) ≡ false
  unfolding text_in
  unseen key other seen e h = rw (text_eq_comm key other, e) h

  -- A receipt for the live state goes on at the end of the chain.
  pub Chained-snoc :
      (index : ℕ) (seen : List Text) (last : Option Text) (live : Text) (rs : List Receipt)
      (r : Receipt)
      → Chained index seen last live rs
      → Genuine hexdigest r
      → r.sequence ≡ index + length rs
      → r.prior_state_id ≡ live
      → stored_for r.idempotency_key rs ≡ none
      → text_in r.idempotency_key seen ≡ false
      → Chained index seen last r.state_id (rs ++ (r ∷ []))
  unfolding Chained
  Chained-snoc index seen last live [] r c g n p s f = (
    record {
      genuine = g;
      number = omega (arith, n);
      fresh = f;
      chained = subst (λ t. continues last t ≡ true) (sym p) c;
    },
    text_eq_refl r.state_id,
  )
  Chained-snoc index seen last live (q ∷ rs) r (p_q, c) g n p s f =
      let parts = unstored r.idempotency_key q rs s in
      (
        p_q,
        Chained-snoc (index + 1) (q.idempotency_key ∷ seen) (some q.state_id) live rs r c g
            (omega (arith, n)) p parts.0
            (unseen r.idempotency_key q.idempotency_key seen parts.1 f),
      )
