-- ===== src/Jobs/Limit/Accepted.antt =====
-- Records of `admit` of server/jobs_limit.py as the previous record of a later request.
use openchess.Base.{
  refl, true, ◌≡◌, ◌≤◌, arith, none, some, ok, err, inl, inr, Bool-cases, Option, Text, ℕ, leb,
  leb→le, codes, ◌∷◌, ◌++◌, OnOk, OnOk-bind, OnOk-at, or_else, or_else-eq-ok, require,
  require-eq-ok, if◌then◌else◌, OnOk-and,
}
use openchess.Base.Maybe.{guard, OnRead, OnRead-bind, OnRead-at, ◌>>=◌, ◌>>◌}
use openchess.Python.Values.{Value, null}
use openchess.Python.Grammar.{fullmatch}
use openchess.Python.Dumps.{dumps}
use openchess.Jobs.Queue.Valid.Kept.{digest_grammar}
use openchess.Jobs.Limit.{
  Policy, Request, Record, Decision, admit, deny, refill, outcome, limit_conflict,
  malformed_limit_request, invalid_limit_policy, corrupt_previous_bucket,
}
use openchess.Jobs.Limit.Check.{
  request_ok, policy_ok, read_record, read_previous, previous_ok, limit_id, limit_id_grammar,
  encode_record, encode_body,
}
use openchess.Jobs.Limit.Admit.{decide, admit_request, chain_ok, chain_all_ok, id_of}
use openchess.Jobs.Limit.Bucket.{Honest, FitsPrevious, refill_bounds, outcome-Honest}
use openchess.Jobs.Limit.Chain.{decide-previous_ok}
use openchess.Jobs.Limit.Readable.{
  InRange, request_ok-InRange, PolicyOk, policy_ok-PolicyOk, Sound, read_record-Sound, IdMatches,
  WaitOk, Readable, read_record-encode_record,
}

-- What is known of the previous record, if there is one.
SoundPrevious : Option Record → Type 0
SoundPrevious none = Unit
SoundPrevious (some c) = Sound c

module _ (hexdigest : Text → Text) where
  read_own-Sound :
      (v : Value)
      → OnRead SoundPrevious (do r ← read_record v; guard (previous_ok hexdigest r); some (some r))
  unfolding SoundPrevious
  read_own-Sound v = OnRead-bind SoundPrevious (read_record v) _ λ c e.
      OnRead-bind SoundPrevious (guard (previous_ok hexdigest c)) _
        λ _ _. OnRead-at Sound _ (read_record-Sound v) e

  read_previous-Sound : (v : Value) → OnRead SoundPrevious (read_previous hexdigest v)
  unfolding read_previous SoundPrevious
  read_previous-Sound null = tt
  read_previous-Sound v = read_own-Sound v

  -- A previous record that was read and belongs to the request fits the policy and the clock.
  chained-FitsPrevious :
      (r : Request) (p : Policy) (previous : Option Record)
      → PolicyOk p
      → SoundPrevious previous
      → chain_all_ok r p previous ≡ true
      → FitsPrevious p previous r.now
  unfolding SoundPrevious chain_ok
  chained-FitsPrevious r p none v s h = v.refill_pos
  chained-FitsPrevious r p (some c) v s h =
      let same : p.capacity ≡ c.capacity = ground (arith, h) in
      record {
        refill_pos = v.refill_pos;
        within = omega (arith, s.within, same);
        earlier = ground (arith, h);
      }

  read_previous-encode_record :
      (c : Record)
      → Readable c
      → previous_ok hexdigest c ≡ true
      → read_previous hexdigest (encode_record c) ≡ some (some c)
  unfolding read_previous encode_record
  read_previous-encode_record c v own = rw (read_record-encode_record c v, own) refl

-- The tokens and the wait of an honest outcome are within their bounds.
Honest-bounds :
    (p : Policy) (cost now tokens : ℕ) (f : ℕ × ℕ) (d : Decision) (o : Option ℕ)
    → f.0 ≤ p.capacity
    → Honest p cost now f (d, tokens, o)
    → (tokens ≤ p.capacity) × WaitOk o
Honest-bounds p cost now tokens f admit none le h = (omega (arith, h), tt)
Honest-bounds p cost now tokens f deny (some wait) le h =
    (omega (arith, h), (omega (arith, h), omega (arith, h)))
Honest-bounds p cost now tokens f admit (some wait) le h = absurd h
Honest-bounds p cost now tokens f deny none le h = absurd h

module _ (hexdigest : Text → Text)
    (digest_hex : (t : Text) → fullmatch digest_grammar (hexdigest t) ≡ true) where
  limit_id-matches : (c : Record) → fullmatch limit_id_grammar (limit_id hexdigest c) ≡ true
  unfolding limit_id fullmatch
  limit_id-matches c = digest_hex (codes "lm1" ++ (0 ∷ dumps true (encode_body c)))

  previous_ids : (o : Option Record) → SoundPrevious o → IdMatches (id_of o)
  unfolding SoundPrevious
  previous_ids none s = tt
  previous_ids (some c) s = s.id_matches

  decide-Readable :
      (r : Request) (p : Policy) (previous : Option Record)
      → InRange r
      → PolicyOk p
      → r.cost ≤ p.capacity
      → SoundPrevious previous
      → FitsPrevious p previous r.now
      → OnOk Readable (decide hexdigest r p previous)
  unfolding decide
  decide-Readable r p previous v q affordable s fits =
      let f = refill p r.now previous in
      let b = refill_bounds p r.now previous fits in
      OnOk-bind Readable (outcome p r.cost r.now f) _ λ o e.
        let honest =
          OnOk-at (Honest p r.cost r.now f) _ (outcome-Honest p r.cost r.now f b.1 b.2) e in
        let bounds = Honest-bounds p r.cost r.now o.1 f o.0 o.2 b.0 honest in
        record {
          key_matches = v.key_matches;
          policy = q;
          some_cost = v.some_cost;
          cost_bound = affordable;
          within = bounds.0;
          clock_bound = omega (arith, b.1, v.clock_bound);
          wait_ok = bounds.1;
          previous_matches = previous_ids previous s;
          id_matches = limit_id-matches _;
        }

  -- What `admit` leaves behind.
  abbrev Made : Record → Type 0
  Made c = Readable c × (previous_ok hexdigest c ≡ true)

  admit_request-Made : (request : Value) → OnOk Made (admit_request hexdigest request)
  unfolding admit_request
  admit_request-Made request =
      OnOk-bind Made (or_else malformed_limit_request (request_ok request)) _ λ r e_r.
        OnOk-bind Made (or_else invalid_limit_policy (policy_ok r.policy)) _ λ p e_p.
          OnOk-bind Made (require (leb r.cost p.capacity) malformed_limit_request) _ λ _ e_c.
            OnOk-bind Made (or_else corrupt_previous_bucket (read_previous hexdigest r.previous)) _
              λ previous e_o.
                OnOk-bind Made (require (chain_all_ok r p previous) limit_conflict) _ λ _ e_k.
                  let v =
                    OnRead-at InRange _ (request_ok-InRange request) (or_else-eq-ok _ _ e_r) in
                  let q =
                    OnRead-at PolicyOk _ (policy_ok-PolicyOk r.policy) (or_else-eq-ok _ _ e_p) in
                  let s =
                    OnRead-at SoundPrevious _ (read_previous-Sound hexdigest r.previous)
                      (or_else-eq-ok _ _ e_o) in
                  let fits =
                    chained-FitsPrevious hexdigest r p previous q s (require-eq-ok _ _ e_k) in
                  let affordable : r.cost ≤ p.capacity = leb→le _ _ (require-eq-ok _ _ e_c) in
                  OnOk-and Readable (λ c. previous_ok hexdigest c ≡ true)
                    (decide hexdigest r p previous)
                    (decide-Readable r p previous v q affordable s fits)
                    λ c h. decide-previous_ok hexdigest r p previous c fits h

  -- What `admit` returns is accepted as the previous record of a later request with a valid policy
  -- that covers its cost: the fields have the form and the bounds, and the invariants and the id the
  -- values, that are asked for, so that request is never refused as corrupt, but as a conflict if it
  -- does not go on where the record left off, and decided from the record if it does. SHA-256 is
  -- assumed to give 64 lower-case hexadecimal digits.
  pub admit_request-accepted :
      (request : Value) (c : Record) (next : Value) (r : Request) (p : Policy)
      → admit_request hexdigest request ≡ ok c
      → request_ok next ≡ some r
      → policy_ok r.policy ≡ some p
      → leb r.cost p.capacity ≡ true
      → r.previous ≡ encode_record c
      → admit_request hexdigest next
        ≡ (if chain_ok r p c then decide hexdigest r p (some c) else err limit_conflict)
  unfolding admit_request
  admit_request-accepted request c next r p h e_r e_p affordable same =
      let made = OnOk-at Made _ (admit_request-Made request) h in
      let before : read_previous hexdigest r.previous ≡ some (some c) =
        rw same (read_previous-encode_record hexdigest c made.0 made.1) in
      elim (Bool-cases (chain_ok r p c)) [
        | inl k ↦ rw (e_r, e_p, affordable, before, k) refl
        | inr k ↦ rw (e_r, e_p, affordable, before, k) refl
      ]
