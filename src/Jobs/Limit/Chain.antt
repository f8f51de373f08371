-- ===== src/Jobs/Limit/Chain.antt =====
-- Records of server/jobs_limit.py as the previous record of the next request.
use openchess.Base.{
  zero, suc, true, refl, none, some, ok, leb, OnOk, OnOk-bind, OnOk-at, Option, Text, ◌≡◌, text_eq,
  ◌≤◌, ℕ, text_eq_refl, arith, ◌+◌, ◌<◌, ◌-◌, ◌*◌, ◌∙◌, ap,
}
use openchess.Jobs.Limit.{Policy, Record, Request, Decision, admit, deny, refill, outcome}
use openchess.Jobs.Limit.Check.{limit_id, decision_ok, previous_ok, agrees}
use openchess.Jobs.Limit.Admit.{decide}
use openchess.Jobs.Limit.Bucket.{
  Honest, Fits, FitsPrevious, refill_bounds, outcome-Honest, refill_covers,
}

-- The policy that a record carries.
abbrev pub own_policy : Record → Policy
own_policy c = record { capacity = c.capacity; refill_ms = c.refill_ms }

-- A record that restates its request and policy, with an honest outcome.
pub record Restates (r : Request) (p : Policy) (previous : Option Record) (c : Record)
    : Type 0 where
  pub capacity_same : c.capacity ≡ p.capacity
  pub refill_same : c.refill_ms ≡ p.refill_ms
  pub cost_same : c.cost ≡ r.cost
  pub updated : c.updated_at ≡ (refill p r.now previous).1
  pub honest :
      Honest
        (own_policy c)
        c.cost
        r.now
        (refill p r.now previous)
        (c.decision, c.tokens, c.retry_after_ms)

module _ (hexdigest : Text → Text) (r : Request) (p : Policy) (previous : Option Record)
    (fits : FitsPrevious p previous r.now) where
  decide-Restates :
      OnOk
        (λ c. Restates r p previous c × (text_eq c.limit_id (limit_id hexdigest c) ≡ true))
        (decide hexdigest r p previous)
  unfolding decide limit_id
  decide-Restates =
      let f = refill p r.now previous in
      let b = refill_bounds p r.now previous fits in
      OnOk-bind (λ c. Restates r p previous c × (text_eq c.limit_id (limit_id hexdigest c) ≡ true))
        (outcome p r.cost r.now f) _
        λ o e. (
          record {
            capacity_same = refl;
            refill_same = refl;
            cost_same = refl;
            updated = refl;
            honest =
                OnOk-at (Honest p r.cost r.now f) _ (outcome-Honest p r.cost r.now f b.1 b.2) e;
          },
          text_eq_refl _,
        )

one_less : (d r : ℕ) → 0 < d → (d - 1) * r + r ≡ d * r
one_less zero r h = absurd (omega arith)
one_less (suc d) r h = let e : suc d - 1 ≡ d = omega arith in rw e (omega arith)

Honest-agrees :
    (d : Decision) (o : Option ℕ) (c : Record) (now : ℕ) (f : ℕ × ℕ)
    → f.0 ≤ c.capacity
    → f.1 ≤ now
    → now < f.1 + c.refill_ms
    → c.updated_at ≡ f.1
    → Honest (own_policy c) c.cost now f (d, c.tokens, o)
    → agrees d o c ≡ true
Honest-agrees admit none c now f within le lt up h = ground arith
Honest-agrees deny (some wait) c now f within le lt up h =
    ground (arith, one_less (c.cost - c.tokens) c.refill_ms)
Honest-agrees admit (some wait) c now f within le lt up h = absurd h
Honest-agrees deny none c now f within le lt up h = absurd h

Honest-decision_ok :
    (r : Request) (p : Policy) (previous : Option Record) (c : Record)
    → FitsPrevious p previous r.now
    → Restates r p previous c
    → decision_ok c ≡ true
unfolding decision_ok
Honest-decision_ok r p previous c fits s =
    let b = refill_bounds p r.now previous fits in
    Honest-agrees c.decision c.retry_after_ms c r.now (refill p r.now previous)
      (omega (arith, b.0, s.capacity_same)) b.1 (omega (arith, b.2, s.refill_same)) s.updated
      s.honest

Honest-wait :
    (d : Decision) (o : Option ℕ) (q : Policy) (cost now tokens wait : ℕ) (f : ℕ × ℕ)
    → Honest q cost now f (d, tokens, o)
    → o ≡ some wait
    → (tokens ≡ f.0) × (tokens < cost) × (wait + (now - f.1) ≡ (cost - tokens) * q.refill_ms)
Honest-wait admit none q cost now tokens wait f h e = cc
Honest-wait deny (some w) q cost now tokens wait f h e =
    let same : w ≡ wait = cc in (h.0, h.1, rw (← same) h.3)
Honest-wait admit (some w) q cost now tokens wait f h e = absurd h
Honest-wait deny none q cost now tokens wait f h e = absurd h

-- A record that `admit` makes, for a previous record, if any, that fits the policy and the clock,
-- passes the tests of the decision and of the id that the next request makes of it.
pub decide-previous_ok :
    (hexdigest : Text → Text) (r : Request) (p : Policy) (previous : Option Record) (c : Record)
    → FitsPrevious p previous r.now
    → decide hexdigest r p previous ≡ ok c
    → previous_ok hexdigest c ≡ true
unfolding previous_ok
decide-previous_ok hexdigest r p previous c fits h =
    let s =
      OnOk-at
        (λ (x : Record).
          Restates r p previous x × (text_eq x.limit_id (limit_id hexdigest x) ≡ true))
        _ (decide-Restates hexdigest r p previous fits) h in
    ground (arith, s.1, Honest-decision_ok r p previous c fits s.0)

-- The wait that a denial reports is exact: on the record of the denial the refilled tokens cover the
-- same cost at every later instant that is at least the wait after it, and at none before.
pub deny_exact :
    (hexdigest : Text → Text) (r : Request) (p : Policy) (previous : Option Record) (c : Record)
    (wait later : ℕ)
    → FitsPrevious p previous r.now
    → r.cost ≤ p.capacity
    → decide hexdigest r p previous ≡ ok c
    → c.retry_after_ms ≡ some wait
    → r.now ≤ later
    → leb r.cost (refill p later (some c)).0 ≡ leb (r.now + wait) later
deny_exact hexdigest r p previous c wait later fits affordable h w le =
    let s =
      (OnOk-at
        (λ (x : Record).
          Restates r p previous x × (text_eq x.limit_id (limit_id hexdigest x) ≡ true))
        _ (decide-Restates hexdigest r p previous fits) h).0 in
    let b = refill_bounds p r.now previous fits in
    let k =
      Honest-wait c.decision c.retry_after_ms (own_policy c) c.cost r.now c.tokens wait
        (refill p r.now previous) s.honest w in
    let scaled : (c.cost - c.tokens) * c.refill_ms ≡ (r.cost - c.tokens) * p.refill_ms =
      cc (s.cost_same, s.refill_same) in
    let due : c.updated_at + (r.cost - c.tokens) * p.refill_ms ≡ r.now + wait =
      omega (arith, scaled, k.2, b.1, s.updated) in
    let later_fits : Fits p c later = record {
      refill_pos = omega (arith, b.1, b.2);
      within = omega (arith, b.0, k.0);
      earlier = omega (arith, b.1, s.updated);
    } in
    refill_covers p c r.cost later later_fits (omega (arith, k.1, s.cost_same)) affordable
    ∙ ap (λ t. leb t later) due
