-- ===== src/Jobs/Limit/Bucket.antt =====
-- The arithmetic of the token bucket of server/jobs_limit.py.
use native.Mathlib.Nat.{le-div_iff_mul-le}
use openchess.Base.{
  refl, inl, inr, none, some, leb, OnOk, Bool-cases, ℕ, Option, ◌≤◌, ◌<◌, ◌/◌, ◌+◌, ◌≡◌, ◌*◌, arith,
  ◌-◌, leb→lt, leb→le, ltb, ltb→le,
}
use openchess.Jobs.Limit.{Policy, Record, Decision, admit, deny, refill, outcome, max_now}

-- A policy and an earlier record that belong together at `now`.
pub record Fits (p : Policy) (prev : Record) (now : ℕ) : Type 0 where
  pub refill_pos : 1 ≤ p.refill_ms
  pub within : prev.tokens ≤ p.capacity
  pub earlier : prev.updated_at ≤ now

abbrev pub FitsPrevious : Policy → Option Record → ℕ → Type 0
FitsPrevious p none now = 1 ≤ p.refill_ms
FitsPrevious p (some prev) now = Fits p prev now

-- `gained` whole refills have passed, and less than one more.
gained_bounds : (r t : ℕ) → 1 ≤ r → (t / r * r ≤ t) × (t < t / r * r + r)
gained_bounds r t h = (grind arith, grind arith)

-- A refill never passes the capacity, counts from no later than now, and banks less than one token's
-- time.
pub refill_bounds :
    (p : Policy) (now : ℕ) (previous : Option Record)
    → FitsPrevious p previous now
    → ((refill p now previous).0 ≤ p.capacity)
      × ((refill p now previous).1 ≤ now)
      × (now < (refill p now previous).1 + p.refill_ms)
unfolding refill
refill_bounds p now none h = (omega arith, omega arith, omega arith)
refill_bounds p now (some prev) h =
    let gained = (now - prev.updated_at) / p.refill_ms in
    let g = gained_bounds p.refill_ms (now - prev.updated_at) h.refill_pos in
    elim (Bool-cases (leb p.capacity (prev.tokens + gained))) [
      | inl e ↦ rw e (omega arith, omega arith, omega (arith, h.refill_pos))
      | inr e ↦
          rw e
            (omega (arith, leb→lt _ _ e), omega (arith, g, h.earlier), omega (arith, g, h.earlier))
    ]

-- The refilled bucket covers a cost above the tokens at hand from a certain instant on.
pub refill_covers :
    (p : Policy) (prev : Record) (cost now : ℕ)
    → Fits p prev now
    → prev.tokens < cost
    → cost ≤ p.capacity
    → leb cost (refill p now (some prev)).0
      ≡ leb (prev.updated_at + (cost - prev.tokens) * p.refill_ms) now
unfolding refill
refill_covers p prev cost now h few fits =
    let enough =
      le-div_iff_mul-le {k = p.refill_ms} {x = cost - prev.tokens} {y = now - prev.updated_at}
        h.refill_pos in
    elim (Bool-cases (leb (prev.updated_at + (cost - prev.tokens) * p.refill_ms) now)) [
      | inl e ↦
          let gained : cost - prev.tokens ≤ (now - prev.updated_at) / p.refill_ms =
            enough.1 (omega (arith, leb→le _ _ e)) in
          rw e (ground (arith, gained))
      | inr e ↦
          let late : ¬ (cost - prev.tokens ≤ (now - prev.updated_at) / p.refill_ms) =
            λ g. omega (arith, enough.0 g, leb→lt _ _ e, h.earlier) in
          rw e (ground (arith, late))
    ]

-- What an outcome says of the refilled tokens.
abbrev pub Honest : Policy → ℕ → ℕ → ℕ × ℕ → Decision × ℕ × Option ℕ → Type 0
Honest p cost now f (admit, tokens, none) = f.0 ≡ tokens + cost
Honest p cost now f (deny, tokens, some wait) =
    (tokens ≡ f.0)
    × (tokens < cost)
    × (1 ≤ wait)
    × (wait + (now - f.1) ≡ (cost - tokens) * p.refill_ms)
    × (now + wait ≤ max_now)
Honest p cost now f _ = ⊥

pub outcome-Honest :
    (p : Policy) (cost now : ℕ) (f : ℕ × ℕ)
    → f.1 ≤ now
    → now < f.1 + p.refill_ms
    → OnOk (Honest p cost now f) (outcome p cost now f)
unfolding outcome
outcome-Honest p cost now (refilled, base) le lt = elim (Bool-cases (leb cost refilled)) [
  | inl e ↦ rw e (omega (arith, leb→le _ _ e))
  | inr e ↦
      let short : refilled < cost = leb→lt _ _ e in
      let covers : p.refill_ms ≤ (cost - refilled) * p.refill_ms = grind arith in
      elim (Bool-cases (ltb max_now (now + ((cost - refilled) * p.refill_ms - (now - base))))) [
        | inl late ↦ rw (e, late) tt
        | inr fine ↦
            rw (e, fine)
              (refl, short, omega (arith, covers), omega (arith, covers), ltb→le _ _ fine)
      ]
]
