-- ===== src/Jobs/Retry/Backoff.antt =====
-- The delays of server/jobs_retry.py: bounds, growth, and what a decision says.
use openchess.Jobs.Queue.Check.{keys_are}
use openchess.Python.Values.{read-int_in, get, int_in}
use openchess.Jobs.Retry.Check.{policy_ok}
use native.Mathlib.Numerals.{unary_clauses}
use native.Mathlib.Nat.{one-le-pow, pow-suc, mul_assoc}
use native.Mathlib.Decide.{dec_le}
use openchess.Base.{
  true, false, refl, inl, inr, none, some, OnOk, ◌≤◌, ℕ, ◌^◌, min, suc, ◌-◌, ◌*◌, ◌≡◌, arith,
  Option, Bool-cases, ◌+◌, ltb, ltb→le, codes, ◌∷◌, [], zero, ◌∙◌, ap,
}
use openchess.Base.Maybe.{◌>>=◌, OnRead, OnRead-bind}
use openchess.Jobs.Retry.{
  Policy, Request, delay, schedule, max_delay, is_dead, max_now, Entries, max_base_delay_ms,
  max_multiplier,
}

pub record PolicyOk (p : Policy) : Type 0 where
  pub base_pos : 1 ≤ p.base_delay_ms
  pub multiplier_pos : 1 ≤ p.multiplier
  pub base_le : p.base_delay_ms ≤ p.max_delay_ms
  pub bounded : p.max_delay_ms ≤ max_delay

-- Under a valid policy a delay is at least the base delay and at most the maximal one.
pub delay_bounds :
    (p : Policy) (attempts : ℕ)
    → PolicyOk p
    → (p.base_delay_ms ≤ delay p attempts) × (delay p attempts ≤ p.max_delay_ms)
unfolding delay
delay_bounds p attempts v =
    let grown : 1 ≤ p.multiplier ^ (attempts - 1) = one-le-pow _ _ v.multiplier_pos in
    (grind arith, omega arith)

le_scaled : (x k : ℕ) → 1 ≤ k → x ≤ x * k
le_scaled x k h = grind arith

min_scaled : (m x k : ℕ) → 1 ≤ k → min m (x * k) ≡ min m (min m x * k)
min_scaled m x k h = elim (dec_le x m) [
  | yes below ↦ let e : min m x ≡ x = omega arith in rw e
  | no above ↦
      let e : min m x ≡ m = omega arith in rw e (omega (arith, le_scaled x k h, le_scaled m k h))
]

min_step : (m b g k : ℕ) → 1 ≤ k → min m (b * (g * k)) ≡ min m (min m (b * g) * k)
min_step m b g k h = rw (← mul_assoc) (min_scaled m (b * g) k h)

delay-suc :
    (p : Policy) (n : ℕ)
    → PolicyOk p
    → delay p (suc (suc n)) ≡ min p.max_delay_ms (delay p (suc n) * p.multiplier)
unfolding delay
delay-suc p n v =
    let e₁ : suc (suc n) - 1 ≡ suc n = omega arith in
    let e₂ : suc n - 1 ≡ n = omega arith in
    rw (e₁, e₂, pow-suc)
      (min_step p.max_delay_ms p.base_delay_ms (p.multiplier ^ n) p.multiplier v.multiplier_pos)

-- The delay after a first failed attempt and a number of further ones: the base delay, multiplied
-- with each further attempt, never above the maximum.
unfoldable pub grown : Policy → ℕ → ℕ
grown p zero = p.base_delay_ms
grown p (suc n) = min p.max_delay_ms (grown p n * p.multiplier)

delay-first : (p : Policy) → PolicyOk p → delay p 1 ≡ p.base_delay_ms
unfolding delay
delay-first p v =
    let e : p.multiplier ^ (1 - 1) ≡ 1 = simp unary_clauses refl in rw e (omega (arith, v.base_le))

-- Under a valid policy the delay after n + 1 failed attempts, which the code computes with a power, is
-- the base delay for n = 0, and for each further attempt the delay before times the multiplier, but
-- never above the maximum.
pub delay-grown : (p : Policy) (n : ℕ) → PolicyOk p → delay p (suc n) ≡ grown p n
unfolding grown
delay-grown p zero v = delay-first p v
delay-grown p (suc n) v =
    delay-suc p n v ∙ ap (λ d. min p.max_delay_ms (d * p.multiplier)) (delay-grown p n v)

-- What a decision to retry says.
abbrev pub InTime : Policy → Request → Option (ℕ × ℕ) → Type 0
InTime p r none = is_dead r ≡ true
InTime p r (some (wait, retry_at)) =
    (is_dead r ≡ false)
    × (p.base_delay_ms ≤ wait)
    × (wait ≤ p.max_delay_ms)
    × (retry_at ≡ r.now + wait)
    × (retry_at ≤ max_now)

pub schedule-InTime : (p : Policy) (r : Request) → PolicyOk p → OnOk (InTime p r) (schedule p r)
unfolding schedule
schedule-InTime p r v = elim (Bool-cases (is_dead r)) [
  | inl e ↦ rw e e
  | inr e ↦ elim (Bool-cases (ltb max_now (r.now + delay p r.attempts))) [
    | inl late ↦ rw (e, late) tt
    | inr fits ↦
        rw (e, fits)
          (
            e,
            (delay_bounds p r.attempts v).0,
            (delay_bounds p r.attempts v).1,
            refl,
            ltb→le _ _ fits,
          )
  ]
]

pub policy_ok-PolicyOk : (d : Entries) → OnRead PolicyOk (policy_ok d)
unfolding policy_ok
policy_ok-PolicyOk d =
    OnRead-bind PolicyOk
      (keys_are d (codes "base_delay_ms" ∷ codes "multiplier" ∷ codes "max_delay_ms" ∷ [])) _
      λ _ _.
        OnRead-bind PolicyOk (get (codes "base_delay_ms") d >>= int_in 1 max_base_delay_ms) _
          λ base e_base.
            OnRead-bind PolicyOk (get (codes "multiplier") d >>= int_in 1 max_multiplier) _
              λ multiplier e_multiplier.
                OnRead-bind PolicyOk (get (codes "max_delay_ms") d >>= int_in base max_delay) _
                  λ limit e_limit. record {
                    base_pos = (read-int_in 1 max_base_delay_ms _ e_base).0;
                    multiplier_pos = (read-int_in 1 max_multiplier _ e_multiplier).0;
                    base_le = (read-int_in base max_delay _ e_limit).0;
                    bounded = (read-int_in base max_delay _ e_limit).1;
                  }
