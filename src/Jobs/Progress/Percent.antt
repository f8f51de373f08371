-- ===== src/Jobs/Progress/Percent.antt =====
-- The percentage of server/jobs_progress.py, in basis points.
use openchess.Base.{ℕ, ◌≡◌, ◌≤◌, ◌<◌, ◌↔◌, arith, Bool-cases, ltb, inl, ltb→lt, inr, ltb→le}
use openchess.Jobs.Progress.{percent, bp}

pub percent_mono : (a b total : ℕ) → 0 < total → a ≤ b → percent a total ≤ percent b total
unfolding percent
percent_mono a b total h le = grind arith

percent_full : (total : ℕ) → 0 < total → percent total total ≡ bp
unfolding percent
percent_full total h = grind arith

percent-lt : (done total : ℕ) → done < total → percent done total < bp
unfolding percent
percent-lt done total h = grind arith

-- Of at most the total, exactly the total is reported as 10,000 basis points.
pub percent-eq-bp :
    (done total : ℕ) → 0 < total → done ≤ total → (percent done total ≡ bp) ↔ (done ≡ total)
percent-eq-bp done total h le = (
  λ e. elim (Bool-cases (ltb done total)) [
    | inl lt ↦ absurd (omega (arith, percent-lt done total (ltb→lt _ _ lt)))
    | inr ge ↦ omega (arith, ltb→le _ _ ge)
  ],
  λ e. rw e (percent_full total h),
)
