-- ===== src/Base/Maybe.antt =====
-- Chains of reads, any of which may find nothing.
use mathlib.Core.Path.{◌≡◌, refl, subst}
use mathlib.Core.Bool.{Bool, true, false}
use mathlib.Core.Option.{Option, none, some}

module _ {ℓ κ} {A : Type ℓ} {B : Type κ} where
  infixl 5 ◌>>=◌
  abbrev pub ◌>>=◌ : Option A → (A → Option B) → Option B
  some found >>= next = next found
  none >>= next = none

  infixl 5 ◌>>◌
  abbrev pub ◌>>◌ : Option A → Option B → Option B
  first >> next = first >>= λ _. next

-- A value that is kept only when a test passes.
abbrev pub keep_if {ℓ} : {A : Type ℓ} → Bool → Option A → Option A
keep_if true a = a
keep_if false a = none

-- Goes on only when a test passes.
abbrev pub guard : Bool → Option (Unit {0})
guard true = some tt
guard false = none

-- A property of what was read, where something was.
abbrev pub OnRead {ℓ κ} : {A : Type ℓ} → (A → Type κ) → Option A → Type κ
OnRead P none = Unit
OnRead P (some a) = P a

module _ {ℓ κ} {A : Type ℓ} (P : A → Type κ) where
  pub OnRead-at : (m : Option A) → OnRead P m → {a : A} → m ≡ some a → P a
  OnRead-at none h e = cc
  OnRead-at (some b) h {a} e = let same : b ≡ a = cc in subst P same h

module _ {ℓ κ μ} {A : Type ℓ} {B : Type κ} (P : B → Type μ) where
  pub OnRead-bind :
      (m : Option A) (f : A → Option B)
      → ((a : A) → m ≡ some a → OnRead P (f a))
      → OnRead P (m >>= f)
  OnRead-bind none f h = tt
  OnRead-bind (some a) f h = h a refl

pub guard-eq-some : (b : Bool) {u : Unit {0}} → guard b ≡ some u → b ≡ true
guard-eq-some true h = refl
guard-eq-some false h = cc

pub wrapped-eq-some {ℓ} :
    {A : Type ℓ} (m : Option A) (a : A) → (m >>= λ x. some (some x)) ≡ some (some a) → m ≡ some a
wrapped-eq-some none a h = cc
wrapped-eq-some (some b) a h = cc

pub guarded-eq-some {ℓ} :
    {A : Type ℓ} (b : Bool) (x : A) {y : A} → (guard b >> some x) ≡ some y → (b ≡ true) × (x ≡ y)
guarded-eq-some true x h = (refl, cc)
guarded-eq-some false x h = cc

pub OnRead-weaken {ℓ κ μ} :
    {A : Type ℓ} (P : A → Type κ) (Q : A → Type μ) (m : Option A)
    → OnRead P m
    → ((a : A) → P a → Q a)
    → OnRead Q m
OnRead-weaken P Q none h f = tt
OnRead-weaken P Q (some a) h f = f a h
