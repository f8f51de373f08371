-- ===== src/Base/Outcome.antt =====
-- Code that raises a typed error: `ok` with its value, or `err` with the failure class.
use mathlib.Core.Path.{◌≡◌, refl, subst}
use mathlib.Core.Bool.{Bool, true, false}
use mathlib.Core.Option.{Option, none, some}

pub data Result {ℓ κ} (E : Type ℓ) (A : Type κ) : Type (ℓ ⊔ κ) where
  err : (failure : E) → Result E A
  ok : (value : A) → Result E A

-- Reads a value whose absence is reported as the failure `e`.
abbrev pub or_else {ℓ κ} : {E : Type ℓ} {A : Type κ} → E → Option A → Result E A
or_else e none = err e
or_else e (some a) = ok a

module _ {ℓ κ μ} {E : Type ℓ} {A : Type κ} {B : Type μ} where
  infixl 5 ◌>>=◌
  abbrev pub ◌>>=◌ : Result E A → (A → Result E B) → Result E B
  err failure >>= next = err failure
  ok value >>= next = next value

  infixl 5 ◌>>◌
  abbrev pub ◌>>◌ : Result E A → Result E B → Result E B
  first >> next = first >>= λ _. next

-- Code that goes on only when a test passes, and else fails with `e`.
abbrev pub require {ℓ} : {E : Type ℓ} → Bool → E → Result E (Unit {0})
require true e = ok tt
require false e = err e

-- A property of the value, where the code returns one.
abbrev pub OnOk {ℓ κ μ} : {E : Type ℓ} {A : Type κ} → (A → Type μ) → Result E A → Type μ
OnOk P (ok a) = P a
OnOk P (err e) = Unit

module _ {ℓ κ μ} {E : Type ℓ} {A : Type κ} (P : A → Type μ) where
  pub OnOk-at : (m : Result E A) → OnOk P m → {a : A} → m ≡ ok a → P a
  OnOk-at (ok b) h {a} e = let same : b ≡ a = cc in subst P same h
  OnOk-at (err x) h e = cc

module _ {ℓ κ μ ν} {E : Type ℓ} {A : Type κ} {B : Type μ} (P : B → Type ν) where
  pub OnOk-bind :
      (m : Result E A) (f : A → Result E B) → ((a : A) → m ≡ ok a → OnOk P (f a)) → OnOk P (m >>= f)
  OnOk-bind (ok a) f h = h a refl
  OnOk-bind (err x) f h = tt

pub OnOk-always {ℓ κ μ} :
    {E : Type ℓ} {A : Type κ} (P : A → Type μ) (m : Result E A) → ((a : A) → P a) → OnOk P m
OnOk-always P (ok a) f = f a
OnOk-always P (err e) f = tt

pub OnOk-weaken {ℓ κ μ ν} :
    {E : Type ℓ} {A : Type κ} (P : A → Type μ) (Q : A → Type ν) (m : Result E A)
    → OnOk P m
    → ((a : A) → P a → Q a)
    → OnOk Q m
OnOk-weaken P Q (ok a) h f = f a h
OnOk-weaken P Q (err e) h f = tt

pub OnOk-eq {ℓ κ} : {E : Type ℓ} {A : Type κ} (m : Result E A) → OnOk (λ a. m ≡ ok a) m
OnOk-eq (ok a) = refl
OnOk-eq (err e) = tt

pub OnOk-and {ℓ κ μ ν} :
    {E : Type ℓ} {A : Type κ} (P : A → Type μ) (Q : A → Type ν) (m : Result E A)
    → OnOk P m
    → ((a : A) → m ≡ ok a → Q a)
    → OnOk (λ a. P a × Q a) m
OnOk-and P Q (ok a) h f = (h, f a refl)
OnOk-and P Q (err e) h f = tt

pub or_else-eq-ok {ℓ κ} :
    {E : Type ℓ} {A : Type κ} (e : E) (m : Option A) {a : A} → or_else e m ≡ ok a → m ≡ some a
or_else-eq-ok e none h = cc
or_else-eq-ok e (some b) h = cc

-- What a passed test tells.
pub require-eq-ok {ℓ} :
    {E : Type ℓ} (b : Bool) (e : E) {u : Unit {0}} → require b e ≡ ok u → b ≡ true
require-eq-ok true e h = refl
require-eq-ok false e h = cc

-- What is built from a result has that result.
pub >>=-first {ℓ κ μ} :
    {E : Type ℓ} {A : Type κ} {B : Type μ} (m : Result E A) (f : A → Result E B) {b : B}
    → (m >>= f) ≡ ok b
    → (a : A) × (m ≡ ok a)
>>=-first (err failure) f h = cc
>>=-first (ok value) f h = (value, refl)
