-- ===== src/Jobs/Idempotency/Bound.antt =====
-- The token of `_fingerprint` of server/jobs_idempotency.py.
use mathlib.Core.Path.{subst}
use openchess.Base.{
  refl, ◌≡◌, ap, ◌⊎◌, inl, inr, none, some, Option, ok, err, Result, OnOk, OnOk-bind, Text, text_eq,
  text_eq_sound, true, false, Bool-cases, if◌then◌else◌, arith, require, ◌&&◌, require-eq-ok, Bool,
  &&-eq-true,
}
use openchess.Python.Values.{Value, text}
use openchess.Python.Grammar.{fullmatch}
use openchess.Jobs.Idempotency.{Failure, divergent_fingerprint, fingerprint_grammar}
use openchess.Jobs.Idempotency.Engine.{bound_token}

-- The token of a request, where one is bound, is its fingerprint.
pub bound_token-fingerprint :
    (expected : Text) (v : Option Value) → OnOk (λ t. t ≡ expected) (bound_token expected v)
unfolding bound_token
bound_token-fingerprint expected (some (text t)) =
    OnOk-bind (λ (s : Text). s ≡ expected)
      (require (fullmatch fingerprint_grammar t && text_eq t expected) divergent_fingerprint) _
      λ _ e. text_eq_sound t expected (ground (arith, require-eq-ok _ divergent_fingerprint e))
bound_token-fingerprint expected (some _) = tt
bound_token-fingerprint expected none = tt

-- The fingerprinter gave the fingerprint.
unfoldable pub faithful : Text → Option Value → Bool
faithful expected (some (text t)) = text_eq t expected
faithful expected _ = false

abbrev pub WellFormed : Text → Text → Type 0
WellFormed expected t = fullmatch fingerprint_grammar expected ≡ true

pub bound_token-WellFormed :
    (expected : Text) (v : Option Value) → OnOk (WellFormed expected) (bound_token expected v)
unfolding bound_token
bound_token-WellFormed expected (some (text t)) =
    OnOk-bind (WellFormed expected)
      (require (fullmatch fingerprint_grammar t && text_eq t expected) divergent_fingerprint) _
      λ _ e.
        let parts = &&-eq-true _ _ (require-eq-ok _ divergent_fingerprint e) in
        subst (λ x. fullmatch fingerprint_grammar x ≡ true) (text_eq_sound t expected parts.1)
          parts.0
bound_token-WellFormed expected (some _) = tt
bound_token-WellFormed expected none = tt

pub bound_token-faithful :
    (expected : Text) (v : Option Value)
    → fullmatch fingerprint_grammar expected ≡ true
    → bound_token expected v
      ≡ (if faithful expected v then ok expected else err divergent_fingerprint)
unfolding bound_token faithful
bound_token-faithful expected (some (text t)) g = elim (Bool-cases (text_eq t expected)) [
  | inl e ↦
      let same : t ≡ expected = text_eq_sound t expected e in
      let formed : fullmatch fingerprint_grammar t ≡ true = rw same g in rw (formed, e) (ap ok same)
  | inr e ↦
      let refused : (fullmatch fingerprint_grammar t && text_eq t expected) ≡ false =
        ground (arith, e) in
      rw (refused, e) refl
]
bound_token-faithful expected (some _) g = refl
bound_token-faithful expected none g = refl

pub bound_token-cases :
    (expected : Text) (m : Result Failure Text)
    → OnOk (λ t. t ≡ expected) m
    → (m ≡ ok expected) ⊎ ((e : Failure) × (m ≡ err e))
bound_token-cases expected (ok t) h = inl (ap ok h)
bound_token-cases expected (err e) h = inr (e, refl)
