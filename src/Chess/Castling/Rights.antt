-- ===== src/Chess/Castling/Rights.antt =====
-- Castling rights (tools/castling_runtime.py): canonical, and never regained.
use mathlib.Core.Path.{subst, sym}
use openchess.Base.{
  refl, ◌≡◌, true, false, Bool, Text, ℕ, codes, ◌∷◌, [], if◌then◌else◌, ◌&&◌, Bool-cases, not, inl,
  arith, inr, text_eq, ap, ◌∙◌, text_eq_sound, ◌↔◌,
}
use openchess.Chess.Castling.{has, in_order, grammar_ok, canonical, held, or_none, less}

-- The text of the rights that the four flags say are held.
abbrev flagged : ℕ → Bool → Text → Text
flagged c b rest = if b then c ∷ rest else rest

abbrev packed : Bool → Bool → Bool → Bool → Text
packed a b c d = flagged b'K' a (flagged b'Q' b (flagged b'k' c (flagged b'q' d [])))

packed-grammar_ok : (a b c d : Bool) → grammar_ok (or_none (packed a b c d)) ≡ true
unfolding grammar_ok openchess.Base.text_eq
packed-grammar_ok true true true true = refl
packed-grammar_ok true true true false = refl
packed-grammar_ok true true false true = refl
packed-grammar_ok true true false false = refl
packed-grammar_ok true false true true = refl
packed-grammar_ok true false true false = refl
packed-grammar_ok true false false true = refl
packed-grammar_ok true false false false = refl
packed-grammar_ok false true true true = refl
packed-grammar_ok false true true false = refl
packed-grammar_ok false true false true = refl
packed-grammar_ok false true false false = refl
packed-grammar_ok false false true true = refl
packed-grammar_ok false false true false = refl
packed-grammar_ok false false false true = refl
packed-grammar_ok false false false false = refl

held-packed : (a b c d : Bool) → held (or_none (packed a b c d)) ≡ packed a b c d
unfolding held openchess.Base.text_eq
held-packed true b c d = refl
held-packed false true c d = refl
held-packed false false true d = refl
held-packed false false false true = refl
held-packed false false false false = refl

-- Whatever set of rights is held, its canonical text obeys the grammar.
pub canonical-grammar_ok : (s : Text) → grammar_ok (canonical s) ≡ true
unfolding canonical in_order
canonical-grammar_ok s = packed-grammar_ok (has b'K' s) (has b'Q' s) (has b'k' s) (has b'q' s)

held-canonical : (s : Text) → held (canonical s) ≡ in_order (codes "KQkq") s
unfolding canonical in_order
held-canonical s = held-packed (has b'K' s) (has b'Q' s) (has b'k' s) (has b'q' s)

has-in_order : (c : ℕ) (order s : Text) → has c (in_order order s) ≡ (has c order && has c s)
unfolding has in_order
has-in_order c [] s = refl
has-in_order c (d ∷ order) s = elim (Bool-cases (has d s)) [
  | inl e ↦ rw (e, has-in_order c order s) (ground arith)
  | inr e ↦ rw (e, has-in_order c order s) (ground arith)
]

has-less : (c : ℕ) (s loss : Text) → has c (less s loss) ≡ (has c s && not (has c loss))
unfolding has less
has-less c [] loss = refl
has-less c (d ∷ s) loss = elim (Bool-cases (has d loss)) [
  | inl e ↦ rw (e, has-less c s loss) (ground arith)
  | inr e ↦ rw (e, has-less c s loss) (ground arith)
]

-- After a loss of rights exactly those are held that were held before and are not lost.
pub has-after :
    (c : ℕ) (s loss : Text)
    → has c (held (canonical (less s loss)))
      ≡ (has c (codes "KQkq") && (has c s && not (has c loss)))
has-after c s loss =
    rw
      (held-canonical (less s loss), has-in_order c (codes "KQkq") (less s loss), has-less c s loss)
      refl

held-listed : (rights : Text) → text_eq rights (codes "-") ≡ false → held rights ≡ rights
unfolding held
held-listed rights e = rw e refl

or_none-listed : (rights : Text) → text_eq rights [] ≡ false → or_none rights ≡ rights
unfolding text_eq
or_none-listed [] e = cc
or_none-listed (c ∷ s) e = refl

canonical-listed :
    (rights : Text)
    → text_eq rights [] ≡ false
    → in_order (codes "KQkq") rights ≡ rights
    → canonical rights ≡ rights
unfolding canonical
canonical-listed rights e same = ap or_none same ∙ or_none-listed rights e

canonical-nothing : canonical (held (codes "-")) ≡ codes "-"
unfolding canonical held in_order text_eq has
canonical-nothing = refl

grammar_ok-listed :
    (rights : Text)
    → grammar_ok rights ≡ true
    → text_eq rights (codes "-") ≡ false
    → (text_eq rights [] ≡ false) × (text_eq (in_order (codes "KQkq") rights) rights ≡ true)
unfolding grammar_ok
grammar_ok-listed rights h e = (ground arith, ground arith)

-- A text that obeys the grammar is the canonical text of the rights that it lists.
canonical-held : (rights : Text) → grammar_ok rights ≡ true → canonical (held rights) ≡ rights
canonical-held rights h = elim (Bool-cases (text_eq rights (codes "-"))) [
  | inl e ↦
      subst (λ r. canonical (held r) ≡ r) (sym (text_eq_sound rights (codes "-") e))
        canonical-nothing
  | inr e ↦
      let listed = grammar_ok-listed rights h e in
      rw (held-listed rights e) (
        canonical-listed rights listed.0
          (text_eq_sound (in_order (codes "KQkq") rights) rights listed.1))
]

-- The grammar of castling rights accepts exactly the canonical texts: every text that it accepts is
-- what `_canonical` writes for some set of rights, and it accepts whatever `_canonical` writes.
pub grammar_ok_iff :
    (rights : Text) → (grammar_ok rights ≡ true) ↔ ((s : Text) × (canonical s ≡ rights))
grammar_ok_iff rights = (
  λ h. (held rights, canonical-held rights h),
  λ (s, e). subst (λ r. grammar_ok r ≡ true) e (canonical-grammar_ok s),
)
