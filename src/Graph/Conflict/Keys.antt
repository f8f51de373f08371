-- ===== src/Graph/Conflict/Keys.antt =====
-- Dicts and sorted key sets, as graph/conflict.py uses them.
use openchess.Base.{
  Bool, Bool-cases, List, Option, Option-cases, Text, [], ap, arith, false, if◌then◌else◌, inl, inr,
  none, refl, some, sym, text_eq, text_eq_comm, text_eq_sound, text_in, text_lt, true, ◌&&◌, ◌++◌,
  ◌||◌, ◌∙◌, ◌∷◌, ◌≡◌,
}
use openchess.Graph.Conflict.{Map, lookup, keys, insert_text, sort_texts, select}
use openchess.Graph.Conflict.Detect.{shared}

unfoldable pub or_first {ℓ} : {A : Type ℓ} → Option A → Option A → Option A
or_first (some a) o = some a
or_first none o = o

pub lookup-append {ℓ} :
    {A : Type ℓ} (key : Text) (xs ys : Map A)
    → lookup key (xs ++ ys) ≡ or_first (lookup key xs) (lookup key ys)
unfolding lookup or_first
lookup-append key [] ys = refl
lookup-append key ((k, a) ∷ xs) ys = elim (Bool-cases (text_eq k key)) [
  | inl e ↦ rw e refl
  | inr e ↦ rw (e, lookup-append key xs ys) refl
]

module _ {ℓ} {A : Type ℓ} where
  pub lookup-at :
      (key k : Text) (a : A) (m : Map A) → text_eq k key ≡ true → lookup key ((k, a) ∷ m) ≡ some a
  unfolding lookup
  lookup-at key k a m e = rw e refl

  pub lookup-past :
      (key k : Text) (a : A) (m : Map A)
      → text_eq k key ≡ false
      → lookup key ((k, a) ∷ m) ≡ lookup key m
  unfolding lookup
  lookup-past key k a m e = rw e refl

text_in-insert_text :
    (key t : Text) (us : List Text)
    → text_in key (insert_text t us) ≡ (text_eq key t || text_in key us)
unfolding text_in insert_text
text_in-insert_text key t [] = refl
text_in-insert_text key t (u ∷ us) = elim (Bool-cases (text_lt u t)) [
  | inl e ↦ rw (e, text_in-insert_text key t us) (ground arith)
  | inr e ↦ rw e refl
]

pub text_in-sort_texts :
    (key : Text) (ts : List Text) → text_in key (sort_texts ts) ≡ text_in key ts
unfolding text_in sort_texts
text_in-sort_texts key [] = refl
text_in-sort_texts key (t ∷ ts) =
    text_in-insert_text key t (sort_texts ts) ∙ rw (text_in-sort_texts key ts) refl

shared-step :
    (k : Text) (ks others : List Text) (b : Bool)
    → text_in k others ≡ b
    → shared (k ∷ ks) others ≡ (if b then k ∷ shared ks others else shared ks others)
unfolding shared
shared-step k ks others b h = rw (shared, h) refl

text_in-if :
    (key k : Text) (b : Bool) (ts : List Text)
    → text_in key (if b then k ∷ ts else ts) ≡ ((b && text_eq key k) || text_in key ts)
unfolding text_in
text_in-if key k true ts = refl
text_in-if key k false ts = refl

together : (e b x t : Bool) → (e ≡ true → t ≡ b) → ((b && e) || (x && t)) ≡ ((e || x) && t)
together true b true t h =
    rw (h refl) (elim (Bool-cases b) [ inl c ↦ rw c refl | inr c ↦ rw c refl ])
together true b false t h =
    rw (h refl) (elim (Bool-cases b) [ inl c ↦ rw c refl | inr c ↦ rw c refl ])
together false true x t h = refl
together false false x t h = refl

text_in-none : (key : Text) (others : List Text) → text_in key (shared [] others) ≡ false
unfolding text_in shared
text_in-none key others = refl

pub text_in-shared :
    (key : Text) (ks others : List Text)
    → text_in key (shared ks others) ≡ (text_in key ks && text_in key others)
unfolding text_in
text_in-shared key [] others = text_in-none key others
text_in-shared key (k ∷ ks) others =
    ap (text_in key) (shared-step k ks others (text_in k others) refl)
    ∙ text_in-if key k (text_in k others) (shared ks others)
    ∙ ap (λ x. (text_in k others && text_eq key k) || x) (text_in-shared key ks others)
    ∙ together (text_eq key k) (text_in k others) (text_in key ks) (text_in key others)
        λ e. ap (λ x. text_in x others) (text_eq_sound key k e)

module _ {ℓ} {A : Type ℓ} where
  pub keys-lookup : (key : Text) (m : Map A) → text_in key (keys m) ≡ false → lookup key m ≡ none
  unfolding keys lookup text_in
  keys-lookup key [] h = refl
  keys-lookup key ((k, a) ∷ m) h = elim (Bool-cases (text_eq key k)) [
    | inl e ↦ cc (rw e at h)
    | inr e ↦ rw (text_eq_comm k key, e) (keys-lookup key m (rw e at h))
  ]

  select-some :
      (f : Text → Option A) (k : Text) (ks : List Text) (a : A)
      → f k ≡ some a
      → select f (k ∷ ks) ≡ ((k, a) ∷ select f ks)
  unfolding select
  select-some f k ks a h = rw (select, h) refl

  select-none :
      (f : Text → Option A) (k : Text) (ks : List Text)
      → f k ≡ none
      → select f (k ∷ ks) ≡ select f ks
  unfolding select
  select-none f k ks h = rw (select, h) refl

  none-either : (b : Bool) → if◌then◌else◌ {A = Option A} b none none ≡ none
  none-either true = refl
  none-either false = refl

  select-empty : (f : Text → Option A) (key : Text) → lookup key (select f []) ≡ none
  unfolding select lookup
  select-empty f key = refl

  pub lookup-select :
      (f : Text → Option A) (key : Text) (ks : List Text)
      → lookup key (select f ks) ≡ (if text_in key ks then f key else none)
  unfolding text_in
  lookup-select f key [] = select-empty f key
  lookup-select f key (k ∷ ks) = elim (Bool-cases (text_eq key k)) [
    | inl e ↦
        let same : f k ≡ f key = ap f (sym (text_eq_sound key k e)) in
        elim (Option-cases (f key)) [
          | inl n ↦
              rw (select-none f k ks (same ∙ n), lookup-select f key ks, e, n)
                (none-either (text_in key ks))
          | inr (a, s) ↦
              rw
                (
                  select-some f k ks a (same ∙ s),
                  lookup-at key k a (select f ks) (text_eq_comm k key ∙ e),
                  e,
                  s,
                )
                refl
        ]
    | inr e ↦ elim (Option-cases (f k)) [
      | inl n ↦ rw (select-none f k ks n, e) (lookup-select f key ks)
      | inr (a, s) ↦
          rw (select-some f k ks a s, lookup-past key k a (select f ks) (text_eq_comm k key ∙ e), e)
            (lookup-select f key ks)
    ]
  ]
