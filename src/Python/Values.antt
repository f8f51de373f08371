-- ===== src/Python/Values.antt =====
-- The Python objects that the validators of server/ receive: any object at all, with its exact
-- type. A list and a dict carry the identity (`id`) of the object; an object that holds itself is
-- given by its unfolding to a depth below which no validator looks.
use openchess.Base.Maybe.{◌>>=◌, OnRead, OnRead-at}
use openchess.Base.{
  ℕ, suc, Bool, true, ◌&&◌, Option, none, some, List, [], ◌∷◌, if◌then◌else◌, Text, text_eq,
  text_in, keep_if, ◌≡◌, leb, ◌≤◌, arith, ltb, ◌<◌,
}

-- `negsuc n` is -(n + 1).
pub data ℤ : Type 0 where
  pos : ℕ → ℤ
  negsuc : ℕ → ℤ

mutual
  pub data Value : Type 0 where
    null : Value
    boolean : Bool → Value
    integer : ℤ → Value
    -- whether it is finite, and its `repr`
    floating : Bool → Text → Value
    text : Text → Value
    list : ℕ → Items → Value
    dict : ℕ → Entries → Value
    -- an object of any other exact type, subclasses of the above included
    other : Value

  pub data Items : Type 0 where
    nil : Items
    item : Value → Items → Items

  pub data Entries : Type 0 where
    end : Entries
    entry : Value → Value → Entries → Entries

-- `abs(n)`
abbrev pub magnitude : ℤ → ℕ
magnitude (pos n) = n
magnitude (negsuc n) = suc n

-- `mapping[key]`
unfoldable pub get : Text → Entries → Option Value
get k end = none
get k (entry (text j) v d) = if text_eq j k then some v else get k d
get k (entry _ v d) = get k d

-- the keys, if all are exact strs
unfoldable pub text_keys : Entries → Option (List Text)
text_keys end = some []
text_keys (entry (text k) v d) = elim (text_keys d) [ none ↦ none | some ks ↦ some (k ∷ ks) ]
text_keys (entry _ v d) = none

abbrev pub all_in : List Text → List Text → Bool
all_in [] ts = true
all_in (s ∷ ss) ts = text_in s ts && all_in ss ts

-- `set(ks) == set(fields)`
abbrev pub same_set : List Text → List Text → Bool
same_set ks fields = all_in ks fields && all_in fields ks

-- `type(value) is str`
abbrev pub as_text : Value → Option Text
as_text (text t) = some t
as_text _ = none

-- `type(value) is int and lo <= value <= hi`, with the value read; no bound of the source is negative
unfoldable pub int_in : ℕ → ℕ → Value → Option ℕ
int_in lo hi (integer (pos n)) = keep_if (leb lo n && leb n hi) (some n)
int_in lo hi _ = none

-- `type(value) is int and lo <= value <= hi - 1`, with the value read
unfoldable pub int_below : ℕ → ℕ → Value → Option ℕ
int_below lo hi (integer (pos n)) = keep_if (leb lo n && ltb n hi) (some n)
int_below lo hi _ = none

-- `type(value) is str and pattern.fullmatch(value) is not None`, with the value read
unfoldable pub text_matching : (Text → Bool) → Value → Option Text
text_matching pattern (text t) = keep_if (pattern t) (some t)
text_matching pattern _ = none

pub int_in_bounds : (lo hi : ℕ) (v : Value) → OnRead (λ n. (lo ≤ n) × (n ≤ hi)) (int_in lo hi v)
unfolding int_in
int_in_bounds lo hi (integer (pos n)) = ground arith
int_in_bounds lo hi (integer (negsuc n)) = tt
int_in_bounds lo hi _ = tt

pub int_below_bounds :
    (lo hi : ℕ) (v : Value) → OnRead (λ n. (lo ≤ n) × (n < hi)) (int_below lo hi v)
unfolding int_below
int_below_bounds lo hi (integer (pos n)) = ground arith
int_below_bounds lo hi (integer (negsuc n)) = tt
int_below_bounds lo hi _ = tt

pub text_matching-matches :
    (pattern : Text → Bool) (v : Value) → OnRead (λ t. pattern t ≡ true) (text_matching pattern v)
unfolding text_matching
text_matching-matches pattern (text t) = ground arith
text_matching-matches pattern _ = tt

-- The same of a value that was itself read.
pub read-int_in :
    (lo hi : ℕ) (o : Option Value) {n : ℕ} → (o >>= int_in lo hi) ≡ some n → (lo ≤ n) × (n ≤ hi)
read-int_in lo hi none h = cc
read-int_in lo hi (some v) h = OnRead-at _ _ (int_in_bounds lo hi v) h

pub read-int_below :
    (lo hi : ℕ) (o : Option Value) {n : ℕ} → (o >>= int_below lo hi) ≡ some n → (lo ≤ n) × (n < hi)
read-int_below lo hi none h = cc
read-int_below lo hi (some v) h = OnRead-at _ _ (int_below_bounds lo hi v) h

pub read-text_matching :
    (pattern : Text → Bool) (o : Option Value) {t : Text}
    → (o >>= text_matching pattern) ≡ some t
    → pattern t ≡ true
read-text_matching pattern none h = cc
read-text_matching pattern (some v) h = OnRead-at _ _ (text_matching-matches pattern v) h

-- A value that passes its check is read as it is.
pub int_in-pos : (lo hi n : ℕ) → lo ≤ n → n ≤ hi → int_in lo hi (integer (pos n)) ≡ some n
unfolding int_in
int_in-pos lo hi n l h = ground arith

pub text_matching-text :
    (pattern : Text → Bool) (t : Text) → pattern t ≡ true → text_matching pattern (text t) ≡ some t
unfolding text_matching
text_matching-text pattern t h = rw h
