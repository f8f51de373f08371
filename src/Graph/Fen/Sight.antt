-- ===== src/Graph/Fen/Sight.antt =====
-- The walk of a slider of graph/fen.py against a description without a bound on its length.
use openchess.Base.{
  Bool-cases, Option-cases, Text, arith, false, inl, inr, ltb, ltb→lt, none, refl, some, suc, true,
  zero, ℕ, ◌+◌, ◌-◌, ◌<◌, ◌↔◌, ◌≡◌, ◌≤◌,
}
use openchess.Base.Maybe.{OnRead, OnRead-bind, OnRead-at}
use openchess.Python.Values.{ℤ, pos, negsuc}
use openchess.Chess.Castling.{has}
use openchess.Graph.Fen.{Board, get}
use openchess.Graph.Fen.Attack.{Delta, step, inside, walk, moved}

-- From a square on, in the direction of the delta, the first piece on the board is a wanted one.
pub data Sees (board : Board) (want : Text) (d : Delta) : ℕ → ℕ → Type 0 where
  here :
      {f r piece : ℕ}
      → inside f r ≡ true
      → get f r board ≡ some piece
      → has piece want ≡ true
      → Sees board want d f r
  beyond :
      {f r g q : ℕ}
      → inside f r ≡ true
      → get f r board ≡ none
      → step (f, r) d ≡ some (g, q)
      → Sees board want d g q
      → Sees board want d f r

-- How many squares a walk has left on the board.
room : Delta → ℕ → ℕ → ℕ
room (pos (suc a), dr) f r = 8 - f
room (negsuc a, dr) f r = f + 1
room (pos zero, pos (suc b)) f r = 9 - r
room (pos zero, negsuc b) f r = r
room (pos zero, pos zero) f r = 0

-- A delta that leads to another square.
unfoldable pub Moving : Delta → Type 0
Moving (pos zero, pos zero) = ⊥
Moving _ = Unit

-- A coordinate that is moved.
Shifted : ℕ → ℤ → ℕ → Type 0
Shifted f (pos n) g = g ≡ f + n
Shifted f (negsuc n) g = f ≡ g + suc n

moved-Shifted : (f : ℕ) (z : ℤ) → OnRead (Shifted f z) (moved f z)
unfolding moved Shifted
moved-Shifted f (pos n) = refl
moved-Shifted f (negsuc n) = elim (Bool-cases (ltb n f)) [
  | inl e ↦ let above : n < f = ltb→lt n f e in rw e (omega arith)
  | inr e ↦ rw e tt
]

Stepped : ℕ → ℕ → Delta → ℕ × ℕ → Type 0
Stepped f r (df, dr) (g, q) = Shifted f df g × Shifted r dr q

step-Stepped : (f r : ℕ) (d : Delta) → OnRead (Stepped f r d) (step (f, r) d)
unfolding step Stepped
step-Stepped f r (df, dr) =
    let P = Stepped f r (df, dr) in
    OnRead-bind P (moved f df) _ λ nf e.
      OnRead-bind P (moved r dr) (λ nr. some (nf, nr))
        λ nr h. (
          OnRead-at (Shifted f df) _ (moved-Shifted f df) e,
          OnRead-at (Shifted r dr) _ (moved-Shifted r dr) h,
        )

inside-bounds : (f r : ℕ) → inside f r ≡ true → (f < 8) × (1 ≤ r) × (r ≤ 8)
unfolding inside
inside-bounds f r e = (ground (arith, e), ground (arith, e), ground (arith, e))

room-step :
    (d : Delta) (f r g q : ℕ)
    → Moving d
    → inside f r ≡ true
    → step (f, r) d ≡ some (g, q)
    → room d g q < room d f r
unfolding room Moving Stepped Shifted
room-step d f r g q m i e =
    smaller d m (OnRead-at (Stepped f r d) _ (step-Stepped f r d) e) (inside-bounds f r i)
  where
    smaller :
        (d : Delta)
        → Moving d
        → Stepped f r d (g, q)
        → (f < 8) × (1 ≤ r) × (r ≤ 8)
        → room d g q < room d f r
    smaller (pos (suc a), dr) m (s, t) b = omega (arith, s, b)
    smaller (negsuc a, dr) m (s, t) b = omega (arith, s, b)
    smaller (pos zero, pos (suc b)) m (s, t) k = omega (arith, t, k)
    smaller (pos zero, negsuc b) m (s, t) k = omega (arith, t, k)
    smaller (pos zero, pos zero) m (s, t) k = absurd m

room-inside :
    (d : Delta) (f r : ℕ) → Moving d → inside f r ≡ true → (1 ≤ room d f r) × (room d f r ≤ 8)
unfolding room Moving
room-inside (pos (suc a), dr) f r m i = (omega (arith, inside-bounds f r i), omega arith)
room-inside (negsuc a, dr) f r m i = (omega arith, omega (arith, inside-bounds f r i))
room-inside (pos zero, pos (suc b)) f r m i =
    (omega (arith, inside-bounds f r i), omega (arith, inside-bounds f r i))
room-inside (pos zero, negsuc b) f r m i =
    (omega (arith, inside-bounds f r i), omega (arith, inside-bounds f r i))
room-inside (pos zero, pos zero) f r m i = absurd m

walk-none : (board : Board) (want : Text) (d : Delta) (n : ℕ) → walk n board want d none ≡ false
unfolding walk
walk-none board want d zero = refl
walk-none board want d (suc n) = refl

walk-Sees :
    (board : Board) (want : Text) (d : Delta) (n f r : ℕ)
    → walk n board want d (some (f, r)) ≡ true
    → Sees board want d f r
unfolding walk
walk-Sees board want d zero f r h = cc
walk-Sees board want d (suc n) f r h = elim (Bool-cases (inside f r)) [
  | inl i ↦ elim (Option-cases (get f r board)) [
    | inl e ↦ elim (Option-cases (step (f, r) d)) [
      | inl s ↦ absurd (cc (rw (i, e, s) at h, walk-none board want d n))
      | inr ((g, q), s) ↦ beyond i e s (walk-Sees board want d n g q (rw (i, e, s) at h))
    ]
    | inr (piece, e) ↦ here i e (rw (i, e) at h)
  ]
  | inr o ↦ absurd (cc (rw o at h))
]

Sees-walk :
    (board : Board) (want : Text) (d : Delta) (n f r : ℕ)
    → Moving d
    → Sees board want d f r
    → room d f r ≤ n
    → walk n board want d (some (f, r)) ≡ true
unfolding walk
Sees-walk board want d zero f r m (here i e w) l = absurd (omega (arith, room-inside d f r m i))
Sees-walk board want d zero f r m (beyond i e s k) l = absurd (omega (arith, room-inside d f r m i))
Sees-walk board want d (suc n) f r m (here i e w) l = rw (i, e) w
Sees-walk board want d (suc n) f r m (beyond {g} {q} i e s k) l =
    rw (i, e, s) (Sees-walk board want d n g q m k (omega (arith, room-step d f r g q m i s)))

Sees-inside :
    (board : Board) (want : Text) (d : Delta) (f r : ℕ) → Sees board want d f r → inside f r ≡ true
Sees-inside board want d f r (here i e w) = i
Sees-inside board want d f r (beyond i e s k) = i

-- The walk of a slider in a direction that leads on finds a wanted piece exactly when one is the first
-- piece from its square on, however far; eight rounds or any more are enough for this.
pub walk_iff :
    (board : Board) (want : Text) (d : Delta) (n f r : ℕ)
    → Moving d
    → 8 ≤ n
    → (walk n board want d (some (f, r)) ≡ true) ↔ Sees board want d f r
walk_iff board want d n f r m enough = (
  walk-Sees board want d n f r,
  λ k.
      let i = Sees-inside board want d f r k in
      Sees-walk board want d n f r m k (omega (arith, room-inside d f r m i, enough)),
)
