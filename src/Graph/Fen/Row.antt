-- ===== src/Graph/Fen/Row.antt =====
-- A rank of a FEN text against the rank that is written for it: graph/fen.py.
use openchess.Base.{
  All, Bool, Bool-cases, Text, [], ap, arith, codes, false, inl, inr, none, not, refl, some, suc,
  sym, true, zero, ℕ, ◌++◌, ◌+◌, ◌-◌, ◌<◌, ◌==◌, ◌∙◌, ◌∷◌, ◌≡◌, ◌≤◌, ◌⊎◌,
}
use openchess.Python.Dumps.{decimal-digit}
use openchess.Chess.Castling.{has}
use mathlib.Core.Path.{subst}
use mathlib.Core.List.{append-nil}
use openchess.Base.Maybe.{guard, OnRead, OnRead-bind, OnRead-at, guard-eq-some, guarded-eq-some}
use openchess.Graph.Fen.{Board, get}
use openchess.Graph.Fen.Read.{read_rank, is_run}
use openchess.Graph.Fen.Emit.{emit_row, flush}

-- What one character of a rank that is read was: a run of empty squares or a piece.
Step : ℕ → ℕ → Bool → ℕ → Text → Board → Type 0
Step rank f prev ch s es =
    ((is_run ch ≡ true) × (prev ≡ false) × (read_rank rank (f + (ch - 48)) true s ≡ some es))
    ⊎ ((rest : Board) × (read_rank rank (f + 1) false s ≡ some rest)
        × (es ≡ (record { file = f; rank = rank; piece = ch } ∷ rest)))

read_rank-Step :
    (rank f : ℕ) (prev : Bool) (ch : ℕ) (s : Text)
    → OnRead (Step rank f prev ch s) (read_rank rank f prev (ch ∷ s))
unfolding read_rank Step
read_rank-Step rank f prev ch s =
    let P = Step rank f prev ch s in
    elim (Bool-cases (is_run ch)) [
      | inl e ↦ rw e (
          OnRead-bind P (guard (not prev)) _ λ _ g.
            OnRead-bind P (read_rank rank (f + (ch - 48)) true s) _
              λ rest h. inl (e, ground (arith, guard-eq-some _ g), h))
      | inr e ↦ rw e (
          OnRead-bind P (guard (has ch (codes "pnbrqkPNBRQK"))) _
            λ _ g. OnRead-bind P (read_rank rank (f + 1) false s) _ λ rest h. inr (rest, h, refl))
    ]

is_run-bound : (ch : ℕ) → is_run ch ≡ true → (49 ≤ ch) × (ch ≤ 56)
unfolding is_run
is_run-bound ch e = (ground arith, ground arith)

-- A rank that is read ends on the eighth file.
read_rank-bound :
    (rank f : ℕ) (prev : Bool) (s : Text) (es : Board) → read_rank rank f prev s ≡ some es → f ≤ 8
unfolding read_rank Step
read_rank-bound rank f prev [] es h = ground (arith, guard-eq-some (f == 8))
read_rank-bound rank f prev (ch ∷ s) es h =
    elim (OnRead-at (Step rank f prev ch s) _ (read_rank-Step rank f prev ch s) h) [
      | inl (e, p, k) ↦ omega (arith, read_rank-bound rank (f + (ch - 48)) true s es k)
      | inr (rest, k, e) ↦ omega (arith, read_rank-bound rank (f + 1) false s rest k)
    ]

-- The entries of a rank are on it, from the first file on.
unfoldable pub Within : ℕ → ℕ → Board → Type 0
Within rank f es = All (λ p. (f ≤ p.file) × (p.rank ≡ rank)) es

Within-from : (rank f g : ℕ) (es : Board) → g ≤ f → Within rank f es → Within rank g es
unfolding Within
Within-from rank f g [] h k = tt
Within-from rank f g (p ∷ es) h (k, ks) =
    ((omega (arith, h, k.0), k.1), Within-from rank f g es h ks)

pub read_rank-Within :
    (rank f : ℕ) (prev : Bool) (s : Text) (es : Board)
    → read_rank rank f prev s ≡ some es
    → Within rank f es
unfolding read_rank Step Within
read_rank-Within rank f prev [] es h =
    subst (λ es. All (λ p. (f ≤ p.file) × (p.rank ≡ rank)) es)
      (guarded-eq-some {A = Board} (f == 8) [] h).1 tt
read_rank-Within rank f prev (ch ∷ s) es h =
    elim (OnRead-at (Step rank f prev ch s) _ (read_rank-Step rank f prev ch s) h) [
      | inl (e, p, k) ↦
          Within-from rank (f + (ch - 48)) f es (omega arith)
            (read_rank-Within rank (f + (ch - 48)) true s es k)
      | inr (rest, k, e) ↦ rw e (
        (omega arith, refl),
        Within-from rank (f + 1) f rest (omega arith)
            (read_rank-Within rank (f + 1) false s rest k),
      )
    ]

get-before : (rank f g : ℕ) (es : Board) → Within rank f es → g < f → get g rank es ≡ none
unfolding get Within
get-before rank f g [] w h = refl
get-before rank f g (p ∷ es) (w, ws) h =
    let apart : (p.file == g) ≡ false = ground (arith, w.0) in
    rw apart (get-before rank f g es ws h)

get-after :
    (f rank piece g : ℕ) (es : Board)
    → f < g
    → get g rank (record { file = f; rank = rank; piece = piece } ∷ es) ≡ get g rank es
unfolding get
get-after f rank piece g es h = let apart : (f == g) ≡ false = ground arith in rw apart refl

get-at :
    (f rank piece : ℕ) (es : Board)
    → get f rank (record { file = f; rank = rank; piece = piece } ∷ es) ≡ some piece
unfolding get
get-at f rank piece es =
    let file : (f == f) ≡ true = ground arith in
    let same : (rank == rank) ≡ true = ground arith in rw (file, same) refl

emit_row-empty :
    (board : Board) (rank n f empty : ℕ)
    → get f rank board ≡ none
    → emit_row board rank (suc n) f empty ≡ emit_row board rank n (f + 1) (empty + 1)
unfolding emit_row
emit_row-empty board rank n f empty h = rw (emit_row, h) refl

emit_row-piece :
    (board : Board) (rank n f empty piece : ℕ)
    → get f rank board ≡ some piece
    → emit_row board rank (suc n) f empty
      ≡ (flush empty ++ (piece ∷ emit_row board rank n (f + 1) 0))
unfolding emit_row
emit_row-piece board rank n f empty piece h = rw (emit_row, h) refl

-- Empty squares are counted.
emit_row-skip :
    (board : Board) (rank d n m f g empty count : ℕ)
    → m ≡ d + n
    → g ≡ f + d
    → count ≡ empty + d
    → ((i : ℕ) → f ≤ i → i < g → get i rank board ≡ none)
    → emit_row board rank m f empty ≡ emit_row board rank n g count
emit_row-skip board rank zero n m f g empty count em eg ec h =
    let em' : m ≡ n = omega arith in
    let eg' : g ≡ f = omega arith in
    let ec' : count ≡ empty = omega arith in rw (em', eg', ec') refl
emit_row-skip board rank (suc d) n zero f g empty count em eg ec h = absurd (omega arith)
emit_row-skip board rank (suc d) n (suc m) f g empty count em eg ec h =
    emit_row-empty board rank m f empty (h f (omega arith) (omega arith))
    ∙ emit_row-skip board rank d n m (f + 1) g (empty + 1) count (omega arith) (omega arith)
        (omega arith) λ i p q. h i (omega arith) q

-- The count of a run is written as the digit that was read.
flush-digit : (n ch : ℕ) → ch ≡ 48 + n → is_run ch ≡ true → flush n ≡ (ch ∷ [])
unfolding flush
flush-digit zero ch c e = absurd (omega (arith, is_run-bound ch e))
flush-digit (suc n) ch c e = decimal-digit (suc n) (omega (arith, is_run-bound ch e)) ∙ rw c refl

-- A rank that is read is written as it was, from the board that has its entries on the rank.
pub emit_row-read_rank :
    (board : Board) (rank n f empty : ℕ) (prev : Bool) (s : Text) (es : Board)
    → read_rank rank f prev s ≡ some es
    → n + f ≡ 8
    → (prev ≡ false → empty ≡ 0)
    → ((g : ℕ) → f ≤ g → get g rank board ≡ get g rank es)
    → emit_row board rank n f empty ≡ flush empty ++ s
unfolding Step read_rank flush emit_row
emit_row-read_rank board rank zero f empty prev [] es h total counted agree =
    sym (append-nil (flush empty))
emit_row-read_rank board rank (suc n) f empty prev [] es h total counted agree =
    let ended : f ≡ 8 = ground (arith, guarded-eq-some {A = Board} (f == 8) [] h) in
    absurd (omega (arith, ended))
emit_row-read_rank board rank n f empty prev (ch ∷ s) es h total counted agree =
    elim (OnRead-at (Step rank f prev ch s) _ (read_rank-Step rank f prev ch s) h) [
      | inl (e, p, k) ↦
          let d = ch - 48 in
          let bound = is_run-bound ch e in
          let fits : f + d ≤ 8 = read_rank-bound rank (f + d) true s es k in
          let within = read_rank-Within rank (f + d) true s es k in
          rw (counted p) (
            emit_row-skip board rank d (n - d) n f (f + d) 0 d (omega arith) refl (omega arith)
              (λ i q r. agree i q ∙ get-before rank (f + d) i es within r)
            ∙ emit_row-read_rank board rank (n - d) (f + d) d true s es k (omega arith) (λ x. cc)
                (λ i q. agree i (omega arith))
            ∙ ap (λ t. t ++ s) (flush-digit d ch (omega (arith, bound)) e))
      | inr (rest, k, e) ↦
          let fits : f + 1 ≤ 8 = read_rank-bound rank (f + 1) false s rest k in
          let last : suc (n - 1) ≡ n = omega arith in
          let here : get f rank board ≡ some ch =
            agree f (omega arith) ∙ rw e (get-at f rank ch rest) in
          subst (λ m. emit_row board rank m f empty ≡ flush empty ++ (ch ∷ s)) last
            (emit_row-piece board rank (n - 1) f empty ch here
              ∙ ap (λ t. flush empty ++ (ch ∷ t))
                  (emit_row-read_rank board rank (n - 1) (f + 1) 0 false s rest k (omega arith)
                    (λ x. refl)
                    λ g q. agree g (omega arith) ∙ rw e (get-after f rank ch g rest (omega arith))))
    ]
