-- ===== src/Graph/Fen/RoundTrip.antt =====
-- A FEN text against the text that `emit_fen` of graph/fen.py writes for its position.
use openchess.Base.{
  ==→eq, All, Bool-cases, List, Text, [], ap, arith, codes, false, inl, inr, leb, length, none, not,
  refl, some, suc, sym, text_eq, text_eq_sound, text_in, true, ℕ, ◌&&◌, ◌++◌, ◌-◌, ◌<◌, ◌==◌, ◌||◌,
  ◌∙◌, ◌∷◌, ◌≡◌, ◌≤◌,
}
use openchess.Python.Dumps.{decimal}
use openchess.Chess.Castling.{grammar_ok, held, or_none}
use mathlib.Core.Path.{subst}
use mathlib.Core.List.{append_assoc}
use openchess.Base.Maybe.{guard, OnRead, OnRead-bind, OnRead-at, guard-eq-some, OnRead-weaken}
use openchess.Graph.Fen.{Board, Position, get, split, join, split_first}
use openchess.Graph.Fen.Read.{
  read_rank, read_ranks, read_placement, read_counter, read_rights, read_ep, read_fields,
  read_parts, digits_value, digits_only,
}
use openchess.Graph.Fen.Emit.{emit_row, emit_ranks, emit_fen, emit_ep}
use openchess.Graph.Fen.Row.{Within, read_rank-Within, emit_row-read_rank}

-- The entries of ranks above and up to one.
Above : ℕ → Board → Type 0
Above rank es = All (λ p. rank < p.rank) es

UpTo : ℕ → Board → Type 0
UpTo rank es = All (λ p. p.rank ≤ rank) es

All-append {ℓ κ} :
    {A : Type ℓ} (P : A → Type κ) (xs ys : List A) → All P xs → All P ys → All P (xs ++ ys)
All-append P [] ys h k = k
All-append P (x ∷ xs) ys (h, hs) k = (h, All-append P xs ys hs k)

All-map {ℓ κ μ} :
    {A : Type ℓ} {P : A → Type κ} {Q : A → Type μ} (xs : List A)
    → ((x : A) → P x → Q x)
    → All P xs
    → All Q xs
All-map [] f h = tt
All-map (x ∷ xs) f (h, hs) = (f x h, All-map xs f hs)

get-Above : (g rank : ℕ) (xs ys : Board) → Above rank xs → get g rank (xs ++ ys) ≡ get g rank ys
unfolding get Above
get-Above g rank [] ys h = refl
get-Above g rank (p ∷ xs) ys (h, hs) =
    let apart : ((p.file == g) && (p.rank == rank)) ≡ false = ground (arith, h) in
    rw apart (get-Above g rank xs ys hs)

get-UpTo-none : (g rank r : ℕ) (ys : Board) → UpTo r ys → r < rank → get g rank ys ≡ none
unfolding get UpTo
get-UpTo-none g rank r [] h l = refl
get-UpTo-none g rank r (p ∷ ys) (h, hs) l =
    let apart : ((p.file == g) && (p.rank == rank)) ≡ false = ground (arith, h, l) in
    rw apart (get-UpTo-none g rank r ys hs l)

get-UpTo :
    (g rank r : ℕ) (xs ys : Board) → UpTo r ys → r < rank → get g rank (xs ++ ys) ≡ get g rank xs
unfolding get
get-UpTo g rank r [] ys h l = get-UpTo-none g rank r ys h l
get-UpTo g rank r (p ∷ xs) ys h l = rw (get-UpTo g rank r xs ys h l) refl

read_ranks-UpTo : (rank : ℕ) (ts : List Text) → OnRead (UpTo rank) (read_ranks rank ts)
unfolding read_ranks UpTo Within
read_ranks-UpTo rank [] = tt
read_ranks-UpTo rank (t ∷ ts) = OnRead-bind (UpTo rank) (read_rank rank 0 false t) _ λ row e.
    OnRead-bind (UpTo rank) (read_ranks (rank - 1) ts) _ λ rest h.
      All-append (λ p. p.rank ≤ rank) row rest
        (All-map row (λ p k. omega (arith, k.1)) (read_rank-Within rank 0 false t row e))
        (All-map rest (λ p k. omega (arith, k))
          (OnRead-at (UpTo (rank - 1)) _ (read_ranks-UpTo (rank - 1) ts) h))

-- What is read of some ranks is written as they were, whatever is on the ranks above.
Written : List Text → Board → Type 0
Written ts es =
    (above : Board) → Above (length ts) above → emit_ranks (above ++ es) (length ts) ≡ ts

read_ranks-Written :
    (rank : ℕ) (ts : List Text) → rank ≡ length ts → OnRead (Written ts) (read_ranks rank ts)
unfolding read_ranks Written Within emit_ranks Above openchess.Graph.Fen.Emit.flush
read_ranks-Written rank [] top = λ above h. refl
read_ranks-Written rank (t ∷ ts) top =
    OnRead-bind (Written (t ∷ ts)) (read_rank rank 0 false t) _ λ row e.
      OnRead-bind (Written (t ∷ ts)) (read_ranks (rank - 1) ts) (λ rest. some (row ++ rest))
        λ rest h above k.
          let n = length ts in
          let board = above ++ (row ++ rest) in
          let k' : Above rank above = rw top k in
          let below = OnRead-at (UpTo (rank - 1)) _ (read_ranks-UpTo (rank - 1) ts) h in
          let row_written : emit_row board (suc n) 8 0 0 ≡ t =
            subst (λ r. emit_row board r 8 0 0 ≡ t) top
              (emit_row-read_rank board rank 8 0 0 false t row e refl (λ _. refl)
                λ g _.
                  get-Above g rank above (row ++ rest) k'
                  ∙ get-UpTo g rank (rank - 1) row rest below (omega arith)) in
          let on_top =
            All-append (λ p. n < p.rank) above row (All-map above (λ p l. omega (arith, l)) k)
              (All-map row (λ p l. omega (arith, l.1)) (read_rank-Within rank 0 false t row e)) in
          let rest_written : emit_ranks board n ≡ ts =
            subst (λ b. emit_ranks b n ≡ ts) (append_assoc above row rest)
              (OnRead-at (Written ts) _ (read_ranks-Written (rank - 1) ts (omega arith)) h
                (above ++ row) on_top) in
          rw (row_written, rest_written) refl

join-first :
    (sep c : ℕ) (part : Text) (parts : List Text)
    → join sep ((c ∷ part) ∷ parts) ≡ (c ∷ join sep (part ∷ parts))
unfolding join
join-first sep c part [] = refl
join-first sep c part (next ∷ parts) = refl

join-split : (sep : ℕ) (s : Text) → join sep (split sep s) ≡ s
unfolding split_first join
join-split sep [] = refl
join-split sep (c ∷ s) = elim (Bool-cases (c == sep)) [
  | inl e ↦ rw (e, join-split sep s, ==→eq c sep e) refl
  | inr e ↦
      let rest = split_first sep s in rw (e, join-first sep c rest.0 rest.1, join-split sep s) refl
]

read_placement-emits :
    (placement : Text)
    → OnRead (λ board. join b'/' (emit_ranks board 8) ≡ placement) (read_placement placement)
unfolding read_placement Written Above
read_placement-emits placement =
    let P = λ (board : Board). join b'/' (emit_ranks board 8) ≡ placement in
    let ts = split b'/' placement in
    OnRead-bind P (guard (length ts == 8)) (λ _. read_ranks 8 ts)
      λ _ g.
        let eight : length ts ≡ 8 = ==→eq (length ts) 8 (guard-eq-some (length ts == 8) g) in
        OnRead-weaken (Written ts) P (read_ranks 8 ts) (read_ranks-Written 8 ts (sym eight)) λ es h.
          let written : emit_ranks es 8 ≡ ts = subst (λ n. emit_ranks es n ≡ ts) eight (h [] tt) in
          ap (join b'/') written ∙ join-split b'/' placement

or_none-held : (castling : Text) → grammar_ok castling ≡ true → or_none (held castling) ≡ castling
unfolding held grammar_ok text_eq
or_none-held [] g = cc
or_none-held (c ∷ s) g = elim (Bool-cases (text_eq (c ∷ s) (codes "-"))) [
  | inl e ↦ rw e (sym (text_eq_sound (c ∷ s) (codes "-") e))
  | inr e ↦ rw e refl
]

read_rights-emits : (castling : Text) → OnRead (λ r. or_none r ≡ castling) (read_rights castling)
unfolding read_rights
read_rights-emits castling =
    OnRead-bind (λ r. or_none r ≡ castling) (guard (grammar_ok castling))
      (λ _. some (held castling))
      λ _ g. or_none-held castling (guard-eq-some (grammar_ok castling) g)

read_ep-emits : (ep : Text) → OnRead (λ e. emit_ep e ≡ ep) (read_ep ep)
unfolding read_ep
read_ep-emits [] = tt
read_ep-emits (c ∷ []) =
    OnRead-bind (λ e. emit_ep e ≡ (c ∷ [])) (guard (c == b'-')) (λ _. some none)
      λ _ g. ap (λ d. d ∷ []) (sym (==→eq c b'-' (guard-eq-some (c == b'-') g)))
read_ep-emits (f ∷ (r ∷ [])) =
    OnRead-bind (λ e. emit_ep e ≡ (f ∷ (r ∷ [])))
      (guard ((leb b'a' f && leb f b'h') && ((r == b'3') || (r == b'6')))) (λ _. some (some (f, r)))
      λ _ g. refl
read_ep-emits (f ∷ (r ∷ (c ∷ s))) = tt

module _ (int_limit : ℕ) where
  read_counter-emits :
      (least : ℕ) (value : Text)
      → OnRead (λ n. decimal n ≡ value) (read_counter int_limit least value)
  unfolding read_counter
  read_counter-emits least value =
      let P = λ (n : ℕ). decimal n ≡ value in
      let number = digits_value 0 value in
      OnRead-bind P (guard (not (text_eq value []) && digits_only value)) _ λ _ _.
        OnRead-bind P (guard (leb (length value) int_limit)) _ λ _ _.
          OnRead-bind P (guard (text_eq value (decimal number))) _ λ _ g.
            OnRead-bind P (guard (leb least number)) (λ _. some number)
              λ _ _. sym (
                text_eq_sound value (decimal number)
                  (guard-eq-some (text_eq value (decimal number)) g))

  read_parts-emits :
      (parts : List Text) → OnRead (λ p. emit_fen p ≡ join b' ' parts) (read_parts int_limit parts)
  unfolding emit_fen
  read_parts-emits (placement ∷ (color ∷ (castling ∷ (ep ∷ (half ∷ (full ∷ [])))))) =
      let P = λ (p : Position).
        emit_fen p ≡ join b' ' (placement ∷ (color ∷ (castling ∷ (ep ∷ (half ∷ (full ∷ [])))))) in
      OnRead-bind P (read_placement placement) _ λ board e.
        OnRead-bind P (guard (text_in color (codes "w" ∷ (codes "b" ∷ [])))) _ λ _ _.
          OnRead-bind P (read_counter int_limit 0 half) _ λ half_i h.
            OnRead-bind P (read_counter int_limit 1 full) _ λ full_i k.
              OnRead-bind P (read_rights castling) _ λ rights r.
                OnRead-bind P (read_ep ep) _ λ ep_square s.
                  rw
                    (
                      OnRead-at (λ b. join b'/' (emit_ranks b 8) ≡ placement) _
                          (read_placement-emits placement) e,
                      OnRead-at (λ t. or_none t ≡ castling) _ (read_rights-emits castling) r,
                      OnRead-at (λ t. emit_ep t ≡ ep) _ (read_ep-emits ep) s,
                      OnRead-at (λ n. decimal n ≡ half) _ (read_counter-emits 0 half) h,
                      OnRead-at (λ n. decimal n ≡ full) _ (read_counter-emits 1 full) k,
                    )
                    refl
  read_parts-emits [] = tt
  read_parts-emits (a ∷ []) = tt
  read_parts-emits (a ∷ (b ∷ [])) = tt
  read_parts-emits (a ∷ (b ∷ (c ∷ []))) = tt
  read_parts-emits (a ∷ (b ∷ (c ∷ (d ∷ [])))) = tt
  read_parts-emits (a ∷ (b ∷ (c ∷ (d ∷ (e ∷ []))))) = tt
  read_parts-emits (a ∷ (b ∷ (c ∷ (d ∷ (e ∷ (f ∷ (g ∷ rest))))))) = tt

  -- x
  pub emit_fen-read_fields :
      (fen : Text) → OnRead (λ p. emit_fen p ≡ fen) (read_fields int_limit fen)
  unfolding read_fields
  emit_fen-read_fields fen =
      let P = λ (p : Position). emit_fen p ≡ fen in
      let parts = split b' ' fen in
      OnRead-bind P (guard (not (text_in [] parts))) _ λ _ _.
        OnRead-weaken (λ (p : Position). emit_fen p ≡ join b' ' parts) P
          (read_parts int_limit parts) (read_parts-emits parts) λ p h. h ∙ join-split b' ' fen
