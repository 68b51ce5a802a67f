-- ===== src/Slices/Split.antt =====
-- `slice_seek_to` and the splitter.
use mathlib.Core.List.{append-nil}
use redlib.Prelude.{
  ℕ, zero, suc, ◌+◌, ◌≤◌, ◌≡◌, ◌≢◌, refl, sym, ap, ◌∙◌, Bool, false, not, ◌&&◌, List, [], ◌∷◌, ◌++◌,
  none, some, All, arith, length, drop, take, if◌then◌else◌, ◌==◌, Bool-cases, inl, inr,
  length-append,
}
use redlib.Slices.{slice_seek_to, piece_size, advance, get_current, pieces}

abbrev pub Lacks : ℕ → List ℕ → Type 0
Lacks sep = All (λ c. c ≢ sep)

seek_to-append : (p s : List ℕ) (sep : ℕ) → Lacks sep p → slice_seek_to (p ++ sep ∷ s) sep ≡ some s
unfolding slice_seek_to
seek_to-append [] s sep h = ground arith
seek_to-append (c ∷ p) s sep h = ground (arith, h.0, seek_to-append p s sep h.1)

seek_to-none : (p : List ℕ) (sep : ℕ) → Lacks sep p → slice_seek_to p sep ≡ none
unfolding slice_seek_to
seek_to-none [] sep h = refl
seek_to-none (c ∷ p) sep h = ground (arith, h.0, seek_to-none p sep h.1)

get_current_lem : (p : List ℕ) (sep : ℕ) → Lacks sep p → get_current sep p ≡ p
unfolding get_current
get_current_lem [] sep h = refl
get_current_lem (c ∷ []) sep h = ground (arith, h.0)
get_current_lem (c ∷ d ∷ p) sep h = ap (◌∷◌ c) (get_current_lem (d ∷ p) sep h.1)

take_front : (p s : List ℕ) (n : ℕ) → n ≡ length p → take n (p ++ s) ≡ p
take_front [] s zero h = refl
take_front [] s (suc n) h = absurd (omega arith)
take_front (c ∷ p) s zero h = absurd (omega arith)
take_front (c ∷ p) s (suc n) h = ap (◌∷◌ c) (take_front p s n (omega arith))

drop_front : (p s : List ℕ) (sep n : ℕ) → n ≡ suc (length p) → drop n (p ++ sep ∷ s) ≡ s
drop_front [] s sep zero h = absurd (omega arith)
drop_front [] s sep (suc zero) h = refl
drop_front [] s sep (suc (suc n)) h = absurd (omega arith)
drop_front (c ∷ p) s sep zero h = absurd (omega arith)
drop_front (c ∷ p) s sep (suc n) h = drop_front p s sep n (omega arith)

drop_past : (p : List ℕ) (n : ℕ) → length p ≤ n → drop n p ≡ []
drop_past [] zero h = refl
drop_past [] (suc n) h = refl
drop_past (c ∷ p) zero h = absurd (omega arith)
drop_past (c ∷ p) (suc n) h = drop_past p n (omega arith)

piece_size-front :
    (p : List ℕ) (sep c : ℕ) (s : List ℕ)
    → Lacks sep p
    → piece_size sep (p ++ sep ∷ c ∷ s) ≡ length p
unfolding piece_size
piece_size-front p sep c s h =
    rw (piece_size, seek_to-append p (c ∷ s) sep h) (omega (arith, length-append p (sep ∷ c ∷ s)))

piece_size-last : (p : List ℕ) (sep : ℕ) → Lacks sep p → piece_size sep p ≡ length p
unfolding piece_size
piece_size-last p sep h = rw (piece_size, seek_to-none p sep h) refl

advance-step :
    (allow : Bool) (sep : ℕ) (c : ℕ) (s : List ℕ) (n : ℕ)
    → sep ≢ 0
    → piece_size sep (c ∷ s) ≡ n
    → advance allow sep (c ∷ s) ≡ (
        if (n == 0) && not allow
        then advance allow sep s
        else some (take n (c ∷ s), drop (n + 1) (c ∷ s)))
unfolding advance
advance-step allow sep c s n given e =
    let t : (sep == 0) ≡ false = ground (arith, given) in rw (t, e) refl

-- One step onto a piece in front of others, and onto the last one.
advance-front :
    (allow : Bool) (sep : ℕ) (p : List ℕ) (c : ℕ) (s : List ℕ)
    → sep ≢ 0
    → Lacks sep p
    → advance allow sep (p ++ sep ∷ c ∷ s)
      ≡ (if (length p == 0) && not allow then advance allow sep (c ∷ s) else some (p, c ∷ s))
advance-front allow sep [] c s given h =
    advance-step allow sep sep (c ∷ s) 0 given (piece_size-front [] sep c s h)
advance-front allow sep (d ∷ p) c s given h =
    let size = piece_size-front (d ∷ p) sep c s h in
    let nonzero : (suc (length p) == 0) ≡ false = ground arith in
    let front = take_front (d ∷ p) (sep ∷ c ∷ s) (suc (length p)) refl in
    let back = drop_front (d ∷ p) (c ∷ s) sep (suc (length p) + 1) (omega arith) in
    advance-step allow sep d (p ++ sep ∷ c ∷ s) (suc (length p)) given size
    ∙ rw (nonzero, front, back) refl

advance-last :
    (allow : Bool) (sep d : ℕ) (p : List ℕ)
    → sep ≢ 0
    → Lacks sep (d ∷ p)
    → advance allow sep (d ∷ p) ≡ some (d ∷ p, [])
advance-last allow sep d p given h =
    let nonzero : (suc (length p) == 0) ≡ false = ground arith in
    let front : take (suc (length p)) (d ∷ p) ≡ d ∷ p =
      ap (take (suc (length p))) (sym (append-nil (d ∷ p)))
      ∙ take_front (d ∷ p) [] (suc (length p)) refl in
    let back = drop_past (d ∷ p) (suc (length p) + 1) (omega arith) in
    advance-step allow sep d p (suc (length p)) given (piece_size-last (d ∷ p) sep h)
    ∙ rw (nonzero, front, back) refl

-- Pieces with a separator between any two of them, the last one not empty.
abbrev pub joined : ℕ → List (List ℕ) → List ℕ
joined sep [] = []
joined sep (p ∷ []) = p
joined sep (p ∷ q ∷ ps) = p ++ sep ∷ joined sep (q ∷ ps)

abbrev pub EndsFull : List (List ℕ) → Type 0
EndsFull [] = Unit
EndsFull (p ∷ []) = p ≢ []
EndsFull (p ∷ q ∷ ps) = EndsFull (q ∷ ps)

-- The pieces that are passed on.
abbrev pub kept : Bool → List (List ℕ) → List (List ℕ)
kept allow [] = []
kept allow (p ∷ ps) = if (length p == 0) && not allow then kept allow ps else p ∷ kept allow ps

joined-cons :
    (sep : ℕ) (q : List ℕ) (ps : List (List ℕ))
    → EndsFull (q ∷ ps)
    → (c : ℕ) × (s : List ℕ) × (joined sep (q ∷ ps) ≡ c ∷ s)
joined-cons sep [] [] full = absurd (full refl)
joined-cons sep (c ∷ q) [] full = (c, q, refl)
joined-cons sep [] (p ∷ ps) full = (sep, joined sep (p ∷ ps), refl)
joined-cons sep (c ∷ q) (p ∷ ps) full = (c, q ++ sep ∷ joined sep (p ∷ ps), refl)

pieces-none : (rounds : ℕ) (allow : Bool) (sep : ℕ) → pieces rounds allow sep [] ≡ []
unfolding pieces
pieces-none zero allow sep = refl
pieces-none (suc n) allow sep = refl

pieces-some :
    (n : ℕ) (allow : Bool) (sep : ℕ) (s p rest : List ℕ)
    → advance allow sep s ≡ some (p, rest)
    → pieces (suc n) allow sep s ≡ get_current sep p ∷ pieces n allow sep rest
unfolding pieces
pieces-some n allow sep s p rest e = rw (pieces, e) refl

pieces-same :
    (n : ℕ) (allow : Bool) (sep : ℕ) (s t : List ℕ)
    → advance allow sep s ≡ advance allow sep t
    → pieces (suc n) allow sep s ≡ pieces (suc n) allow sep t
unfolding pieces
pieces-same n allow sep s t e = rw (pieces, e) refl

-- The splitter gets the pieces of a text in their order, without the empty ones if it skips those,
-- for a separator other than 0 that no piece holds and a last piece that is not empty; as many
-- rounds as there are pieces are enough.
pub pieces-joined :
    (rounds : ℕ) (allow : Bool) (sep : ℕ) (ps : List (List ℕ))
    → length ps ≤ rounds
    → sep ≢ 0
    → All (Lacks sep) ps
    → EndsFull ps
    → pieces rounds allow sep (joined sep ps) ≡ kept allow ps
pieces-joined rounds allow sep [] enough given h full = pieces-none rounds allow sep
pieces-joined zero allow sep (p ∷ ps) enough given h full = absurd (omega arith)
pieces-joined (suc n) allow sep ([] ∷ []) enough given h full = absurd (full refl)
pieces-joined (suc n) allow sep ((d ∷ p) ∷ []) enough given h full =
    let nonzero : (suc (length p) == 0) ≡ false = ground arith in
    pieces-some n allow sep (d ∷ p) (d ∷ p) [] (advance-last allow sep d p given h.0)
    ∙ rw (nonzero, get_current_lem (d ∷ p) sep h.0, pieces-none n allow sep) refl
pieces-joined (suc n) allow sep (p ∷ q ∷ ps) enough given h full =
    let (c, s, e) = joined-cons sep q ps full in
    let step = advance-front allow sep p c s given h.0 in
    elim (Bool-cases ((length p == 0) && not allow)) [
      | inl skip ↦
          pieces-same n allow sep (p ++ sep ∷ joined sep (q ∷ ps)) (joined sep (q ∷ ps))
            (rw (e, step, skip) refl)
          ∙ pieces-joined (suc n) allow sep (q ∷ ps) (omega arith) given h.1 full
          ∙ rw (skip) refl
      | inr keep ↦
          pieces-some n allow sep (p ++ sep ∷ joined sep (q ∷ ps)) p (c ∷ s)
            (rw (e, step, keep) refl)
          ∙ rw
              (
                keep,
                get_current_lem p sep h.0,
                sym e,
                pieces-joined n allow sep (q ∷ ps) (omega arith) given h.1 full,
              )
              refl
    ]
