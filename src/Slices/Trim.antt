-- ===== src/Slices/Trim.antt =====
-- `slice_trim_ws`.
use mathlib.Core.List.{reverse, reverse-cons, reverse-append, reverse-reverse, append_assoc}
use redlib.Prelude.{
  ℕ, ◌≡◌, refl, sym, ap, ◌∙◌, Bool, true, false, List, [], ◌∷◌, ◌++◌, All, All-append, Bool-cases,
  inl, inr,
}
use redlib.Slices.{is_ws, drop_ws, drop_back, slice_trim_ws}

abbrev pub IsBlank : Bool → List ℕ → Type 0
IsBlank nl = All (λ c. is_ws nl c ≡ true)

-- Does not start with white space.
abbrev pub Starts : Bool → List ℕ → Type 0
Starts nl [] = Unit
Starts nl (c ∷ s) = is_ws nl c ≡ false

drop_ws_lem :
    (nl : Bool) (s : List ℕ)
    → (front : List ℕ) × (s ≡ front ++ drop_ws nl s) × IsBlank nl front × Starts nl (drop_ws nl s)
unfolding drop_ws
drop_ws_lem nl [] = ([], refl, tt, tt)
drop_ws_lem nl (c ∷ s) = elim (Bool-cases (is_ws nl c)) [
  | inl blank ↦
      let (front, whole, blanks, starts) = drop_ws_lem nl s in
      (c ∷ front, rw blank (ap (◌∷◌ c) whole), (blank, blanks), rw blank starts)
  | inr other ↦ ([], rw other refl, tt, rw other other)
]

reverse-IsBlank : (nl : Bool) (s : List ℕ) → IsBlank nl s → IsBlank nl (reverse s)
reverse-IsBlank nl [] h = tt
reverse-IsBlank nl (c ∷ s) h =
    rw (reverse-cons c s) (
      All-append (λ c. is_ws nl c ≡ true) (reverse s) (c ∷ []) (reverse-IsBlank nl s h.1) (h.0, tt))

-- What is left when white space is taken off both ends.
pub record IsTrimmed (nl : Bool) (s t : List ℕ) : Type 0 where
  pub front : List ℕ
  pub back : List ℕ
  pub whole : s ≡ front ++ (t ++ back)
  pub front_blank : IsBlank nl front
  pub back_blank : IsBlank nl back
  pub starts : Starts nl t
  pub ends : Starts nl (reverse t)

reversed_start :
    (nl : Bool) (c : ℕ) (kept : List ℕ)
    → is_ws nl c ≡ false
    → Starts nl kept
    → Starts nl (reverse (c ∷ reverse kept))
reversed_start nl c kept h start =
    rw (reverse-cons c (reverse kept), reverse-reverse kept) (front_of kept start)
  where
    front_of : (kept : List ℕ) → Starts nl kept → Starts nl (kept ++ c ∷ [])
    front_of [] _ = h
    front_of (d ∷ kept) start = start

drop_back-IsTrimmed : (nl : Bool) (s : List ℕ) → Starts nl s → IsTrimmed nl s (drop_back nl s)
unfolding drop_back
drop_back-IsTrimmed nl [] h = record {
  front = [];
  back = [];
  whole = refl;
  front_blank = tt;
  back_blank = tt;
  starts = tt;
  ends = tt;
}
drop_back-IsTrimmed nl (c ∷ s) h =
    let (cut, e, blank, start) = drop_ws_lem nl (reverse s) in
    let kept = drop_ws nl (reverse s) in
    let tail : s ≡ reverse kept ++ reverse cut =
      sym (reverse-reverse s) ∙ ap reverse e ∙ reverse-append cut kept in
    record {
      front = [];
      back = reverse cut;
      whole = ap (◌∷◌ c) tail;
      front_blank = tt;
      back_blank = reverse-IsBlank nl cut blank;
      starts = h;
      ends = reversed_start nl c kept h start;
    }

-- `slice_trim_ws` takes white space off both ends, and nothing else, until the slice neither starts
-- nor ends with white space.
pub slice_trim_ws-IsTrimmed : (s : List ℕ) (nl : Bool) → IsTrimmed nl s (slice_trim_ws s nl)
unfolding slice_trim_ws
slice_trim_ws-IsTrimmed s nl =
    let (front, e, blank, starts) = drop_ws_lem nl s in
    let t = drop_back-IsTrimmed nl (drop_ws nl s) starts in
    record {
      front = front ++ t.front;
      back = t.back;
      whole = e ∙ ap (λ u. front ++ u) t.whole ∙ sym (append_assoc front t.front _);
      front_blank = All-append (λ c. is_ws nl c ≡ true) front t.front blank t.front_blank;
      back_blank = t.back_blank;
      starts = t.starts;
      ends = t.ends;
    }
