-- ===== src/Slices/Match.antt =====
-- `slice_starts_with`, `slice_ends_with` and `slices_equal`.
use mathlib.Core.List.{append-nil}
use mathlib.Core.Path.{ap₂}
use redlib.Prelude.{
  ℕ, zero, suc, ◌+◌, ◌-◌, ◌≤◌, ◌≡◌, ◌↔◌, refl, sym, ap, ◌∙◌, Bool, true, false, List, [], ◌∷◌, ◌++◌,
  map, arith, length, length-drop, drop, take, ◌==◌, not, ◌&&◌, ◌||◌, Bool-cases, inl, inr,
  length-append,
}
use redlib.Strings.{fold, tolower}
use redlib.Slices.{all_match, slice_starts_with, slice_ends_with, same_bytes, slices_equal}

all_match→append :
    (s seek : List ℕ) → all_match s seek ≡ true → (rest : List ℕ) × (s ≡ seek ++ rest)
unfolding all_match
all_match→append s [] h = (s, refl)
all_match→append [] (y ∷ seek) h = absurd (cc h)
all_match→append (x ∷ s) (y ∷ seek) h =
    let (rest, e) = all_match→append s seek (ground (arith, h)) in
    (rest, ap₂ ◌∷◌ (ground (arith, h)) e)

append→all_match : (s seek rest : List ℕ) → s ≡ seek ++ rest → all_match s seek ≡ true
unfolding all_match
append→all_match s [] rest h = refl
append→all_match [] (y ∷ seek) rest h = absurd (cc h)
append→all_match (x ∷ s) (y ∷ seek) rest h =
    let same : x ≡ y = cc h in
    let tails : s ≡ seek ++ rest = cc h in ground (arith, same, append→all_match s seek rest tails)

long_enough : (s front back : List ℕ) → s ≡ front ++ back → length s ≡ length front + length back
long_enough s front back h = ap length h ∙ length-append front back

-- `slice_starts_with` is true exactly if the slice is the other one followed by more.
pub slice_starts_with_lem :
    (s seek : List ℕ) → (slice_starts_with s seek ≡ true) ↔ ((rest : List ℕ) × (s ≡ seek ++ rest))
unfolding slice_starts_with
slice_starts_with_lem s seek = (
  λ h. all_match→append s seek (ground (arith, h)),
  λ (rest, e). ground (arith, long_enough s seek rest e, append→all_match s seek rest e),
)

drop-append : (front back : List ℕ) (n : ℕ) → n ≡ length front → drop n (front ++ back) ≡ back
drop-append [] back zero h = refl
drop-append [] back (suc n) h = absurd (omega arith)
drop-append (x ∷ front) back zero h = absurd (omega arith)
drop-append (x ∷ front) back (suc n) h = drop-append front back n (omega arith)

take-drop : (n : ℕ) (s : List ℕ) → take n s ++ drop n s ≡ s
take-drop zero s = refl
take-drop (suc n) [] = refl
take-drop (suc n) (x ∷ s) = ap (◌∷◌ x) (take-drop n s)

all_match_same : (s seek : List ℕ) → length s ≡ length seek → all_match s seek ≡ true → s ≡ seek
unfolding all_match
all_match_same [] [] e h = refl
all_match_same [] (y ∷ seek) e h = absurd (omega (arith, e))
all_match_same (x ∷ s) [] e h = absurd (omega (arith, e))
all_match_same (x ∷ s) (y ∷ seek) e h =
    ap₂ ◌∷◌ (ground (arith, h)) (all_match_same s seek (omega (arith, e)) (ground (arith, h)))

-- `slice_ends_with` is true exactly if the slice is something followed by the other one.
pub slice_ends_with_lem :
    (s seek : List ℕ) → (slice_ends_with s seek ≡ true) ↔ ((front : List ℕ) × (s ≡ front ++ seek))
unfolding slice_ends_with
slice_ends_with_lem s seek = (
  λ h.
      let room : length seek ≤ length s = ground (arith, h) in
      let whole = take-drop (length s - length seek) s in
      let same =
        all_match_same (drop (length s - length seek) s) seek
          (omega (arith, room, length-drop (length s - length seek) s)) (ground (arith, h)) in
      (
        take (length s - length seek) s,
        sym whole ∙ ap (λ t. take (length s - length seek) s ++ t) same,
      ),
  λ (front, e).
      let lens = long_enough s front seek e in
      let back : drop (length s - length seek) s ≡ seek =
        ap (drop (length s - length seek)) e
        ∙ drop-append front seek (length s - length seek) (omega (arith, lens)) in
      let full =
        append→all_match (drop (length s - length seek) s) seek [] (back ∙ sym (append-nil seek)) in
      ground (arith, lens, full),
)

-- The test of the loop fails exactly on bytes that count as different.
differs : Bool → ℕ → ℕ → Bool
differs ci x y = not (x == y) && (not ci || not (tolower x == tolower y))

differs-false : (ci : Bool) (x y : ℕ) → differs ci x y ≡ false → fold ci x ≡ fold ci y
unfolding differs fold
differs-false true x y h = elim (Bool-cases (x == y)) [
  | inl same ↦ let e : x ≡ y = ground (arith, same) in ap tolower e
  | inr other ↦ ground (arith, other, h)
]
differs-false false x y h = ground (arith, h)

differs_same : (ci : Bool) (x y : ℕ) → fold ci x ≡ fold ci y → differs ci x y ≡ false
unfolding differs fold
differs_same true x y h = ground (arith, h)
differs_same false x y h = ground (arith, h)

on_same :
    (ci : Bool) (x y : ℕ) (a b : List ℕ)
    → differs ci x y ≡ false
    → same_bytes ci a b ≡ same_bytes ci (x ∷ a) (y ∷ b)
unfolding same_bytes differs
on_same ci x y a b h = rw h refl

at_differs :
    (ci : Bool) (x y : ℕ) (a b : List ℕ)
    → differs ci x y ≡ true
    → same_bytes ci (x ∷ a) (y ∷ b) ≡ false
unfolding same_bytes differs
at_differs ci x y a b h = rw h refl

same_bytes→map :
    (ci : Bool) (a b : List ℕ)
    → length a ≡ length b
    → same_bytes ci a b ≡ true
    → map (fold ci) a ≡ map (fold ci) b
unfolding same_bytes
same_bytes→map ci [] [] e h = refl
same_bytes→map ci [] (y ∷ b) e h = absurd (omega (arith, e))
same_bytes→map ci (x ∷ a) [] e h = absurd (omega (arith, e))
same_bytes→map ci (x ∷ a) (y ∷ b) e h = elim (Bool-cases (differs ci x y)) [
  | inl other ↦ absurd (cc (h, at_differs ci x y a b other))
  | inr same ↦
      ap₂ ◌∷◌ (differs-false ci x y same)
        (same_bytes→map ci a b (omega (arith, e)) (on_same ci x y a b same ∙ h))
]

map→same_bytes :
    (ci : Bool) (a b : List ℕ) → map (fold ci) a ≡ map (fold ci) b → same_bytes ci a b ≡ true
unfolding same_bytes
map→same_bytes ci [] b h = refl
map→same_bytes ci (x ∷ a) [] h = refl
map→same_bytes ci (x ∷ a) (y ∷ b) h =
    let same : fold ci x ≡ fold ci y = cc h in
    let rest : map (fold ci) a ≡ map (fold ci) b = cc h in
    sym (on_same ci x y a b (differs_same ci x y same)) ∙ map→same_bytes ci a b rest

length_of_map : (ci : Bool) (a b : List ℕ) → map (fold ci) a ≡ map (fold ci) b → length a ≡ length b
length_of_map ci [] [] h = refl
length_of_map ci [] (y ∷ b) h = absurd (cc h)
length_of_map ci (x ∷ a) [] h = absurd (cc h)
length_of_map ci (x ∷ a) (y ∷ b) h =
    let rest : map (fold ci) a ≡ map (fold ci) b = cc h in ap suc (length_of_map ci a b rest)

-- `slices_equal` is true exactly on equal slices, after lowering both if the case does not matter.
pub slices_equal_lem :
    (a b : List ℕ) (ci : Bool) → (slices_equal a b ci ≡ true) ↔ (map (fold ci) a ≡ map (fold ci) b)
unfolding slices_equal
slices_equal_lem a b ci = (
  λ h. same_bytes→map ci a b (ground (arith, h)) (ground (arith, h)),
  λ h. ground (arith, length_of_map ci a b h, map→same_bytes ci a b h),
)
