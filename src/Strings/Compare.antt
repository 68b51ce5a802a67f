-- ===== src/Strings/Compare.antt =====
-- `strcmp_case` and `strncmp_case`.
use mathlib.Core.Path.{ap₂}
use redlib.Prelude.{
  ℕ, zero, suc, ◌≡◌, ◌≢◌, ◌↔◌, refl, sym, ◌∙◌, Bool, true, false, List, [], ◌∷◌, Option, none, some,
  map, All, arith, take, ◌==◌, Bool-cases, inl, inr,
}
use redlib.Prelude.Int.{pos, neg, neg-sub_ℕ, sub_ℕ-zero}
use redlib.Strings.{fold, compare_from, compare_max, strcmp_case, strncmp_case}

-- The bytes of a C string are not 0.
abbrev pub IsText : List ℕ → Type 0
IsText = All (λ c. c ≢ 0)

pub fold_nonzero : (ci : Bool) (c : ℕ) → c ≢ 0 → fold ci c ≢ 0
unfolding fold
fold_nonzero true c h = ground (arith, h)
fold_nonzero false c h = h

pub fold_zero : (ci : Bool) → fold ci 0 ≡ 0
unfolding fold
fold_zero true = refl
fold_zero false = refl

compare_from→map :
    (ci : Bool) (a b : List ℕ)
    → IsText a
    → IsText b
    → compare_from ci a b ≡ pos 0
    → map (fold ci) a ≡ map (fold ci) b
unfolding compare_from
compare_from→map ci [] [] ta tb h = refl
compare_from→map ci [] (y ∷ b) ta tb h =
    absurd (fold_nonzero ci y tb.0 (sym (sub_ℕ-zero _ _ h) ∙ fold_zero ci))
compare_from→map ci (x ∷ a) [] ta tb h =
    absurd (fold_nonzero ci x ta.0 (sub_ℕ-zero _ _ h ∙ fold_zero ci))
compare_from→map ci (x ∷ a) (y ∷ b) ta tb h = elim (Bool-cases (fold ci x == fold ci y)) [
  | inl same ↦
      ap₂ ◌∷◌ (ground (arith, same)) (compare_from→map ci a b ta.1 tb.1 (ground (arith, h, same)))
  | inr other ↦ absurd (ground (arith, other, h))
]

map→compare_from :
    (ci : Bool) (a b : List ℕ) → map (fold ci) a ≡ map (fold ci) b → compare_from ci a b ≡ pos 0
unfolding compare_from
map→compare_from ci [] [] h = ground arith
map→compare_from ci [] (y ∷ b) h = absurd (cc h)
map→compare_from ci (x ∷ a) [] h = absurd (cc h)
map→compare_from ci (x ∷ a) (y ∷ b) h =
    let same : fold ci x ≡ fold ci y = cc h in
    let rest : map (fold ci) a ≡ map (fold ci) b = cc h in
    ground (arith, same, map→compare_from ci a b rest)

-- Of two strings `strcmp_case` answers 0 exactly if they are equal, after lowering both if the case
-- does not matter.
pub strcmp_case-zero :
    (a b : List ℕ) (ci : Bool)
    → IsText a
    → IsText b
    → (strcmp_case (some a) (some b) ci ≡ pos 0) ↔ (map (fold ci) a ≡ map (fold ci) b)
unfolding strcmp_case
strcmp_case-zero a b ci ta tb = (compare_from→map ci a b ta tb, map→compare_from ci a b)

compare_from-neg : (ci : Bool) (a b : List ℕ) → compare_from ci b a ≡ neg (compare_from ci a b)
unfolding compare_from
compare_from-neg ci [] [] = sym (neg-sub_ℕ _ _)
compare_from-neg ci [] (y ∷ b) = sym (neg-sub_ℕ _ _)
compare_from-neg ci (x ∷ a) [] = sym (neg-sub_ℕ _ _)
compare_from-neg ci (x ∷ a) (y ∷ b) =
    ground (arith, compare_from-neg ci a b, neg-sub_ℕ (fold ci x) (fold ci y))

-- With its arguments exchanged `strcmp_case` answers the negative, NULL included.
pub strcmp_case-neg :
    (a b : Option (List ℕ)) (ci : Bool) → strcmp_case b a ci ≡ neg (strcmp_case a b ci)
unfolding strcmp_case
strcmp_case-neg none none ci = refl
strcmp_case-neg none (some b) ci = refl
strcmp_case-neg (some a) none ci = refl
strcmp_case-neg (some a) (some b) ci = compare_from-neg ci a b

compare_max-take :
    (ci : Bool) (n : ℕ) (a b : List ℕ)
    → compare_max ci (suc n) a b ≡ compare_from ci (take (suc n) a) (take (suc n) b)
unfolding compare_max compare_from
compare_max-take ci n [] [] = refl
compare_max-take ci n [] (y ∷ b) = refl
compare_max-take ci n (x ∷ a) [] = refl
compare_max-take ci zero (x ∷ a) (y ∷ b) = ground arith
compare_max-take ci (suc n) (x ∷ a) (y ∷ b) = ground (arith, compare_max-take ci n a b)

-- For a maximum above 0 `strncmp_case` answers what `strcmp_case` answers of the two strings cut
-- off at that length.
pub strncmp_case-take :
    (a b : List ℕ) (ci : Bool) (max : ℕ)
    → max ≢ 0
    → strncmp_case (some a) (some b) ci max ≡ strcmp_case (some (take max a)) (some (take max b)) ci
unfolding strncmp_case strcmp_case
strncmp_case-take a b ci zero h = absurd (h refl)
strncmp_case-take a b ci (suc n) h = compare_max-take ci n a b
