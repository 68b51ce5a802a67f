-- ===== src/Strings/Suffix.antt =====
-- `strend_case`.
use redlib.Prelude.{
  ℕ, suc, ◌<◌, ◌≡◌, ◌≢◌, ◌↔◌, ◌⊎◌, refl, sym, ap, ◌∙◌, Bool, List, [], ◌∷◌, ◌++◌, none, some, map,
  arith, length, ◌==◌, Bool-cases, Option-cases, inl, inr, length-append,
}
use mathlib.Core.Path.{ap₂}
use redlib.Strings.{fold, rest_match, strend_case}
use redlib.Strings.Compare.{IsText, fold_nonzero, fold_zero}

-- The second string ends the first, up to case.
abbrev pub IsSuffix : Bool → List ℕ → List ℕ → Type 0
IsSuffix ci b a = (p : List ℕ) × (map (fold ci) a ≡ p ++ map (fold ci) b)

rest_match→map :
    (ci : Bool) (a b : List ℕ)
    → IsText b
    → rest_match ci a b ≡ some 0
    → map (fold ci) a ≡ map (fold ci) b
unfolding rest_match
rest_match→map ci [] [] t h = refl
rest_match→map ci [] (y ∷ b) t h = absurd (fold_nonzero ci y t.0 (cc h))
rest_match→map ci (x ∷ a) [] t h = absurd (cc h)
rest_match→map ci (x ∷ a) (y ∷ b) t h =
    ap₂ ◌∷◌ (ground (arith, h)) (rest_match→map ci a b t.1 (ground (arith, h)))

map→rest_match :
    (ci : Bool) (a b : List ℕ) → map (fold ci) a ≡ map (fold ci) b → rest_match ci a b ≡ some 0
unfolding rest_match
map→rest_match ci [] [] h = ap some (fold_zero ci)
map→rest_match ci [] (y ∷ b) h = absurd (cc h)
map→rest_match ci (x ∷ a) [] h = absurd (cc h)
map→rest_match ci (x ∷ a) (y ∷ b) h =
    let same : fold ci x ≡ fold ci y = cc h in
    let rest : map (fold ci) a ≡ map (fold ci) b = cc h in
    ground (arith, same, map→rest_match ci a b rest)

-- Any other result comes from a rest that is shorter than what is looked for.
rest_match-short :
    (ci : Bool) (a b : List ℕ) (r : ℕ)
    → rest_match ci a b ≡ some r
    → (r ≡ 0) ⊎ (length a < length b)
unfolding rest_match
rest_match-short ci [] [] r h = inl (cc (h, fold_zero ci))
rest_match-short ci [] (y ∷ b) r h = inr (omega arith)
rest_match-short ci (x ∷ a) [] r h = absurd (cc h)
rest_match-short ci (x ∷ a) (y ∷ b) r h = ground (arith, rest_match-short ci a b r)

length-map : (ci : Bool) (a : List ℕ) → length (map (fold ci) a) ≡ length a
length-map ci [] = refl
length-map ci (x ∷ a) = ap suc (length-map ci a)

strend_case-step :
    (ci : Bool) (x y : ℕ) (a b : List ℕ)
    → strend_case (x ∷ a) (y ∷ b) ci
      ≡ elim (rest_match ci (x ∷ a) (y ∷ b)) [ some r ↦ r | none ↦ strend_case a (y ∷ b) ci ]
unfolding strend_case
strend_case-step ci x y a b = elim (Bool-cases (fold ci x == fold ci y)) [
  | inl same ↦ rw same refl
  | inr other ↦ rw other refl
]

strend_case→IsSuffix :
    (ci : Bool) (a b : List ℕ) → IsText b → strend_case a b ci ≡ 0 → IsSuffix ci b a
unfolding strend_case
strend_case→IsSuffix ci [] b t h = absurd (omega (arith, h))
strend_case→IsSuffix ci (x ∷ a) [] t h = absurd (omega (arith, h))
strend_case→IsSuffix ci (x ∷ a) (y ∷ b) t h = elim (Option-cases (rest_match ci (x ∷ a) (y ∷ b))) [
  | inl broken ↦
      let later : strend_case a (y ∷ b) ci ≡ 0 =
        sym (strend_case-step ci x y a b ∙ rw broken refl) ∙ h in
      let (p, e) = strend_case→IsSuffix ci a (y ∷ b) t later in
      (fold ci x ∷ p, ap (◌∷◌ (fold ci x)) e)
  | inr (r, found) ↦
      let ends : r ≡ 0 = sym (strend_case-step ci x y a b ∙ rw found refl) ∙ h in
      ([], rest_match→map ci (x ∷ a) (y ∷ b) t (found ∙ ap some ends))
]

IsSuffix→strend_case :
    (ci : Bool) (a p : List ℕ) (y : ℕ) (b : List ℕ)
    → map (fold ci) a ≡ p ++ map (fold ci) (y ∷ b)
    → strend_case a (y ∷ b) ci ≡ 0
IsSuffix→strend_case ci [] [] y b h = absurd (cc h)
IsSuffix→strend_case ci [] (q ∷ p) y b h = absurd (cc h)
IsSuffix→strend_case ci (x ∷ a) [] y b h =
    strend_case-step ci x y a b ∙ rw (map→rest_match ci (x ∷ a) (y ∷ b) h) refl
IsSuffix→strend_case ci (x ∷ a) (q ∷ p) y b h =
    let rest : map (fold ci) a ≡ p ++ map (fold ci) (y ∷ b) = cc h in
    let later = IsSuffix→strend_case ci a p y b rest in
    strend_case-step ci x y a b ∙ elim (Option-cases (rest_match ci (x ∷ a) (y ∷ b))) [
      | inl broken ↦ rw broken later
      | inr (r, found) ↦ elim (rest_match-short ci (x ∷ a) (y ∷ b) r found) [
        | inl ends ↦ rw found ends
        | inr short ↦ absurd (too_short rest short)
      ]
    ]
  where
    too_short : map (fold ci) a ≡ p ++ map (fold ci) (y ∷ b) → length (x ∷ a) < length (y ∷ b) → ⊥
    too_short rest short = omega (
      arith,
      ap length rest,
      length-append p (map (fold ci) (y ∷ b)),
      length-map ci a,
      length-map ci (y ∷ b),
    )

-- For a second string that is not empty, `strend_case` answers 0 exactly if it ends the first, up to
-- case if that does not matter.
pub strend_case-IsSuffix :
    (a b : List ℕ) (ci : Bool) → IsText b → b ≢ [] → (strend_case a b ci ≡ 0) ↔ IsSuffix ci b a
strend_case-IsSuffix a [] ci t given = absurd (given refl)
strend_case-IsSuffix a (y ∷ b) ci t given =
    (strend_case→IsSuffix ci a (y ∷ b) t, λ (p, e). IsSuffix→strend_case ci a p y b e)
