-- ===== src/Strings/Find.antt =====
-- `strindex`, `strcont`, `strcasestr` and `strstart_case`.
use mathlib.Core.Path.{ap₂}
use redlib.Prelude.{
  ℕ, zero, suc, ◌+◌, ◌<◌, ◌≡◌, ◌≢◌, ◌↔◌, ◌⊎◌, ◌^◌, refl, sym, ap, ◌∙◌, Bool, true, false, List, [],
  ◌∷◌, ◌++◌, Option, none, some, map, arith, length, drop, take, if◌then◌else◌, ◌==◌, Bool-cases,
  inl, inr,
}
use redlib.Prelude.Int.{ℤ, pos, negsuc}
use redlib.Strings.{
  fold, begins, index_from, strindex, strcont, case_from, strcasestr, strstart_case, first,
}

-- `b` stands in `a` from index `i` on, up to case if `ci` is set.
abbrev pub OccursAt : Bool → List ℕ → List ℕ → ℕ → Type 0
OccursAt ci b a i = (s : List ℕ) × (map (fold ci) (drop i a) ≡ map (fold ci) b ++ s)

begins→OccursAt : (ci : Bool) (a b : List ℕ) → begins ci a b ≡ true → OccursAt ci b a 0
unfolding begins
begins→OccursAt ci a [] h = (map (fold ci) a, refl)
begins→OccursAt ci [] (y ∷ b) h = absurd (cc h)
begins→OccursAt ci (x ∷ a) (y ∷ b) h =
    let (s, e) = begins→OccursAt ci a b (ground (arith, h)) in (s, ap₂ ◌∷◌ (ground (arith, h)) e)

OccursAt→begins :
    (ci : Bool) (a b s : List ℕ) → map (fold ci) a ≡ map (fold ci) b ++ s → begins ci a b ≡ true
unfolding begins
OccursAt→begins ci a [] s h = refl
OccursAt→begins ci [] (y ∷ b) s h = absurd (cc h)
OccursAt→begins ci (x ∷ a) (y ∷ b) s h =
    let same : fold ci x ≡ fold ci y = cc h in
    let rest : map (fold ci) a ≡ map (fold ci) b ++ s = cc h in
    ground (arith, same, OccursAt→begins ci a b s rest)

-- The first index, below the length, at which `b` stands in `a`.
abbrev first_hit : Bool → List ℕ → List ℕ → Option ℕ
first_hit ci [] b = none
first_hit ci (x ∷ a) b =
    if begins ci (x ∷ a) b
    then some 0
    else elim (first_hit ci a b) [ none ↦ none | some k ↦ some (suc k) ]

-- What a search from the left finds.
abbrev pub IsFirst : Bool → List ℕ → List ℕ → Option ℕ → Type 0
IsFirst ci a b none = (i : ℕ) → i < length a → ¬ OccursAt ci b a i
IsFirst ci a b (some i) =
    (i < length a) × OccursAt ci b a i × ((j : ℕ) → j < i → ¬ OccursAt ci b a j)

first_hit-IsFirst : (ci : Bool) (a b : List ℕ) → IsFirst ci a b (first_hit ci a b)
first_hit-IsFirst ci [] b = λ i h. absurd (omega arith)
first_hit-IsFirst ci (x ∷ a) b = elim (Bool-cases (begins ci (x ∷ a) b)) [
  | inl here ↦ rw here (omega arith, begins→OccursAt ci (x ∷ a) b here, λ j h. absurd (omega arith))
  | inr not_here ↦ rw not_here (later (first_hit ci a b) (first_hit-IsFirst ci a b) (away not_here))
]
  where
    away : begins ci (x ∷ a) b ≡ false → ¬ OccursAt ci b (x ∷ a) 0
    away not_here (s, e) = cc (not_here, OccursAt→begins ci (x ∷ a) b s e)

    later :
        (r : Option ℕ)
        → IsFirst ci a b r
        → ¬ OccursAt ci b (x ∷ a) 0
        → IsFirst ci (x ∷ a) b (elim r [ none ↦ none | some k ↦ some (suc k) ])
    later none nowhere skip = λ i. elim i as (λ i. i < suc (length a) → ¬ OccursAt ci b (x ∷ a) i) [
      | zero ↦ λ _. skip
      | suc i ↦ λ h. nowhere i (omega arith)
    ]
    later (some k) (inside, there, before) skip = (
      omega arith,
      there,
      λ j. elim j as (λ j. j < suc k → ¬ OccursAt ci b (x ∷ a) j) [
        | zero ↦ λ _. skip
        | suc j ↦ λ h. before j (omega arith)
      ],
    )

index_from-first_hit :
    (i : ℕ) (a b : List ℕ)
    → index_from i a b ≡ elim (first_hit false a b) [ none ↦ negsuc 0 | some k ↦ pos (i + k) ]
unfolding index_from
index_from-first_hit i [] b = refl
index_from-first_hit i (x ∷ a) b = elim (Bool-cases (begins false (x ∷ a) b)) [
  | inl here ↦ rw here (ap pos (omega arith))
  | inr not_here ↦ rw not_here (index_from-first_hit (suc i) a b ∙ shift (first_hit false a b))
]
  where
    shift :
        (r : Option ℕ)
        → (elim r [ none ↦ negsuc 0 | some k ↦ pos (suc i + k) ])
          ≡ elim (elim r as (λ _. Option ℕ) [ none ↦ none | some k ↦ some (suc k) ]) [
            | none ↦ negsuc 0
            | some k ↦ pos (i + k)
          ]
    shift none = refl
    shift (some k) = ap pos (omega arith)

-- `b` stands in `a` from index `i` on, byte for byte.
abbrev pub StandsAt : List ℕ → List ℕ → ℕ → Type 0
StandsAt b a i = (s : List ℕ) × (drop i a ≡ b ++ s)

map-fold : (l : List ℕ) → map (fold false) l ≡ l
unfolding fold
map-fold [] = refl
map-fold (x ∷ l) = ap (λ r. x ∷ r) (map-fold l)

OccursAt→StandsAt : (b a : List ℕ) (i : ℕ) → OccursAt false b a i → StandsAt b a i
OccursAt→StandsAt b a i (s, e) = (s, sym (map-fold (drop i a)) ∙ e ∙ ap (λ l. l ++ s) (map-fold b))

StandsAt→OccursAt : (b a : List ℕ) (i : ℕ) → StandsAt b a i → OccursAt false b a i
StandsAt→OccursAt b a i (s, e) = (s, map-fold (drop i a) ∙ e ∙ ap (λ l. l ++ s) (sym (map-fold b)))

-- What `strindex` answers: the first place below the length, or -1.
abbrev pub IsIndex : List ℕ → List ℕ → ℤ → Type 0
IsIndex a b (negsuc n) = (n ≡ 0) × ((i : ℕ) → i < length a → ¬ StandsAt b a i)
IsIndex a b (pos i) =
    (i < length a) × StandsAt b a i × ((j : ℕ) → j < i → ¬ StandsAt b a j) × (i < 2 ^ 31)

-- In a string shorter than 2 ^ 31, so that its indices are of type `int`, `strindex` answers the first
-- index at which the second string stands, byte for byte, and -1 where it stands at no index below the
-- length.
pub strindex-IsIndex : (a b : List ℕ) → length a < 2 ^ 31 → IsIndex a b (strindex a b)
unfolding strindex
strindex-IsIndex a b small =
    rw (index_from-first_hit 0 a b) (by_hit (first_hit false a b) (first_hit-IsFirst false a b))
  where
    by_hit :
        (r : Option ℕ)
        → IsFirst false a b r
        → IsIndex a b (elim r [ none ↦ negsuc 0 | some k ↦ pos (0 + k) ])
    by_hit none nowhere = (refl, λ i h p. nowhere i h (StandsAt→OccursAt b a i p))
    by_hit (some k) (inside, there, before) =
        let e : 0 + k ≡ k = omega arith in
        rw e (
          inside,
          OccursAt→StandsAt b a k there,
          λ j h p. before j h (StandsAt→OccursAt b a j p),
          omega (arith, inside, small),
        )

strcont-first_hit :
    (a b : List ℕ) → strcont a b ≡ elim (first_hit false a b) [ none ↦ false | some k ↦ true ]
unfolding strcont
strcont-first_hit [] b = refl
strcont-first_hit (x ∷ a) b = ground (arith, strcont-first_hit a b)

-- `strcont` and `strindex` agree: one is true exactly where the other is not -1.
pub strcont-strindex : (a b : List ℕ) → (strcont a b ≡ true) ↔ (strindex a b ≢ negsuc 0)
unfolding strindex
strcont-strindex a b =
    rw (strcont-first_hit a b, index_from-first_hit 0 a b) (agree (first_hit false a b))
  where
    agree :
        (r : Option ℕ)
        → ((elim r [ none ↦ false | some k ↦ true ]) ≡ true)
          ↔ ((elim r [ none ↦ negsuc 0 | some k ↦ pos (0 + k) ]) ≢ negsuc 0)
    agree none = (λ h. cc h, λ h. absurd (h refl))
    agree (some k) = (λ _ h. cc h, λ _. refl)

case_from-first_hit :
    (h n : List ℕ)
    → case_from h n ≡ elim (first_hit true h n) [ none ↦ none | some k ↦ some (drop k h) ]
unfolding case_from
case_from-first_hit [] n = refl
case_from-first_hit (x ∷ h) n = ground (arith, case_from-first_hit h n)

-- For a needle that is not empty `strcasestr` answers the part of the haystack from the first place
-- on at which the needle stands up to case, and NULL where there is none.
pub strcasestr-IsFirst :
    (h n : List ℕ)
    → n ≢ []
    → (r : Option ℕ) × (strcasestr (some h) (some n)
        ≡ elim r [ none ↦ none | some i ↦ some (drop i h) ])
      × IsFirst true h n r
unfolding strcasestr
strcasestr-IsFirst h [] given = absurd (given refl)
strcasestr-IsFirst h (y ∷ n) given =
    (first_hit true h (y ∷ n), case_from-first_hit h (y ∷ n), first_hit-IsFirst true h (y ∷ n))

-- `strstart_case` answers the length of the longest common beginning, up to case: the strings agree
-- that far, and one of them ends there or the next bytes differ.
pub strstart_case_lem :
    (a b : List ℕ) (ci : Bool)
    → let n = strstart_case a b ci in
      (map (fold ci) (take n a) ≡ map (fold ci) (take n b))
      × ((drop n a ≡ [])
          ⊎ ((drop n b ≡ []) ⊎ (fold ci (first (drop n a)) ≢ fold ci (first (drop n b)))))
unfolding strstart_case
strstart_case_lem [] b ci = (refl, inl refl)
strstart_case_lem (x ∷ a) [] ci = (refl, inr (inl refl))
strstart_case_lem (x ∷ a) (y ∷ b) ci = elim (Bool-cases (fold ci x == fold ci y)) [
  | inl same ↦
      let (common, end) = strstart_case_lem a b ci in
      let e : fold ci x ≡ fold ci y = ground (arith, same) in rw same (ap₂ ◌∷◌ e common, end)
  | inr other ↦ rw other (refl, inr (inr (ground (arith, other))))
]
