-- ===== src/Sorting.antt =====
-- Insertion at the first place that a test allows, and when it keeps a list sorted. The priority
-- queue (data/struct/priority_queue.c) and linked_list_sort (data/struct/linked_list.c) are compared
-- with it.
use mathlib.Core.List.{Perm}
use mathlib.Core.List.Perm
use redlib.Prelude.{
  ◌≡◌, refl, ap, Bool, true, false, List, [], ◌∷◌, ◌++◌, All, All-append, if◌then◌else◌, Bool-cases,
  inl, inr,
}

-- Every element stands in the relation to all behind it.
abbrev pub Sorted {ℓ} : {A : Type ℓ} → (A → A → Type 0) → List A → Type 0
Sorted R [] = Unit
Sorted R (x ∷ xs) = All (R x) xs × Sorted R xs

-- In front of the first element for which the test says so.
unfoldable pub placed {ℓ} : {A : Type ℓ} → (A → A → Bool) → A → List A → List A
placed go x [] = x ∷ []
placed go x (y ∷ l) = if go x y then x ∷ y ∷ l else y ∷ placed go x l

module _ {ℓ} {A : Type ℓ} (go : A → A → Bool) where
  pub placed-All {κ} : (P : A → Type κ) (x : A) (l : List A) → P x → All P l → All P (placed go x l)
  unfolding placed
  placed-All P x [] h k = (h, tt)
  placed-All P x (y ∷ l) h k = elim (Bool-cases (go x y)) [
    | inl here ↦ rw here (h, k)
    | inr later ↦ rw later (k.0, placed-All P x l h k.1)
  ]

  pub placed-Perm : (x : A) (l : List A) → Perm (placed go x l) (x ∷ l)
  unfolding placed
  placed-Perm x [] = Perm.rfl
  placed-Perm x (y ∷ l) = elim (Bool-cases (go x y)) [
    | inl here ↦ rw here Perm.rfl
    | inr later ↦ rw later (Perm.trans (Perm.cons y (placed-Perm x l)) (Perm.swap x y l))
  ]

  -- Among elements that it is not in front of, and before the others.
  pub placed-append :
      (x : A) (l r : List A)
      → All (λ y. go x y ≡ false) l
      → placed go x (l ++ r) ≡ l ++ placed go x r
  unfolding placed
  placed-append x [] r h = refl
  placed-append x (y ∷ l) r h = rw (placed, h.0) (ap (◌∷◌ y) (placed-append x l r h.1))

  pub placed_before :
      (x y : A) (l r : List A) → go x y ≡ true → placed go x (l ++ y ∷ r) ≡ placed go x l ++ y ∷ r
  unfolding placed
  placed_before x y [] r h = rw (placed, h) refl
  placed_before x y (z ∷ l) r h = elim (Bool-cases (go x z)) [
    | inl here ↦ rw (placed, here) refl
    | inr later ↦ rw (placed, later) (ap (◌∷◌ z) (placed_before x y l r h))
  ]

  module _ (R : A → A → Type 0) (trans : (x y z : A) → R x y → R y z → R x z)
      (before : (x y : A) → go x y ≡ true → R x y)
      (behind : (x y : A) → go x y ≡ false → R y x) where
    All-weaken : (x y : A) (l : List A) → R x y → All (R y) l → All (R x) l
    All-weaken x y [] h k = tt
    All-weaken x y (z ∷ l) h k = (trans x y z h k.0, All-weaken x y l h k.1)

    pub placed-Sorted : (x : A) (l : List A) → Sorted R l → Sorted R (placed go x l)
    unfolding placed
    placed-Sorted x [] h = (tt, tt)
    placed-Sorted x (y ∷ l) h = elim (Bool-cases (go x y)) [
      | inl here ↦ rw here ((before x y here, All-weaken x y l (before x y here) h.0), h)
      | inr later ↦ rw later (placed-All (R y) x l (behind x y later) h.0, placed-Sorted x l h.1)
    ]

module _ {ℓ} {A : Type ℓ} (R : A → A → Type 0) where
  pub Sorted-middle :
      (l : List A) (y : A) (r : List A)
      → Sorted R (l ++ y ∷ r)
      → Sorted R l × All (λ x. R x y) l × All (R y) r × Sorted R r
  Sorted-middle [] y r h = (tt, tt, h.0, h.1)
  Sorted-middle (x ∷ l) y r h =
      let (left, below, above, right) = Sorted-middle l y r h.1 in
      let (first, mid) = All_middle (R x) l y r h.0 in ((first, left), (mid, below), above, right)
    where
      All_middle :
          (P : A → Type 0) (l : List A) (y : A) (r : List A) → All P (l ++ y ∷ r) → All P l × P y
      All_middle P [] y r h = (tt, h.0)
      All_middle P (x ∷ l) y r h = let (first, mid) = All_middle P l y r h.1 in ((h.0, first), mid)

  pub All-without :
      (P : A → Type 0) (l : List A) (y : A) (r : List A) → All P (l ++ y ∷ r) → All P (l ++ r)
  All-without P [] y r h = h.1
  All-without P (x ∷ l) y r h = (h.0, All-without P l y r h.1)

  pub Sorted-without : (l : List A) (y : A) (r : List A) → Sorted R (l ++ y ∷ r) → Sorted R (l ++ r)
  Sorted-without [] y r h = h.1
  Sorted-without (x ∷ l) y r h = (All-without (R x) l y r h.0, Sorted-without l y r h.1)

  pub Sorted-snoc : (l : List A) (y : A) → Sorted R l → All (λ x. R x y) l → Sorted R (l ++ y ∷ [])
  Sorted-snoc [] y h k = (tt, tt)
  Sorted-snoc (x ∷ l) y h k = (All-append (R x) l (y ∷ []) h.0 (k.0, tt), Sorted-snoc l y h.1 k.1)
