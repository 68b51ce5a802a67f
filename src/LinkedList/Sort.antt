-- ===== src/LinkedList/Sort.antt =====
-- `linked_list_sort`.
use mathlib.Core.Path.{subst}
use mathlib.Core.List.{Perm, perm_middle, append_assoc, append-nil}
use mathlib.Core.List.Perm
use redlib.Prelude.{
  ℕ, ◌≡◌, ◌≢◌, refl, sym, ap, Bool, true, false, not, List, [], ◌∷◌, ◌++◌, All, ◌==◌, length, arith,
  Bool-cases, inl, inr,
}
use redlib.Sorting.{
  Sorted, Sorted-middle, Sorted-snoc, placed, placed_before, placed-Sorted, placed-Perm,
}
use redlib.LinkedList.Linked.{IsLinked, of_nodes, of_nodes-eq, last-All}
use redlib.LinkedList.{LinkedList, last, sort_step, sort_from, sort}

module _ (less : ℕ → ℕ → Bool) (asym : (a b : ℕ) → less a b ≡ true → less b a ≡ false)
    (trans : (a b c : ℕ) → less a b ≡ false → less b c ≡ false → less a c ≡ false) where
  -- The data of the first is not less than that of the second.
  abbrev pub NotLess : ℕ × ℕ → ℕ × ℕ → Type 0
  NotLess e f = less e.1 f.1 ≡ false

  abbrev goes : ℕ × ℕ → ℕ × ℕ → Bool
  goes x y = not (less x.1 y.1)

  NotLess-trans : (x y z : ℕ × ℕ) → NotLess x y → NotLess y z → NotLess x z
  NotLess-trans x y z = trans x.1 y.1 z.1

  refuted : (b : Bool) → not b ≡ true → b ≡ false
  refuted b h = ground (arith, h)

  upheld : (b : Bool) → not b ≡ false → b ≡ true
  upheld b h = ground (arith, h)

  keeps_order : (x : ℕ × ℕ) (l : List (ℕ × ℕ)) → Sorted NotLess l → Sorted NotLess (placed goes x l)
  keeps_order =
      placed-Sorted goes NotLess NotLess-trans (λ x y h. refuted (less x.1 y.1) h)
        (λ x y h. asym x.1 y.1 (upheld (less x.1 y.1) h))

  behind_last :
      (l : List (ℕ × ℕ)) (c x : ℕ × ℕ)
      → All (λ y. NotLess y c) l
      → NotLess c x
      → All (λ y. NotLess y x) (l ++ c ∷ [])
  behind_last [] c x h k = (k, tt)
  behind_last (y ∷ l) c x h k = (NotLess-trans y c x h.0 k, behind_last l c x h.1 k)

  sort_from-Sorted :
      (init : List (ℕ × ℕ)) (c : ℕ × ℕ) (rest : List (ℕ × ℕ))
      → Sorted NotLess (init ++ c ∷ [])
      → Sorted NotLess (sort_from less (init ++ c ∷ []) c rest)
        × Perm (sort_from less (init ++ c ∷ []) c rest) ((init ++ c ∷ []) ++ rest)
  unfolding sort_from sort_step
  sort_from-Sorted init c [] h = (h, rw (append-nil (init ++ c ∷ [])) Perm.rfl)
  sort_from-Sorted init c (x ∷ rest) h = elim (Bool-cases (goes x c)) [
    | inl here ↦
        let e = placed_before goes x c init [] here in
        let step : sort_step less (init ++ c ∷ []) c x ≡ (placed goes x init ++ c ∷ [], c) =
          rw (sort_step, here) (ap (λ (d : List (ℕ × ℕ)). (d, c)) e) in
        let in_order = keeps_order x (init ++ c ∷ []) h in
        let taken = placed-Perm goes x (init ++ c ∷ []) in
        let (sorted, perm) = sort_from-Sorted (placed goes x init) c rest (rw e at in_order) in
        let same : Perm (placed goes x init ++ c ∷ []) (x ∷ init ++ c ∷ []) = rw e at taken in
        rw step (
          sorted,
          Perm.trans perm (
              Perm.trans (Perm.append_right rest same)
                (Perm.symm (perm_middle (init ++ c ∷ []) rest))),
        )
    | inr later ↦
        let (_, below, _, _) = Sorted-middle NotLess init c [] h in
        let follows = asym x.1 c.1 (upheld (less x.1 c.1) later) in
        let step : sort_step less (init ++ c ∷ []) c x ≡ ((init ++ c ∷ []) ++ x ∷ [], x) =
          rw (sort_step, later) refl in
        let (sorted, perm) =
          sort_from-Sorted (init ++ c ∷ []) x rest
            (Sorted-snoc NotLess (init ++ c ∷ []) x h (behind_last init c x below follows)) in
        rw step (sorted, rw (append_assoc (init ++ c ∷ []) (x ∷ []) rest) at perm)
  ]

  -- The list before is given by its nodes.
  abbrev pub IsSorting : List (ℕ × ℕ) → LinkedList → Type 0
  IsSorting nodes l =
      Sorted NotLess l.nodes
      × Perm l.nodes nodes
      × (l.tail ≡ last l.nodes)
      × (l.length ≡ length nodes)

  sort-of_nodes :
      (nodes : List (ℕ × ℕ))
      → IsLinked (of_nodes nodes)
      → IsSorting nodes (sort (of_nodes nodes) less)
  unfolding sort last
  sort-of_nodes [] h = (tt, Perm.rfl, refl, refl)
  sort-of_nodes (x ∷ []) h = ((tt, tt), Perm.rfl, refl, refl)
  sort-of_nodes ((a, d) ∷ y ∷ nodes) h =
      let apart = last-All (λ b. a ≢ b) y nodes h.distinct.0 in
      let there : (a == last (y ∷ nodes)) ≡ false = ground (arith, apart) in
      let (sorted, perm) = sort_from-Sorted [] (a, d) (y ∷ nodes) (tt, tt) in
      rw there (sorted, perm, refl, refl)

  -- On a linked list, for a test that holds of two data in one order at most and whose negation goes
  -- on from one to the next, `linked_list_sort` leaves the same nodes, the greatest data first, with
  -- `tail` at the last node and `length` the number of nodes.
  pub sort-IsSorting : (l : LinkedList) → IsLinked l → IsSorting l.nodes (sort l less)
  sort-IsSorting l h =
      let same = of_nodes-eq l h in
      let linked : IsLinked (of_nodes l.nodes) = rw same at h in
      subst (λ k. IsSorting l.nodes (sort k less)) (sym same) (sort-of_nodes l.nodes linked)
