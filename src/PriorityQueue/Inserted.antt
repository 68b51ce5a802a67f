-- ===== src/PriorityQueue/Inserted.antt =====
-- Any number of insertions into a new queue.
use mathlib.Core.List.{Perm}
use mathlib.Core.List.Perm
use redlib.Prelude.{ℕ, ◌≡◌, ◌≢◌, refl, Bool, List, [], Bool-cases, inl, inr, ◌==◌, ◌∷◌, All}
use redlib.Prelude.Int.{ℤ}
use redlib.Sorting.{Sorted, placed-Perm}
use redlib.PriorityQueue.{PriorityQueue, create_queue, insert, traverse}
use redlib.PriorityQueue.Order.{Precedes, ahead, insert-placed}

-- The items of the list go in one after the other, the last one of the list first.
abbrev pub inserted : Bool → List (ℕ × ℤ) → PriorityQueue
inserted ascending [] = create_queue ascending
inserted ascending ((x, p) ∷ items) = insert (inserted ascending items) x p

inserted_ascending : (asc : Bool) (items : List (ℕ × ℤ)) → (inserted asc items).ascending ≡ asc
unfolding create_queue insert
inserted_ascending asc [] = refl
inserted_ascending asc ((x, p) ∷ items) = elim (Bool-cases (x == 0)) [
  | inl null ↦ rw null (inserted_ascending asc items)
  | inr item ↦ rw item (inserted_ascending asc items)
]

-- After any insertions of items that are not NULL the traversal calls exactly those items, each
-- with its priority, in the order of the priorities.
pub inserted-IsSorting :
    (asc : Bool) (items : List (ℕ × ℤ))
    → All (λ e. e.0 ≢ 0) items
    → Sorted (Precedes asc) (traverse (inserted asc items))
      × Perm (traverse (inserted asc items)) items
unfolding create_queue traverse
inserted-IsSorting asc [] h = (tt, Perm.rfl)
inserted-IsSorting asc ((x, p) ∷ items) h =
    let (sorted, perm) = inserted-IsSorting asc items h.1 in
    let same = inserted_ascending asc items in
    let (e, sorted') = insert-placed (inserted asc items) x p h.0 (rw same sorted) in
    (
      rw same at sorted',
      rw e (
          Perm.trans
            (placed-Perm (ahead (inserted asc items).ascending) (x, p)
              (traverse (inserted asc items)))
            (Perm.cons (x, p) perm)),
    )
