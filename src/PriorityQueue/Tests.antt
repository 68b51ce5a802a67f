-- ===== src/PriorityQueue/Tests.antt =====
-- Runs of the priority queue, and its theorems at concrete items.
use mathlib.Core.List.{Perm}
use redlib.Prelude.{ℕ, ◌≡◌, refl, true, false, List, [], ◌∷◌, arith}
use redlib.Prelude.Int.{ℤ, pos, negsuc, ltb_ℤ}
use redlib.Sorting.{Sorted}
use redlib.PriorityQueue.{create_queue, goes_left, hdr_insert, insert, traverse}
use redlib.PriorityQueue.Order.{Precedes}
use redlib.PriorityQueue.Inserted.{inserted, inserted-IsSorting}

abbrev items : List (ℕ × ℤ)
items = (1, pos 5) ∷ (2, negsuc 0) ∷ (3, pos 5) ∷ []

-- Of equal priorities the one inserted first is called first; item 3 goes in first here.
traverse-items : traverse (inserted true items) ≡ (2, negsuc 0) ∷ (3, pos 5) ∷ (1, pos 5) ∷ []
unfolding traverse insert hdr_insert goes_left create_queue ltb_ℤ
traverse-items = refl

inserted-IsSorting_example :
    Sorted (Precedes false) (traverse (inserted false items))
    × Perm (traverse (inserted false items)) items
inserted-IsSorting_example =
    inserted-IsSorting false items (omega arith, (omega arith, (omega arith, tt)))
