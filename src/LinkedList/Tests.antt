-- ===== src/LinkedList/Tests.antt =====
-- Runs of the linked list, and its theorems at concrete lists.
use redlib.Prelude.{ℕ, ◌≡◌, refl, true, false, List, [], ◌∷◌, ltb, ◌==◌, arith}
use redlib.Sorting.{placed}
use redlib.LinkedList.{LinkedList, last, push, remove, clear, sort, sort_step, find}
use redlib.LinkedList.Linked.{IsLinked, push-IsPushed}
use redlib.LinkedList.Remove.{remove-IsUnlinked, clear-IsEmpty}
use redlib.LinkedList.Sort.{IsSorting, sort-IsSorting}

abbrev three : List (ℕ × ℕ)
three = (16, 5) ∷ (32, 9) ∷ (48, 7) ∷ []

abbrev three_list : LinkedList
three_list = record { nodes = three; tail = 48; length = 3 }

three_list-IsLinked : IsLinked three_list
unfolding last
three_list-IsLinked = record {
  given = (omega arith, (omega arith, (omega arith, tt)));
  distinct = ((omega arith, (omega arith, tt)), ((omega arith, tt), (tt, tt)));
  ends = refl;
  counted = refl;
  short = omega arith;
}

sort-three : (sort three_list ltb).nodes ≡ (32, 9) ∷ (48, 7) ∷ (16, 5) ∷ []
unfolding sort sort_step placed
sort-three = refl

ltb-asym : (a b : ℕ) → ltb a b ≡ true → ltb b a ≡ false
ltb-asym a b h = ground (arith, h)

ltb-trans : (a b c : ℕ) → ltb a b ≡ false → ltb b c ≡ false → ltb a c ≡ false
ltb-trans a b c h k = ground (arith, h, k)

find_missing : find three_list 8 ◌==◌ ≡ 0
unfolding find
find_missing = refl

sort-IsSorting_example : IsSorting ltb ltb-asym ltb-trans three (sort three_list ltb)
sort-IsSorting_example = sort-IsSorting ltb ltb-asym ltb-trans three_list three_list-IsLinked

remove-IsUnlinked_example :
    ((remove three_list 32).0 ≡ 9)
    × ((remove three_list 32).1.nodes ≡ (16, 5) ∷ (48, 7) ∷ [])
    × IsLinked (remove three_list 32).1
remove-IsUnlinked_example =
    remove-IsUnlinked three_list ((16, 5) ∷ []) 32 9 ((48, 7) ∷ []) three_list-IsLinked refl

clear-IsEmpty_example : clear 3 three_list ≡ record { nodes = []; tail = 0; length = 0 }
clear-IsEmpty_example = clear-IsEmpty three_list 3 three_list-IsLinked (omega arith)

push-IsPushed_example :
    ((push three_list 64 1).nodes ≡ (16, 5) ∷ (32, 9) ∷ (48, 7) ∷ (64, 1) ∷ [])
    × IsLinked (push three_list 64 1)
push-IsPushed_example =
    push-IsPushed three_list 64 1 three_list-IsLinked (omega arith)
      (omega arith, (omega arith, (omega arith, tt))) (omega arith)
