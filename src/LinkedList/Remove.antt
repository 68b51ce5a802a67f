-- ===== src/LinkedList/Remove.antt =====
-- `remove` and `clear` on linked lists.
use mathlib.Core.Path.{subst}
use mathlib.Core.List.{append-nil}
use redlib.Prelude.{
  ℕ, zero, suc, ◌+◌, ◌≡◌, ◌≢◌, ◌≤◌, refl, ap, ◌∙◌, true, false, List, [], ◌∷◌, ◌++◌, some, All,
  if◌then◌else◌, ◌==◌, length, length-append, arith,
}
use redlib.Sorting.{Sorted-middle, All-without, Sorted-without}
use redlib.LinkedList.{LinkedList, last, pop_front, unlink, remove, clear}
use redlib.LinkedList.Linked.{
  Differ, IsNode, IsLinked, last-All, last-append, of_nodes, of_nodes-eq, same_list,
  of_nodes-IsLinked,
}

unlink_middle :
    (a e n d : ℕ) (front back : List (ℕ × ℕ))
    → All (λ f. f.0 ≢ n) front
    → unlink n a (front ++ (n, d) ∷ back) ≡ some (last ((a, e) ∷ front), d, front ++ back)
unfolding unlink last
unlink_middle a e n d [] back h = let here : (n == n) ≡ true = ground arith in rw here refl
unlink_middle a e n d ((b, f) ∷ front) back h =
    let other : (b == n) ≡ false = ground (arith, h.0) in
    rw (unlink, other, unlink_middle b f n d front back h.1) refl

middle_given :
    (front : List (ℕ × ℕ)) (x : ℕ × ℕ) (back : List (ℕ × ℕ))
    → All IsNode (front ++ x ∷ back)
    → IsNode x
middle_given [] x back h = h.0
middle_given (y ∷ front) x back h = middle_given front x back h.1

remove-of_nodes :
    (front : List (ℕ × ℕ)) (n d : ℕ) (back : List (ℕ × ℕ))
    → IsLinked (of_nodes (front ++ (n, d) ∷ back))
    → remove (of_nodes (front ++ (n, d) ∷ back)) n ≡ (d, of_nodes (front ++ back))
unfolding remove pop_front last
remove-of_nodes [] n d [] h =
    let item : (n == 0) ≡ false = ground (arith, h.given.0) in
    let here : (n == n) ≡ true = ground arith in rw (item, here) refl
remove-of_nodes [] n d (y ∷ back) h =
    let item : (n == 0) ≡ false = ground (arith, h.given.0) in
    let next : (y.0 == 0) ≡ false = ground (arith, h.given.1.0) in
    let here : (n == n) ≡ true = ground arith in
    rw (item, here, next)
      (ap (λ (l : LinkedList). (d, l)) (same_list refl refl (omega (arith, h.short))))
remove-of_nodes ((a, e) ∷ front) n d back h =
    let (_, below, above, _) = Sorted-middle Differ ((a, e) ∷ front) (n, d) back h.distinct in
    let given = middle_given ((a, e) ∷ front) (n, d) back h.given in
    let item : (n == 0) ≡ false = ground (arith, given) in
    let other : (n == a) ≡ false = ground (arith, below.0) in
    rw (item, other, unlink_middle a e n d front back below.1)
      (ap (λ (l : LinkedList). (d, l))
        (same_list refl (new_tail back above)
          (omega (arith, h.short, length-append front ((n, d) ∷ back), length-append front back))))
  where
    new_tail :
        (back : List (ℕ × ℕ))
        → All (Differ (n, d)) back
        → (if n == last ((a, e) ∷ front ++ (n, d) ∷ back)
            then last ((a, e) ∷ front)
            else last ((a, e) ∷ front ++ (n, d) ∷ back))
          ≡ last ((a, e) ∷ front ++ back)
    new_tail [] k =
        let here : (n == n) ≡ true = ground arith in
        rw (last-append ((a, e) ∷ front) (n, d) [], here, append-nil front) refl
    new_tail (y ∷ back) k =
        let apart = last-All (λ b. n ≢ b) y back k in
        let there : (n == last (y ∷ back)) ≡ false = ground (arith, apart) in
        rw
          (
            last-append ((a, e) ∷ front) (n, d) (y ∷ back),
            there,
            last-append ((a, e) ∷ front) y back,
          )
          refl

remove-IsLinked :
    (front : List (ℕ × ℕ)) (x : ℕ × ℕ) (back : List (ℕ × ℕ))
    → IsLinked (of_nodes (front ++ x ∷ back))
    → IsLinked (of_nodes (front ++ back))
remove-IsLinked front x back h =
    of_nodes-IsLinked (front ++ back) (All-without Differ IsNode front x back h.given)
      (Sorted-without Differ front x back h.distinct)
      (omega (arith, h.short, length-append front (x ∷ back), length-append front back))

-- From a linked list `remove` takes the given node, wherever it stands, answers its data, keeps the
-- other nodes in their order, and the list stays linked.
pub remove-IsUnlinked :
    (l : LinkedList) (front : List (ℕ × ℕ)) (n d : ℕ) (back : List (ℕ × ℕ))
    → IsLinked l
    → l.nodes ≡ front ++ (n, d) ∷ back
    → ((remove l n).0 ≡ d) × ((remove l n).1.nodes ≡ front ++ back) × IsLinked (remove l n).1
remove-IsUnlinked l front n d back h e =
    let same = of_nodes-eq l h ∙ ap of_nodes e in
    let h' : IsLinked (of_nodes (front ++ (n, d) ∷ back)) = rw same at h in
    rw (same, remove-of_nodes front n d back h') (refl, refl, remove-IsLinked front (n, d) back h')

last_of :
    (x : ℕ × ℕ) (l : List (ℕ × ℕ))
    → (init : List (ℕ × ℕ)) × (n : ℕ) × (d : ℕ) × (x ∷ l ≡ init ++ (n, d) ∷ [])
last_of (n, d) [] = ([], n, d, refl)
last_of x (y ∷ l) = let (init, n, d, e) = last_of y l in (x ∷ init, n, d, ap (◌∷◌ x) e)

clear_step :
    (rounds : ℕ) (l : LinkedList)
    → (l.tail == 0) ≡ false
    → clear (suc rounds) l ≡ clear rounds (remove l l.tail).1
unfolding clear
clear_step rounds l h = rw h refl

clear_last :
    (rounds : ℕ) (init : List (ℕ × ℕ)) (n d : ℕ)
    → IsLinked (of_nodes (init ++ (n, d) ∷ []))
    → clear (suc rounds) (of_nodes (init ++ (n, d) ∷ [])) ≡ clear rounds (of_nodes (init ++ []))
unfolding last
clear_last rounds init n d h =
    let item : (n == 0) ≡ false = ground (arith, middle_given init (n, d) [] h.given) in
    let l = of_nodes (init ++ (n, d) ∷ []) in
    let ends : l.tail ≡ n = last-append init (n, d) [] in
    clear_step rounds l (rw ends item)
    ∙ ap (λ t. clear rounds (remove l t).1) ends
    ∙ ap (λ (r : ℕ × LinkedList). clear rounds r.1) (remove-of_nodes init n d [] h)

clear-of_nodes :
    (rounds : ℕ) (nodes : List (ℕ × ℕ))
    → IsLinked (of_nodes nodes)
    → length nodes ≤ rounds
    → clear rounds (of_nodes nodes) ≡ of_nodes []
unfolding clear last
clear-of_nodes zero [] h enough = refl
clear-of_nodes zero (x ∷ l) h enough = absurd (omega (arith, enough))
clear-of_nodes (suc rounds) [] h enough = refl
clear-of_nodes (suc rounds) (x ∷ l) h enough =
    let (init, n, d, e) = last_of x l in
    let h' = subst (λ ns. IsLinked (of_nodes ns)) e h in
    let short : suc (length l) ≡ length init + 1 = ap length e ∙ length-append init ((n, d) ∷ []) in
    ap (λ ns. clear (suc rounds) (of_nodes ns)) e
    ∙ clear_last rounds init n d h'
    ∙ clear-of_nodes rounds (init ++ []) (remove-IsLinked init (n, d) [] h')
        (omega (arith, enough, short, length-append init []))

-- The loop of `clear` empties a linked list: as many rounds as there are nodes are enough.
pub clear-IsEmpty :
    (l : LinkedList) (rounds : ℕ)
    → IsLinked l
    → length l.nodes ≤ rounds
    → clear rounds l ≡ record { nodes = []; tail = 0; length = 0 }
unfolding last
clear-IsEmpty l rounds h enough =
    let same = of_nodes-eq l h in
    ap (clear rounds) same ∙ clear-of_nodes rounds l.nodes (rw same at h) enough
