-- ===== src/LinkedList/Linked.antt =====
-- The invariant of a list, and what `push` does to a list that has it.
use redlib.Prelude.{
  ℕ, ◌+◌, ◌≡◌, ◌≢◌, ◌<◌, refl, sym, ap, ◌∙◌, true, false, List, [], ◌∷◌, ◌++◌, All, All-append,
  ◌==◌, length, length-append, arith, u64_mod,
}
use redlib.Sorting.{Sorted, Sorted-snoc}
use redlib.LinkedList.{LinkedList, last, push_front, hang_behind, insert_after, push}

abbrev pub Differ : ℕ × ℕ → ℕ × ℕ → Type 0
Differ e f = e.0 ≢ f.0

abbrev pub IsNode : ℕ × ℕ → Type 0
IsNode e = e.0 ≢ 0

-- No address is NULL or stands twice, `tail` is the last node and `length` the number of nodes.
pub record IsLinked (l : LinkedList) : Type 0 where
  pub given : All IsNode l.nodes
  pub distinct : Sorted Differ l.nodes
  pub ends : l.tail ≡ last l.nodes
  pub counted : l.length ≡ length l.nodes
  pub short : length l.nodes < u64_mod

pub last-All :
    (P : ℕ → Type 0) (x : ℕ × ℕ) (l : List (ℕ × ℕ)) → All (λ e. P e.0) (x ∷ l) → P (last (x ∷ l))
unfolding last
last-All P (a, d) [] h = h.0
last-All P (a, d) (y ∷ l) h = last-All P y l h.1

pub last-append :
    (front : List (ℕ × ℕ)) (x : ℕ × ℕ) (back : List (ℕ × ℕ))
    → last (front ++ x ∷ back) ≡ last (x ∷ back)
unfolding last
last-append [] x back = refl
last-append ((a, d) ∷ []) x back = refl
last-append ((a, d) ∷ y ∷ front) x back = last-append (y ∷ front) x back

hang_last :
    (x : ℕ × ℕ) (l : List (ℕ × ℕ)) (new : ℕ × ℕ)
    → Sorted Differ (x ∷ l)
    → hang_behind (last (x ∷ l)) new (x ∷ l) ≡ (x ∷ l) ++ new ∷ []
unfolding hang_behind last
hang_last (a, d) [] new h = let here : (a == a) ≡ true = ground arith in rw here refl
hang_last (a, d) (y ∷ l) new h =
    let apart = last-All (λ b. a ≢ b) y l h.0 in
    let other : (a == last (y ∷ l)) ≡ false = ground (arith, apart) in
    rw other (ap (◌∷◌ (a, d)) (hang_last y l new h.1))

-- The list with other nodes, when it is linked.
abbrev pub of_nodes : List (ℕ × ℕ) → LinkedList
of_nodes nodes = record { nodes = nodes; tail = last nodes; length = length nodes }

pub of_nodes-eq : (l : LinkedList) → IsLinked l → l ≡ of_nodes l.nodes
of_nodes-eq l h = λ i. record { nodes = l.nodes; tail = h.ends i; length = h.counted i }

abbrev pub list_of : List (ℕ × ℕ) → ℕ → ℕ → LinkedList
list_of ns t k = record { nodes = ns; tail = t; length = k }

pub same_list :
    {ns ms : List (ℕ × ℕ)} {t u k j : ℕ} → ns ≡ ms → t ≡ u → k ≡ j → list_of ns t k ≡ list_of ms u j
same_list e f g = λ i. record { nodes = e i; tail = f i; length = g i }

pub of_nodes-IsLinked :
    (nodes : List (ℕ × ℕ))
    → All IsNode nodes
    → Sorted Differ nodes
    → length nodes < u64_mod
    → IsLinked (of_nodes nodes)
of_nodes-IsLinked nodes given distinct short = record {
  given = given;
  distinct = distinct;
  ends = refl;
  counted = refl;
  short = short;
}

push-of_nodes :
    (nodes : List (ℕ × ℕ)) (a d : ℕ)
    → IsLinked (of_nodes nodes)
    → length nodes + 1 < u64_mod
    → push (of_nodes nodes) a d ≡ of_nodes (nodes ++ (a, d) ∷ [])
unfolding push insert_after push_front last
push-of_nodes [] a d h room = refl
push-of_nodes (x ∷ nodes) a d h room =
    let apart = last-All (λ b. b ≢ 0) x nodes h.given in
    let full : (last (x ∷ nodes) == 0) ≡ false = ground (arith, apart) in
    let here : (last (x ∷ nodes) == last (x ∷ nodes)) ≡ true = ground arith in
    rw (full, here)
      (same_list (hang_last x nodes (a, d) h.distinct) (sym (last-append (x ∷ nodes) (a, d) []))
        (omega (arith, length-append nodes ((a, d) ∷ []))))

-- On a list with fewer than 2 ^ 64 - 1 nodes that is linked, `push` of a block with a new address other
-- than NULL appends the data, and the list stays linked.
pub push-IsPushed :
    (l : LinkedList) (a d : ℕ)
    → IsLinked l
    → a ≢ 0
    → All (λ e. e.0 ≢ a) l.nodes
    → length l.nodes + 1 < u64_mod
    → ((push l a d).nodes ≡ l.nodes ++ (a, d) ∷ []) × IsLinked (push l a d)
push-IsPushed l a d h block fresh room =
    let same = of_nodes-eq l h in
    let e =
      ap (λ (k : LinkedList). push k a d) same ∙ push-of_nodes l.nodes a d (rw same at h) room in
    rw e (
      refl,
      of_nodes-IsLinked (l.nodes ++ (a, d) ∷ [])
          (All-append IsNode l.nodes ((a, d) ∷ []) h.given (block, tt))
          (Sorted-snoc Differ l.nodes (a, d) h.distinct fresh)
          (omega (arith, length-append l.nodes ((a, d) ∷ []), room)),
    )
