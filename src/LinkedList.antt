-- ===== src/LinkedList.antt =====
-- data/struct/linked_list.c and linked_list.h. The nodes are kept in the order of their `next`
-- pointers, from `head` on, each as its address and its data; `head` is the address of the first one.
-- NULL is 0; `pop_front` and `remove` give back the node whose data they answer. The allocator grants every block: the address of a new node is an argument.
pub mod Linked
pub mod Remove
pub mod Sort
mod Tests
use redlib.Prelude.{
  ℕ, zero, suc, Bool, true, false, not, ◌&&◌, List, [], ◌∷◌, ◌++◌, Option, none, some,
  if◌then◌else◌, ◌==◌, map, add64, sub64, mul64,
}
use redlib.Prelude.Int.{ℤ, pos}
use redlib.Sorting.{placed}

pub record LinkedList : Type 0 where
  pub nodes : List (ℕ × ℕ)
  pub tail : ℕ
  pub length : ℕ

-- The code sets `alloc` and `free` only: the block comes from `zalloc`, or from an allocator that clears
-- as it does.
unfoldable pub create_list : LinkedList
create_list = record { nodes = []; tail = 0; length = 0 }

-- The address of the first node.
unfoldable pub head : List (ℕ × ℕ) → ℕ
head [] = 0
head ((a, d) ∷ nodes) = a

-- The address of the last node.
pub last : List (ℕ × ℕ) → ℕ
last [] = 0
last ((a, d) ∷ []) = a
last ((a, d) ∷ node ∷ nodes) = last (node ∷ nodes)

unfoldable pub push_front : LinkedList → ℕ → ℕ → LinkedList
push_front l new_node d = record {
  nodes = (new_node, d) ∷ l.nodes;
  tail = if l.tail == 0 then new_node else l.tail;
  length = add64 l.length 1;
}

-- The data, NULL for an empty list, and what is left.
unfoldable pub pop_front : LinkedList → ℕ × LinkedList
unfolding head
pop_front l = elim l.nodes [
  | [] ↦ (0, l)
  | (a, d) ∷ rest ↦ (
    d,
    record { nodes = rest; tail = if head rest == 0 then 0 else l.tail; length = sub64 l.length 1 },
  )
]

pub hang_behind : ℕ → ℕ × ℕ → List (ℕ × ℕ) → List (ℕ × ℕ)
hang_behind node new [] = []
hang_behind node new ((a, d) ∷ nodes) =
    if a == node then (a, d) ∷ new ∷ nodes else (a, d) ∷ hang_behind node new nodes

unfoldable pub insert_after : LinkedList → ℕ → ℕ → ℕ → LinkedList
unfolding push_front hang_behind
insert_after l node new_node d = if node == 0 then push_front l new_node d else record {
  nodes = hang_behind node (new_node, d) l.nodes;
  tail = if l.tail == node then new_node else l.tail;
  length = add64 l.length 1;
}

-- The walk with `prev` at a node: the address of the node in front of the one looked for, the data of
-- that one, and the nodes behind `prev` without it.
pub unlink : ℕ → ℕ → List (ℕ × ℕ) → Option (ℕ × ℕ × List (ℕ × ℕ))
unlink node prev [] = none
unlink node prev ((a, d) ∷ nodes) =
    if a == node then some (prev, d, nodes) else elim (unlink node a nodes) [
      | none ↦ none
      | some (before, e, rest) ↦ some (before, e, (a, d) ∷ rest)
    ]

unfoldable pub remove : LinkedList → ℕ → ℕ × LinkedList
unfolding pop_front unlink
remove l node = elim l.nodes [
  | [] ↦ (0, l)
  | (a, d) ∷ nodes ↦
      if node == 0 then (0, l) else if node == a then pop_front l else elim (unlink node a nodes) [
        | none ↦ (0, l)
        | some (before, e, rest) ↦ (
          e,
          record {
            nodes = (a, d) ∷ rest;
            tail = if node == l.tail then before else l.tail;
            length = sub64 l.length 1;
          },
        )
      ]
]

-- Behind the last node.
unfoldable pub push : LinkedList → ℕ → ℕ → LinkedList
unfolding insert_after
push l new_node d = insert_after l l.tail new_node d

-- The loop that removes the last node; `rounds` bounds it.
pub clear : ℕ → LinkedList → LinkedList
unfolding remove
clear zero l = l
clear (suc rounds) l =
    let cleared = clear rounds (remove l l.tail).1 in if l.tail == 0 then l else cleared

pub write_data : ℕ → ℕ → List (ℕ × ℕ) → List (ℕ × ℕ)
write_data node new_data [] = []
write_data node new_data ((a, d) ∷ nodes) =
    if a == node then (a, new_data) ∷ nodes else (a, d) ∷ write_data node new_data nodes

unfoldable pub update : LinkedList → ℕ → ℕ → LinkedList
unfolding write_data
update l node new_data =
    if node == 0 then l else record l { nodes = write_data node new_data l.nodes }

unfoldable pub count : LinkedList → ℕ
count l = l.length

-- The nodes that `destroy` gives back, in their order, before the list itself.
unfoldable pub destroy : LinkedList → List ℕ
destroy l = map (λ ((a, d) : ℕ × ℕ). a) l.nodes

-- The address of the first node for which `cmp` answers 0, or NULL.
pub find_from : (ℕ → ℕ → Bool) → ℕ → List (ℕ × ℕ) → ℕ
find_from matches key [] = 0
find_from matches key ((a, d) ∷ nodes) = if matches d key then a else find_from matches key nodes

unfoldable pub find : LinkedList → ℕ → (ℕ → ℕ → Bool) → ℕ
unfolding find_from
find l key matches = find_from matches key l.nodes

-- The calls of `for_each`.
unfoldable pub for_each : LinkedList → List ℕ
for_each l = map (λ ((a, d) : ℕ × ℕ). d) l.nodes

-- The node at an index; the address NULL and the data 0 behind the last one.
pub node_at : List (ℕ × ℕ) → ℕ → ℕ × ℕ
node_at [] index = (0, 0)
node_at (node ∷ nodes) zero = node
node_at (node ∷ nodes) (suc index) = node_at nodes index

unfoldable pub get_data : LinkedList → ℕ → ℕ
unfolding node_at
get_data l index = (node_at l.nodes index).1

unfoldable pub get_node : LinkedList → ℕ → ℕ
unfolding node_at
get_node l index = (node_at l.nodes index).0

-- One round of the sort on the nodes from the first up to `current`.
unfoldable pub sort_step : (ℕ → ℕ → Bool) → List (ℕ × ℕ) → ℕ × ℕ → ℕ × ℕ → List (ℕ × ℕ) × (ℕ × ℕ)
unfolding placed
sort_step less done current node =
    if not (less node.1 current.1)
    then (placed (λ x y. not (less x.1 y.1)) node done, current)
    else (done ++ node ∷ [], node)

pub sort_from : (ℕ → ℕ → Bool) → List (ℕ × ℕ) → ℕ × ℕ → List (ℕ × ℕ) → List (ℕ × ℕ)
unfolding sort_step
sort_from less done current [] = done
sort_from less done current (node ∷ rest) =
    let (done', current') = sort_step less done current node in sort_from less done' current' rest

unfoldable pub sort : LinkedList → (ℕ → ℕ → Bool) → LinkedList
unfolding sort_from last
sort l less = elim l.nodes [
  | [] ↦ l
  | (a, d) ∷ [] ↦ l
  | (a, d) ∷ node ∷ nodes ↦
      let sorted = sort_from less ((a, d) ∷ []) (a, d) (node ∷ nodes) in
      if a == l.tail then l else record l { nodes = sorted; tail = last sorted }
]
