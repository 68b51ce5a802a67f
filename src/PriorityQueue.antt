-- ===== src/PriorityQueue.antt =====
-- data/struct/priority_queue.c and priority_queue.h. A node that is NULL is `nil`. The allocator grants
-- every block, and clears it. `priority_queue_destroy` is not modelled: it reads nodes that it has
-- given back.
pub mod Order
pub mod Inserted
mod Tests
use redlib.Prelude.{ℕ, Bool, true, false, List, [], ◌∷◌, ◌++◌, if◌then◌else◌, ◌==◌}
use redlib.Prelude.Int.{ℤ, ltb_ℤ}

pub data Node : Type 0 where
  nil : Node
  hdr : (lh : Node) (ptr : ℕ) (priority : ℤ) (rh : Node) → Node

pub record PriorityQueue : Type 0 where
  pub root : Node
  pub ascending : Bool

unfoldable pub create_queue : Bool → PriorityQueue
create_queue ascending = record { root = nil; ascending = ascending }

unfoldable pub make_hdr : ℕ → ℤ → Node
make_hdr item priority = hdr nil item priority nil

-- The test that goes to the left.
unfoldable pub goes_left : Bool → ℤ → ℤ → Bool
goes_left ascending p q = if ascending then ltb_ℤ p q else ltb_ℤ q p

-- An empty side is where the new node is hung in.
pub hdr_insert : Bool → Node → ℕ → ℤ → Node
unfolding make_hdr goes_left
hdr_insert ascending nil item priority = make_hdr item priority
hdr_insert ascending (hdr l x p r) item priority =
    let l' = hdr_insert ascending l item priority in
    let r' = hdr_insert ascending r item priority in
    if goes_left ascending priority p then hdr l' x p r else hdr l x p r'

-- The item NULL is not taken.
unfoldable pub insert : PriorityQueue → ℕ → ℤ → PriorityQueue
unfolding hdr_insert
insert queue item priority =
    if item == 0
    then queue
    else record queue { root = hdr_insert queue.ascending queue.root item priority }

-- The calls that the traversal makes, in their order, each with an item and its priority.
pub hdr_traverse : Node → List (ℕ × ℤ)
hdr_traverse nil = []
hdr_traverse (hdr l x p r) = hdr_traverse l ++ (x, p) ∷ hdr_traverse r

unfoldable pub traverse : PriorityQueue → List (ℕ × ℤ)
unfolding hdr_traverse
traverse queue = hdr_traverse queue.root
