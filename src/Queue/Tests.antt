-- ===== src/Queue/Tests.antt =====
-- Runs of the queue on small inputs, and the theorems at concrete queues.
use redlib.Prelude.{
  ℕ, zero, suc, ◌+◌, ◌%◌, ◌<◌, ◌≡◌, refl, inl, List, [], ◌∷◌, Option, none, some, arith, get_elem?,
  replicate,
}
use redlib.Queue.{Queue, enqueue, dequeue, grown_capacity}
use redlib.Queue.Models.{Holds, dequeue_refines}
use redlib.Queue.Grow.{Stands}
use redlib.Queue.Enqueue.{
  Yields, enqueue_fixed_refines, enqueue_unlimited_appends, enqueue_refused_refines,
}
use redlib.Fifo

-- An allocator of zeroed slots of 8 bytes, and one that always refuses.
abbrev zeroed : ℕ → Option (List ℕ)
zeroed n = some (replicate n 0)

abbrev refusing : ℕ → Option (List ℕ)
refusing n = none

abbrev held : List ℕ
held = 4 ∷ 5 ∷ 6 ∷ []

abbrev block : List ℕ
block = 6 ∷ 4 ∷ 5 ∷ []

-- Full, without limit, the oldest element in the middle of the block.
abbrev turned : Queue ℕ
turned = record {
  buffer = some (6 ∷ 4 ∷ 5 ∷ []);
  capacity = 3;
  max_capacity = 0;
  elem_size = 8;
  head = 1;
  tail = 1;
  length = 3;
}

turned-Holds : Holds turned block held
turned-Holds = record {
  buffer_is = refl;
  window = record {
    storage = omega arith;
    tail_in = omega arith;
    fits = omega arith;
    cells = cells;
  };
  small = omega arith;
  head_at = refl;
  length_is = refl;
}
  where
    cells : (i : ℕ) → i < 3 → get_elem? block ((1 + i) % 3) ≡ get_elem? held i
    cells zero h = refl
    cells (suc zero) h = refl
    cells (suc (suc zero)) h = refl
    cells (suc (suc (suc i))) h = absurd (omega arith)

-- The same block in a queue of fixed size.
abbrev fixed : Queue ℕ
fixed = record turned { max_capacity = 3 }

fixed-Holds : Holds fixed block held
fixed-Holds = record {
  buffer_is = refl;
  window = turned-Holds.window;
  small = omega arith;
  head_at = refl;
  length_is = refl;
}

-- The growth straightens the block.
enqueue-turned : (enqueue (λ n. some (replicate 6 0)) turned 7).1 ≡ record {
  buffer = some (4 ∷ 5 ∷ 6 ∷ 7 ∷ 0 ∷ 0 ∷ []);
  capacity = 6;
  max_capacity = 0;
  elem_size = 8;
  head = 4;
  tail = 0;
  length = 4;
}
unfolding enqueue
enqueue-turned = refl

enqueue_unlimited_appends_example : Yields (enqueue zeroed turned 7) 1 (4 ∷ 5 ∷ 6 ∷ 7 ∷ [])
unfolding grown_capacity
enqueue_unlimited_appends_example =
    enqueue_unlimited_appends zeroed turned held 7 (inl (_, turned-Holds)) (omega arith) refl
      (omega arith) (replicate 48 0, refl, omega arith)

enqueue_fixed_refines_example :
    Yields (enqueue zeroed fixed 7) (Fifo.push 3 held 7).0 (Fifo.push 3 held 7).1
enqueue_fixed_refines_example =
    enqueue_fixed_refines zeroed fixed block held 7 fixed-Holds (omega arith) (omega arith)

enqueue_refused_refines_example :
    ((enqueue refusing turned 7).0 ≡ (Fifo.push 3 held 7).0)
    × Stands (enqueue refusing turned 7).1 (Fifo.push 3 held 7).1
    × ((enqueue refusing turned 7).1.capacity ≡ 3)
enqueue_refused_refines_example =
    enqueue_refused_refines refusing turned held 7 (inl (_, turned-Holds)) (omega arith) refl refl

dequeue_refines_example :
    ((dequeue turned).0 ≡ (Fifo.pop held).0)
    × ((dequeue turned).1 ≡ (Fifo.pop held).1)
    × Holds (dequeue turned).2 block (Fifo.pop held).2
dequeue_refines_example = dequeue_refines turned block held turned-Holds
