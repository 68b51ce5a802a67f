-- ===== src/Queue/Models.antt =====
-- When a `CQueue` stands for a list of elements, and the operations that never allocate.
use redlib.Prelude.{
  ℕ, suc, ◌+◌, ◌-◌, ◌%◌, ◌≤◌, ◌<◌, ◌≡◌, refl, ap, List, [], ◌∷◌, Option, none, some, arith, length,
  get_elem?, u64_mod, add64, mul64, ◌==◌,
}
use redlib.Window.{Window, younger-Window, oldest, shorten_one}
use redlib.Queue.{Queue, init, dequeue, clear, is_empty, size}
use redlib.Fifo

module _ {ℓ} {A : Type ℓ} where
  -- A queue whose buffer is the block `b` holds the list `xs`.
  pub record Holds (q : Queue A) (b xs : List A) : Type ℓ where
    pub buffer_is : q.buffer ≡ some b
    pub window : Window b q.capacity q.tail xs
    pub small : q.capacity < u64_mod
    pub head_at : q.head ≡ (q.tail + length xs) % q.capacity
    pub length_is : q.length ≡ length xs

  dequeue-none : (q : Queue A) → q.length ≡ 0 → dequeue q ≡ (0, none, q)
  unfolding dequeue
  dequeue-none q e = ground (arith, e)

  dequeued : Queue A → Queue A
  dequeued q = record q { tail = add64 q.tail 1 % q.capacity; length = q.length - 1 }

  dequeue-some :
      (q : Queue A) (b : List A) (n : ℕ)
      → q.buffer ≡ some b
      → q.length ≡ suc n
      → dequeue q ≡ (1, get_elem? b q.tail, dequeued q)
  unfolding dequeue dequeued
  dequeue-some q b n e l = ground (arith, e, l)

  dequeued-Holds :
      (q : Queue A) (b : List A) (x : A) (xs : List A)
      → Holds q b (x ∷ xs)
      → Holds (dequeued q) b xs
  unfolding dequeued
  dequeued-Holds q b x xs h = record {
    buffer_is = h.buffer_is;
    window = younger-Window b q.capacity q.tail x xs h.window h.small;
    small = h.small;
    head_at = shorten_one q.capacity q.tail (length xs) q.head h.head_at h.window.tail_in h.small;
    length_is = omega (arith, h.length_is);
  }

  -- On a queue that holds a list `cqueue_dequeue` refuses exactly when the list is empty, and else hands
  -- out the oldest element and holds the rest.
  pub dequeue_refines :
      (q : Queue A) (b xs : List A)
      → Holds q b xs
      → ((dequeue q).0 ≡ (Fifo.pop xs).0)
        × ((dequeue q).1 ≡ (Fifo.pop xs).1)
        × Holds (dequeue q).2 b (Fifo.pop xs).2
  unfolding Fifo.pop
  dequeue_refines q b [] h = rw (dequeue-none q h.length_is) (refl, refl, h)
  dequeue_refines q b (x ∷ xs) h =
      rw (dequeue-some q b (length xs) h.buffer_is h.length_is)
        (refl, oldest b q.capacity q.tail x xs h.window, dequeued-Holds q b x xs h)

  pub clear-Holds : (q : Queue A) (b xs : List A) → Holds q b xs → Holds (clear q) b []
  unfolding clear
  clear-Holds q b xs h = record {
    buffer_is = h.buffer_is;
    window = record {
      storage = h.window.storage;
      tail_in = omega (arith, h.window.tail_in);
      fits = omega arith;
      cells = λ i hi. absurd (omega arith);
    };
    small = h.small;
    head_at = omega (arith, h.window.tail_in);
    length_is = refl;
  }

  -- `cqueue_size` and `cqueue_is_empty` report the list.
  pub size_lem :
      (q : Queue A) (b xs : List A)
      → Holds q b xs
      → (size q ≡ length xs) × (is_empty q ≡ (length xs == 0))
  unfolding size is_empty
  size_lem q b xs h = (h.length_is, ap (λ n. n == 0) h.length_is)

  -- A queue of fixed size, above 0 and below 2 ^ 64, starts empty, if the allocator grants a block with
  -- room for its slots.
  pub init-Holds :
      (alloc : ℕ → Option (List A)) (max_capacity elem_size : ℕ) (b : List A)
      → alloc (mul64 max_capacity elem_size) ≡ some b
      → max_capacity ≤ length b
      → 0 < max_capacity
      → max_capacity < u64_mod
      → Holds (init alloc max_capacity elem_size) b []
  unfolding init
  init-Holds alloc max_capacity elem_size b e room pos small = record {
    buffer_is = ground (arith, e);
    window = record {
      storage = room;
      tail_in = pos;
      fits = omega arith;
      cells = λ i hi. absurd (omega arith);
    };
    small = small;
    head_at = omega arith;
    length_is = refl;
  }
