-- ===== src/Ring/Models.antt =====
-- When a ring stands for a queue, and that its operations behave as the queue's.
use redlib.Prelude
use redlib.Prelude.{
  ℕ, ◌+◌, ◌-◌, ◌%◌, ◌≤◌, ◌<◌, ◌≡◌, refl, ◌∙◌, sym, Bool, true, false, List, [], ◌∷◌, ◌++◌, Option,
  none, some, arith, length, get_elem?, set, take, drop, ltb, ◌==◌, if◌then◌else◌, u64_mod, add64,
  mod-cases, length-append, Bool-cases, ltb→lt, inl, inr, suc,
}
use redlib.Window.{
  Window, blit-Window, younger-Window, oldest, advance_head, shorten_one, full_test,
}
use redlib.Ring.{Ring, init, push, pop, is_empty, clear, size}
use redlib.Fifo

module _ {ℓ} {A : Type ℓ} where
  -- The numbers of a ring that holds `n` elements.
  pub record Counts (r : Ring A) (n : ℕ) : Type 0 where
    pub small : r.capacity < u64_mod
    pub tail_in : r.tail < r.capacity
    pub fits : n ≤ r.capacity
    pub head_at : r.head ≡ (r.tail + n) % r.capacity
    pub full_at : r.full ≡ (n == r.capacity)

  pub record Models (r : Ring A) (q : List A) : Type ℓ where
    pub window : Window r.buffer r.capacity r.tail q
    pub counts : Counts r (length q)

  -- `size` computes the number of elements from the two indices and the flag.
  pub size-Counts : (r : Ring A) (n : ℕ) → Counts r n → size r ≡ n
  unfolding size
  size-Counts r n c = ground (arith, mod-cases (r.tail + n) r.capacity (omega arith))

  empty-Counts : (r : Ring A) (n : ℕ) → Counts r n → is_empty r ≡ (n == 0)
  unfolding is_empty
  empty-Counts r n c = ground (arith, mod-cases (r.tail + n) r.capacity (omega arith))

  -- Initialising storage of at least `cap` slots, with 0 < `cap` < 2 ^ 64, gives a ring that stands for
  -- the empty queue.
  pub init-Models :
      (storage : List A) (cap : ℕ)
      → cap ≤ length storage
      → 0 < cap
      → cap < u64_mod
      → Models (init storage cap) []
  unfolding init
  init-Models storage cap room pos small = record {
    window = record {
      storage = room;
      tail_in = pos;
      fits = omega arith;
      cells = λ i h. absurd (omega arith);
    };
    counts = record {
      small = small;
      tail_in = pos;
      fits = omega arith;
      head_at = omega arith;
      full_at = ground arith;
    };
  }

  pub clear-Models : (r : Ring A) (q : List A) → Models r q → Models (clear r) []
  unfolding clear
  clear-Models r q m = record {
    window = record {
      storage = m.window.storage;
      tail_in = omega (arith, m.counts.tail_in);
      fits = omega arith;
      cells = λ i h. absurd (omega arith);
    };
    counts = record {
      small = m.counts.small;
      tail_in = omega (arith, m.counts.tail_in);
      fits = omega arith;
      head_at = omega (arith, m.counts.tail_in);
      full_at = ground (arith, m.counts.tail_in);
    };
  }

  -- What a push into a ring that is not full writes.
  pushed : Ring A → A → Ring A
  pushed r x = record r {
    buffer = set r.buffer r.head x;
    head = add64 r.head 1 % r.capacity;
    full = add64 r.head 1 % r.capacity == r.tail;
  }

  push-Counts :
      (r : Ring A) (n : ℕ) (x : A) → Counts r n → n < r.capacity → Counts (pushed r x) (n + 1)
  unfolding pushed
  push-Counts r n x c h = record {
    small = c.small;
    tail_in = c.tail_in;
    fits = omega arith;
    head_at = head_at;
    full_at =
        rw head_at (full_test r.capacity r.tail (n + 1) c.tail_in (omega arith) (omega arith));
  }
    where
      head_at : add64 r.head 1 % r.capacity ≡ (r.tail + (n + 1)) % r.capacity
      head_at =
          advance_head r.capacity r.tail n 1 r.head c.head_at (omega (arith, c.head_at, c.tail_in))
            c.small

  pushed-Models :
      (r : Ring A) (q : List A) (x : A)
      → Models r q
      → length q < r.capacity
      → Models (pushed r x) (q ++ x ∷ [])
  unfolding pushed Prelude.blit
  pushed-Models r q x m h = record {
    window =
        blit-Window r.buffer r.capacity r.tail q (x ∷ []) r.head m.window m.counts.head_at
          (omega (arith, m.counts.head_at, m.counts.tail_in)) (omega arith);
    counts = rw length-append (push-Counts r (length q) x m.counts h);
  }

  push-room : (r : Ring A) (x : A) → r.full ≡ false → push r x ≡ (1, pushed r x)
  unfolding push pushed
  push-room r x h = ground arith

  push-full : (r : Ring A) (x : A) → r.full ≡ true → push r x ≡ (0, r)
  unfolding push
  push-full r x h = ground arith

  -- `push` refuses exactly when the queue has reached the capacity, and else appends.
  pub push_refines :
      (r : Ring A) (q : List A) (x : A)
      → Models r q
      → ((push r x).0 ≡ (Fifo.push r.capacity q x).0)
        × Models (push r x).1 (Fifo.push r.capacity q x).1
  unfolding Fifo.push
  push_refines r q x m = elim (Bool-cases (ltb (length q) r.capacity)) [
    | inl e ↦ rw (e, push-room r x (room e)) (refl, pushed-Models r q x m (ltb→lt _ _ e))
    | inr e ↦ rw (e, push-full r x (none_left e)) (refl, m)
  ]
    where
      room : ltb (length q) r.capacity ≡ true → r.full ≡ false
      room e = ground (arith, m.counts.full_at)

      none_left : ltb (length q) r.capacity ≡ false → r.full ≡ true
      none_left e = ground (arith, m.counts.full_at, m.counts.fits)

  popped : Ring A → Ring A
  popped r = record r { tail = add64 r.tail 1 % r.capacity; full = false }

  pop-Counts : (r : Ring A) (n : ℕ) → Counts r (suc n) → Counts (popped r) n
  unfolding popped
  pop-Counts r n c = record {
    small = c.small;
    tail_in = omega (arith, c.tail_in);
    fits = omega (arith, c.fits);
    head_at = shorten_one r.capacity r.tail n r.head c.head_at c.tail_in c.small;
    full_at = ground (arith, c.fits);
  }

  popped-Models : (r : Ring A) (x : A) (q : List A) → Models r (x ∷ q) → Models (popped r) q
  unfolding popped
  popped-Models r x q m = record {
    window = younger-Window r.buffer r.capacity r.tail x q m.window m.counts.small;
    counts = pop-Counts r (length q) m.counts;
  }

  pop-some : (r : Ring A) → is_empty r ≡ false → pop r ≡ (1, get_elem? r.buffer r.tail, popped r)
  unfolding pop popped
  pop-some r h = ground arith

  pop-none : (r : Ring A) → is_empty r ≡ true → pop r ≡ (0, none, r)
  unfolding pop
  pop-none r h = ground arith

  -- `pop` refuses exactly when nothing is held, and else hands out the oldest element.
  pub pop_refines :
      (r : Ring A) (q : List A)
      → Models r q
      → ((pop r).0 ≡ (Fifo.pop q).0)
        × ((pop r).1 ≡ (Fifo.pop q).1)
        × Models (pop r).2 (Fifo.pop q).2
  unfolding Fifo.pop
  pop_refines r [] m = rw (pop-none r (empty-Counts r 0 m.counts ∙ ground arith)) (refl, refl, m)
  pop_refines r (x ∷ q) m =
      rw (pop-some r (empty-Counts r (suc (length q)) m.counts ∙ ground arith))
        (refl, oldest r.buffer r.capacity r.tail x q m.window, popped-Models r x q m)
