-- ===== src/Queue.antt =====
-- data/struct/queue.c (`CQueue`): a queue over a circular array, of a fixed size, or growing when
-- `max_capacity` is 0. The buffer is NULL or the list of its slots of `elem_size` bytes. The queue and
-- the item are not NULL: on NULL every function returns at once. What `q->alloc` (or `zalloc`, its
-- default) answers is the parameter `alloc`, from a number of bytes to a block or NULL; `q->free` only
-- gives blocks back, and no property here speaks of it.
pub mod Models
pub mod Grow
pub mod Enqueue
mod Tests
use redlib.Prelude.{
  ℕ, zero, suc, ◌+◌, ◌-◌, ◌*◌, ◌%◌, ◌≡◌, Bool, true, false, List, Option, none, some, get_elem?,
  set, if◌then◌else◌, ltb, ◌==◌, add64, mul64, u64_mod,
}

pub record Queue {ℓ} (A : Type ℓ) : Type ℓ where
  pub buffer : Option (List A)
  pub capacity : ℕ
  pub max_capacity : ℕ
  pub elem_size : ℕ
  pub head : ℕ
  pub tail : ℕ
  pub length : ℕ

-- `old_capacity ? old_capacity * 2 : 4`
unfoldable pub grown_capacity : ℕ → ℕ
grown_capacity old_capacity = if old_capacity == 0 then 4 else mul64 old_capacity 2

module _ {ℓ} {A : Type ℓ} where
  module _ (alloc : ℕ → Option (List A)) where
    unfoldable pub init : ℕ → ℕ → Queue A
    init max_capacity elem_size = record {
      buffer = if ltb 0 max_capacity then alloc (mul64 max_capacity elem_size) else none;
      capacity = max_capacity;
      max_capacity = max_capacity;
      elem_size = elem_size;
      head = 0;
      tail = 0;
      length = 0;
    }

  -- `memcpy` of one slot; a source out of range copies nothing.
  pub copy_slot : List A → ℕ → Option A → List A
  copy_slot newb i none = newb
  copy_slot newb i (some x) = set newb i x

  -- The loop `for (i; i < q->length; ++i)` with `n` rounds left.
  pub copy_slots : ℕ → ℕ → Queue A → List A → List A → List A
  copy_slots zero i q old newb = newb
  copy_slots (suc n) i q old newb =
      copy_slots n (i + 1) q old (copy_slot newb i (get_elem? old (add64 q.tail i % q.capacity)))

  pub moved : Queue A → Option (List A) → List A → List A
  unfolding copy_slots copy_slot
  moved q none newb = newb
  moved q (some old) newb = copy_slots q.length 0 q old newb

  module _ (alloc : ℕ → Option (List A)) where
    -- The growth of a full queue without limit; `none` if the allocation fails.
    pub grow : Queue A → Option (Queue A)
    unfolding moved grown_capacity
    grow q =
        let nc = grown_capacity q.capacity in
        elim (alloc (mul64 nc q.elem_size)) [
          | none ↦ none
          | some newb ↦ some (record q {
            buffer = some (moved q q.buffer newb);
            capacity = nc;
            head = q.length;
            tail = 0;
          })
        ]

  -- The end of `cqueue_enqueue`, behind the growth.
  pub store_at : Queue A → Option (List A) → A → ℕ × Queue A
  store_at q none item = (0, q)
  store_at q (some b) item = if q.capacity == 0 then (0, q) else (
    1,
    record q {
      buffer = some (set b q.head item);
      head = add64 q.head 1 % q.capacity;
      length = add64 q.length 1;
    },
  )

  module _ (alloc : ℕ → Option (List A)) where
    unfoldable pub enqueue : Queue A → A → ℕ × Queue A
    unfolding grow store_at
    enqueue q item =
        if q.elem_size == 0
        then (0, q)
        else if q.length == q.capacity
        then (if ltb 0 q.max_capacity
            then (0, q)
            else elim (grow alloc q) [ none ↦ (0, q) | some q' ↦ store_at q' q'.buffer item ])
        else store_at q q.buffer item

  load_at : Queue A → Option (List A) → ℕ × Option A × Queue A
  load_at q none = (0, none, q)
  load_at q (some b) = (
    1,
    get_elem? b q.tail,
    record q { tail = add64 q.tail 1 % q.capacity; length = q.length - 1 },
  )

  -- The option is what is copied to `out`.
  unfoldable pub dequeue : Queue A → ℕ × Option A × Queue A
  unfolding load_at
  dequeue q = if q.length == 0 then (0, none, q) else load_at q q.buffer

  unfoldable pub is_empty : Queue A → Bool
  is_empty q = q.length == 0

  unfoldable pub size : Queue A → ℕ
  size q = q.length

  unfoldable pub clear : Queue A → Queue A
  clear q = record q { head = 0; tail = 0; length = 0 }

  unfoldable pub destroy : Queue A → Queue A
  destroy q = record q { buffer = none; capacity = 0; head = 0; tail = 0; length = 0 }
