-- ===== src/Ring.antt =====
-- data/struct/ring_buffer.c (`CRingBuffer`) and data/struct/ring_buffer.hpp (`RingBuffer`).
-- Both keep the same five fields and their `push`, `pop`, `is_empty` and `clear` are the same text,
-- so one record serves both. The buffer is the list of its slots of `element_size` bytes. The flag
-- `full`, an `int32_t` that is only ever 0 or 1, is a `Bool`. A function that changes `*rb` returns
-- the new record beside its result.
pub mod Models
pub mod Run
pub mod PushBuf
pub mod PopBuf
pub mod Calls
mod Tests
use redlib.Prelude.{
  ℕ, ◌+◌, ◌%◌, Bool, true, false, not, ◌&&◌, ◌||◌, List, [], ◌++◌, Option, none, some, length,
  get_elem?, set, take, drop, blit, if◌then◌else◌, ltb, leb, ◌==◌, add64, sub64,
}

pub record Ring {ℓ} (A : Type ℓ) : Type ℓ where
  pub buffer : List A
  pub capacity : ℕ
  pub head : ℕ
  pub tail : ℕ
  pub full : Bool

module _ {ℓ} {A : Type ℓ} where
  unfoldable pub init : List A → ℕ → Ring A
  init storage capacity = record {
    buffer = storage;
    capacity = capacity;
    head = 0;
    tail = 0;
    full = false;
  }

  -- `head` and `tail` index slots: `base + rb->head * rb->element_size`.
  unfoldable pub push : Ring A → A → ℕ × Ring A
  push r item =
      let head' = add64 r.head 1 % r.capacity in
      if r.full
      then (0, r)
      else (1, record r { buffer = set r.buffer r.head item; head = head'; full = head' == r.tail })

  unfoldable pub is_empty : Ring A → Bool
  is_empty r = not r.full && r.head == r.tail

  unfoldable pub is_full : Ring A → Bool
  is_full r = r.full

  -- The option is what is copied to `out`: nothing if the ring is empty.
  unfoldable pub pop : Ring A → ℕ × Option A × Ring A
  unfolding is_empty
  pop r = if is_empty r then (0, none, r) else (
    1,
    get_elem? r.buffer r.tail,
    record r { tail = add64 r.tail 1 % r.capacity; full = false },
  )

  unfoldable pub clear : Ring A → Ring A
  clear r = record r { head = 0; tail = 0; full = false }

  unfoldable pub size : Ring A → ℕ
  size r =
      if r.full
      then r.capacity
      else if leb r.tail r.head
      then sub64 r.head r.tail
      else sub64 (add64 r.capacity r.head) r.tail

  unfoldable pub peek : Ring A → Option A
  peek r = get_elem? r.buffer r.tail

  unfoldable pub at : Ring A → ℕ → Option A
  at r index = get_elem? r.buffer (add64 r.tail index % r.capacity)

  -- The longest run of free slots that starts at `head`.
  free_run : Ring A → ℕ
  free_run r =
      if not r.full && ltb r.head r.tail then sub64 r.tail r.head else sub64 r.capacity r.head

  -- The longest run of used slots that starts at `tail`.
  used_run : Ring A → ℕ
  used_run r = if r.full || leb r.head r.tail then sub64 r.capacity r.tail else sub64 r.head r.tail

  -- One `memcpy` to `data + head`, and the step of `head`.
  pub write_run : Ring A → List A → Ring A
  write_run r src = record r {
    buffer = blit r.buffer r.head src;
    head = add64 r.head (length src) % r.capacity;
  }

  -- The two copies of `push_buf`, `first` elements of `src` and then the rest of `to`.
  write_two : Ring A → List A → ℕ → ℕ → Ring A
  write_two r src first to =
      let r' = write_run r (take first src) in
      let rem = sub64 to first in
      let r'' = if rem == 0 then r' else write_run r' (take rem (drop first src)) in
      record r'' { full = r''.head == r''.tail }

  -- `src` is the block of `n` elements; a null `src` writes nothing, as `n == 0` does.
  unfoldable pub push_buf : Ring A → List A → ℕ × Ring A
  unfolding size free_run write_run write_two
  push_buf r src =
      let n = length src in
      let used = size r in
      let avail = sub64 r.capacity used in
      let to = if ltb n avail then n else avail in
      let cont = free_run r in
      let first = if ltb to cont then to else cont in
      if n == 0
      then (0, r)
      else if leb r.capacity used
      then (0, r)
      else (to, write_two r src first to)

  -- The step of `tail` over `k` elements that were copied out.
  pub read_run : Ring A → ℕ → Ring A
  read_run r k = record r { tail = add64 r.tail k % r.capacity; full = false }

  -- The two copies of `pop_buf`, `first` elements and then the rest of `to`: what `dst` receives,
  -- and the ring.
  read_two : Ring A → ℕ → ℕ → List A × Ring A
  unfolding read_run
  read_two r first to =
      let r' = read_run r first in
      let rem = sub64 to first in
      let front = take first (drop r.tail r.buffer) in
      if rem == 0 then (front, r') else (
        front ++ take rem (drop r'.tail r'.buffer),
        record r' { tail = add64 r'.tail rem % r'.capacity },
      )

  -- The result, the elements that `dst` receives, and the ring. `n` elements are asked for; a null
  -- `dst` reads nothing, as `n == 0` does.
  unfoldable pub pop_buf : Ring A → ℕ → ℕ × List A × Ring A
  unfolding size used_run read_run read_two
  pop_buf r n =
      let used = size r in
      let to = if ltb n used then n else used in
      let cont = used_run r in
      let first = if ltb to cont then to else cont in
      if n == 0
      then (0, [], r)
      else if used == 0
      then (0, [], r)
      else let (out, r') = read_two r first to in (to, out, r')
