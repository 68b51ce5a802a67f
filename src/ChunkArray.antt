-- ===== src/ChunkArray.antt =====
-- data/struct/chunk_array.c (`chunk_array_t`): an array in chunks of `chunk_capacity` items, each chunk
-- with a pointer to the next. The list of chunks stands for the pointer to the first, and is empty
-- for NULL; the items behind a chunk's header are the list of its slots. The allocator is `zalloc` or
-- one that clears as it does, and grants every block: the code does not look at what it answers.
pub mod Packed
pub mod Push
pub mod Remove
mod Tests
use redlib.Prelude.{
  ℕ, zero, suc, ◌-◌, ◌+◌, ◌%◌, ◌^◌, List, [], ◌∷◌, Option, none, some, get_elem?, set, replicate,
  if◌then◌else◌, ltb, ◌==◌, add64, sub64,
}

pub record Chunk {ℓ} (A : Type ℓ) : Type ℓ where
  pub slots : List A
  pub count : ℕ
  pub chunk_capacity : ℕ

-- The order of `int`, with the sign bit turned.
abbrev pub sign_turned : ℕ → ℕ
sign_turned a = (a + 2 ^ 31) % 2 ^ 32

-- `min` of math/math.h.
unfoldable pub min_int : ℕ → ℕ → ℕ
min_int a b = if ltb (sign_turned a) (sign_turned b) then a else b

abbrev pub sub32 : ℕ → ℕ → ℕ
sub32 a b = (a + 2 ^ 32 - b) % 2 ^ 32

-- A negative `int` becomes a `size_t` with its upper bits set.
abbrev pub int_to_size : ℕ → ℕ
int_to_size k = if ltb k (2 ^ 31) then k else k + 2 ^ 64 - 2 ^ 32

module _ {ℓ} {A : Type ℓ} where
  -- `cleared` is the item whose bytes are all 0.
  unfoldable pub create : A → ℕ → Chunk A
  create cleared chunk_capacity = record {
    slots = replicate chunk_capacity cleared;
    count = 0;
    chunk_capacity = chunk_capacity;
  }

  -- `memcpy` behind the last item, and `array->count++`.
  unfoldable pub store : Chunk A → A → Chunk A
  store c x = record c { slots = set c.slots c.count x; count = add64 c.count 1 }

  -- The call on a chunk that was just created; `none` if it never returns, since every chunk that
  -- follows is full as well.
  unfoldable pub push_new : A → ℕ → A → Option (ℕ × List (Chunk A))
  unfolding create store
  push_new cleared chunk_capacity x =
      if ltb 0 chunk_capacity then some (0, store (create cleared chunk_capacity) x ∷ []) else none

  -- The result is the index that the code returns, and the chunks.
  pub push : A → List (Chunk A) → A → Option (ℕ × List (Chunk A))
  unfolding store push_new
  push cleared [] x = some (0, [])
  push cleared (c ∷ []) x =
      if ltb c.count c.chunk_capacity
      then some (c.count, store c x ∷ [])
      else elim (push_new cleared c.chunk_capacity x) [
        | none ↦ none
        | some (i, cs) ↦ some (add64 c.count i, c ∷ cs)
      ]
  push cleared (c ∷ d ∷ ds) x =
      let rest = push cleared (d ∷ ds) x in
      if ltb c.count c.chunk_capacity
      then some (c.count, store c x ∷ d ∷ ds)
      else elim rest [ none ↦ none | some (i, cs) ↦ some (add64 c.count i, c ∷ cs) ]

  -- `none` is the NULL that the code returns.
  pub get : List (Chunk A) → ℕ → Option A
  get [] i = none
  get (c ∷ cs) i =
      let rest = get cs (sub64 i c.count) in
      if ltb i c.chunk_capacity then (if ltb i c.count then get_elem? c.slots i else none) else rest

  -- `int` values are their 32 bits; the conversion of `array->count` to `int` drops the upper bits.
  pub remove : List (Chunk A) → ℕ → ℕ × List (Chunk A)
  unfolding min_int
  remove [] n = (0, [])
  remove (c ∷ cs) n =
      let (removed, cs') = remove cs n in
      let k = min_int (sub32 n removed) (c.count % 2 ^ 32) in
      if c.count == 0
      then (0, c ∷ cs)
      else ((removed + k) % 2 ^ 32, record c { count = sub64 c.count (int_to_size k) } ∷ cs')

  pub count_all : List (Chunk A) → ℕ
  count_all [] = 0
  count_all (c ∷ cs) = add64 c.count (count_all cs)

  pub reset : List (Chunk A) → List (Chunk A)
  reset [] = []
  reset (c ∷ cs) = record c { count = 0 } ∷ reset cs
