-- ===== src/HashMap.antt =====
-- data/struct/hashmap.c (`hash_map_t`): a chained hash table over byte-string keys. A bucket is the
-- list of its entries, first to last; a key is the list of its bytes, which is empty where the code
-- keeps NULL and the length 0; a value is a `void*`, a number that is 0 for NULL. What an allocation
-- answers is an argument: true for a block, false for NULL. The map itself is not NULL: on NULL every
-- function returns at once. Calls of `map->free` and `map->value_dispose` are returned as events, in
-- their order, where the code gives entries up (HashMap/Release); the blocks that `hash_map_put`
-- gives back, the old table and an entry whose key is refused, are not recorded.
pub mod Pow2
pub mod Keys
pub mod Lookup
pub mod Walks
pub mod Chains
pub mod Table
pub mod Flatten
pub mod Resize
pub mod Valid
pub mod Stored
pub mod Put
pub mod Remove
pub mod Release
mod Tests
use redlib.Prelude.{
  ℕ, zero, suc, ◌+◌, ◌-◌, ◌*◌, ◌/◌, ◌%◌, ◌^◌, Bool, true, false, ◌&&◌, List, [], ◌∷◌, ◌++◌, Option,
  none, some, length, get_or, set, replicate, if◌then◌else◌, ltb, leb, ◌==◌, add64, sub64, mul64,
  bit_and, bit_or, bit_xor,
}

pub record Entry : Type 0 where
  pub hash : ℕ
  pub key : List ℕ
  pub value : ℕ

pub record HashMap : Type 0 where
  pub buckets : List (List Entry)
  pub capacity : ℕ
  pub size : ℕ
  pub hash_fn : List ℕ → ℕ
  pub keyeq_fn : List ℕ → List ℕ → Bool
  pub value_dispose : Bool
  pub resize_threshold : ℕ

-- `hash_map_put` answers -1, 0 or 1.
pub data PutResult : Type 0 where
  failed replaced inserted : PutResult

-- `chm_bytewise_eq`: the lengths first, then the bytes.
bytes_eq : List ℕ → List ℕ → Bool
bytes_eq [] q = true
bytes_eq (x ∷ p) [] = true
bytes_eq (x ∷ p) (y ∷ q) = if x == y then bytes_eq p q else false

unfoldable pub bytewise_eq : List ℕ → List ℕ → Bool
unfolding bytes_eq
bytewise_eq a b = if length a == length b then bytes_eq a b else false

fnv_from : ℕ → List ℕ → ℕ
fnv_from h [] = h
fnv_from h (b ∷ bytes) = fnv_from (mul64 (bit_xor h b) 0x100000001b3) bytes

unfoldable pub fnv1a64 : List ℕ → ℕ
unfolding fnv_from
fnv1a64 bytes = fnv_from 0xcbf29ce484222325 bytes

-- `x |= x >> s`
pub smear : ℕ → ℕ → ℕ
smear s x = bit_or x (x / 2 ^ s)

pub smear_all : ℕ → ℕ
unfolding smear
smear_all x = smear 32 (smear 16 (smear 8 (smear 4 (smear 2 (smear 1 x)))))

unfoldable pub next_pow2 : ℕ → ℕ
unfolding smear_all
next_pow2 x = if ltb x 8 then 8 else add64 (smear_all (x - 1)) 1

unfoldable pub threshold : ℕ → ℕ
threshold capacity = mul64 capacity 3 / 4

-- The buckets that `sizeof(hash_map_entry_t*) * cap` bytes hold, cleared by `memset`.
unfoldable pub empty_buckets : ℕ → List (List Entry)
empty_buckets cap = replicate (mul64 8 cap / 8) []

-- `map_ok` and `table_ok` are what the two allocations answer.
unfoldable pub create_alloc : Bool → Bool → ℕ → Option HashMap
create_alloc map_ok table_ok initial_capacity =
    let cap = next_pow2 (if initial_capacity == 0 then 8 else initial_capacity) in
    if map_ok && table_ok
    then some (record {
      buckets = empty_buckets cap;
      capacity = cap;
      size = 0;
      hash_fn = fnv1a64;
      keyeq_fn = bytewise_eq;
      value_dispose = false;
      resize_threshold = threshold cap;
    })
    else none

unfoldable pub set_hash : HashMap → Option (List ℕ → ℕ) → Option (List ℕ → List ℕ → Bool) → HashMap
set_hash m hash_fn keyeq_fn = record m {
  hash_fn = elim hash_fn [ some f ↦ f | none ↦ m.hash_fn ];
  keyeq_fn = elim keyeq_fn [ some f ↦ f | none ↦ m.keyeq_fn ];
}

unfoldable pub set_value_dispose : HashMap → Bool → HashMap
set_value_dispose m dispose_set = record m { value_dispose = dispose_set }

-- `e->next = nb[idx]; nb[idx] = e;`
pub push_front : List (List Entry) → ℕ → Entry → List (List Entry)
push_front bs idx e = set bs idx (e ∷ get_or bs idx [])

pub move_chain : ℕ → List Entry → List (List Entry) → List (List Entry)
move_chain ncap [] nb = nb
move_chain ncap (e ∷ es) nb = move_chain ncap es (push_front nb (bit_and e.hash (sub64 ncap 1)) e)

pub move_all : ℕ → List (List Entry) → List (List Entry) → List (List Entry)
unfolding move_chain push_front
move_all ncap [] nb = nb
move_all ncap (c ∷ cs) nb = move_all ncap cs (move_chain ncap c nb)

-- `none` if the new table is not granted.
unfoldable pub resize : Bool → HashMap → ℕ → Option HashMap
unfolding move_all
resize table_ok m new_capacity =
    let ncap = next_pow2 new_capacity in
    if table_ok
    then some (record m {
      buckets = move_all ncap m.buckets (empty_buckets ncap);
      capacity = ncap;
      resize_threshold = threshold ncap;
    })
    else none

-- The test of the three walks.
unfoldable pub is_hit : HashMap → ℕ → List ℕ → Entry → Bool
is_hit m h key e = e.hash == h && m.keyeq_fn e.key key

unfoldable pub bucket_of : HashMap → ℕ → ℕ
bucket_of m h = bit_and h (sub64 m.capacity 1)

-- The walk of `hash_map_has_key`: the value of the first hit.
pub find_value : HashMap → ℕ → List ℕ → List Entry → Option ℕ
find_value m h key [] = none
find_value m h key (e ∷ es) = if is_hit m h key e then some e.value else find_value m h key es

-- The walk of `hash_map_put`: the chain with the first hit changed, if there is one.
pub replace_value : HashMap → ℕ → List ℕ → ℕ → List Entry → Option (List Entry)
replace_value m h key v [] = none
replace_value m h key v (e ∷ es) =
    if is_hit m h key e
    then some (record e { value = v } ∷ es)
    else elim (replace_value m h key v es) [ none ↦ none | some es' ↦ some (e ∷ es') ]

-- The walk of `hash_map_remove`: the entry that is taken out, and the chain without it.
pub take_out : HashMap → ℕ → List ℕ → List Entry → Option (Entry × List Entry)
take_out m h key [] = none
take_out m h key (e ∷ es) =
    if is_hit m h key e
    then some (e, es)
    else elim (take_out m h key es) [ none ↦ none | some (x, es') ↦ some (x, e ∷ es') ]

unfoldable pub has_key : HashMap → List ℕ → Option ℕ
unfolding find_value is_hit bucket_of
has_key m key = let h = m.hash_fn key in find_value m h key (get_or m.buckets (bucket_of m h) [])

-- What the allocations of `hash_map_put` answer: the larger table, the entry, the copy of the key.
pub record Grants : Type 0 where
  pub table : Bool
  pub entry : Bool
  pub key : Bool

-- The part of `hash_map_put` behind the walk: a new entry in front of the bucket.
unfoldable pub insert_new : Grants → HashMap → ℕ → List ℕ → ℕ → PutResult × HashMap
unfolding push_front bucket_of
insert_new ok m h key v =
    if ok.entry && (if ltb 0 (length key) then ok.key else true)
    then (
      inserted,
      record m {
        buckets = push_front m.buckets (bucket_of m h) (record { hash = h; key = key; value = v });
        size = add64 m.size 1;
      },
    )
    else (failed, m)

-- `hash_map_put` behind the resize.
unfoldable pub put_at : Grants → HashMap → List ℕ → ℕ → PutResult × HashMap
unfolding replace_value is_hit insert_new bucket_of
put_at ok m key v =
    let h = m.hash_fn key in
    let i = bucket_of m h in
    elim (replace_value m h key v (get_or m.buckets i [])) [
      | some c ↦ (replaced, record m { buckets = set m.buckets i c })
      | none ↦ insert_new ok m h key v
    ]

unfoldable pub put : Grants → HashMap → List ℕ → ℕ → PutResult × HashMap
unfolding resize put_at
put ok m key v =
    if leb m.resize_threshold m.size
    then elim (resize ok.table m (mul64 m.capacity 2)) [
      | none ↦ (failed, m)
      | some m' ↦ put_at ok m' key v
    ]
    else put_at ok m key v
