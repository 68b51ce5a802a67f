-- ===== src/HashMap/Tests.antt =====
-- Runs of the hash map of data/struct/hashmap.c, and the map on which its theorems are applied.
use redlib.Prelude.{◌+◌, ◌*◌, ◌^◌, ◌≡◌, ◌≤◌, refl, true, false, [], ◌∷◌, some, arith, replicate}
use redlib.HashMap.{
  HashMap, Grants, empty_buckets, create_alloc, resize, put, has_key, next_pow2, fnv1a64,
  bytewise_eq, threshold, replaced, inserted,
}
use redlib.HashMap.Release.{remove, empty}
use redlib.HashMap.Pow2.{IsNextPow2, next_pow2_lem}
use redlib.HashMap.Valid.{
  max_capacity, IsValid, IsFresh, create_alloc-IsFresh, IsResized, resize-IsResized,
}
use redlib.HashMap.Put.{IsPut, put-IsPut, IsValid-after}
use redlib.HashMap.Remove.{IsRemoved, remove-IsRemoved}
use mathlib.Core.Path.{subst}

abbrev all_granted : Grants
all_granted = record { table = true; entry = true; key = true }

abbrev start : HashMap
start = record {
  buckets = replicate 8 [];
  capacity = 8;
  size = 0;
  hash_fn = fnv1a64;
  keyeq_fn = bytewise_eq;
  value_dispose = false;
  resize_threshold = 6;
}

next_pow2-100 : next_pow2 100 ≡ 128
unfolding next_pow2
next_pow2-100 = refl

next_pow2-wraps : next_pow2 (2 ^ 63 + 1) ≡ 0
unfolding next_pow2
next_pow2-wraps = refl

put-start : (put all_granted start (65 ∷ []) 7).0 ≡ inserted
unfolding put fnv1a64
put-start = refl

put_twice : (put all_granted (put all_granted start (65 ∷ []) 7).1 (65 ∷ []) 9).0 ≡ replaced
unfolding put fnv1a64 bytewise_eq
put_twice = refl

has_key-put : has_key (put all_granted start (65 ∷ []) 7).1 (65 ∷ []) ≡ some 7
unfolding has_key put fnv1a64 bytewise_eq
has_key-put = refl

has_key-empty : has_key (empty (put all_granted start (65 ∷ []) 7).1).1 (65 ∷ []) ≡ some 7
unfolding has_key put empty fnv1a64 bytewise_eq
has_key-empty = refl

start_made : create_alloc true true 0 ≡ some start
unfolding create_alloc next_pow2 threshold empty_buckets
start_made = refl

start-IsValid : IsValid start
start-IsValid =
    let (m, made, fresh) = create_alloc-IsFresh 0 (omega arith) in
    let same : m ≡ start = ground (arith, made, start_made) in subst IsValid same fresh.valid

-- One entry in the table.
abbrev one : HashMap
one = (put all_granted start (65 ∷ []) 7).1

one-IsValid : IsValid one
one-IsValid =
    IsValid-after all_granted start (65 ∷ []) 7 _ one
      (put-IsPut all_granted start (65 ∷ []) 7 start-IsValid (omega arith))

one_at_8 : one.capacity ≡ 8
unfolding put fnv1a64
one_at_8 = refl

one_below : one.capacity ≤ 16
one_below = omega (arith, one_at_8)

one_doubles : one.capacity * 2 ≤ max_capacity
one_doubles = omega (arith, one_at_8)

next_pow2_lem_example : IsNextPow2 100 (next_pow2 100)
next_pow2_lem_example = next_pow2_lem 100 (omega arith)

create_alloc-IsFresh_example : (m : HashMap) × (create_alloc true true 100 ≡ some m) × IsFresh m 100
create_alloc-IsFresh_example = create_alloc-IsFresh 100 (omega arith)

resize-IsResized_example : (m : HashMap) × (resize true one 16 ≡ some m) × IsResized one m 16
resize-IsResized_example = resize-IsResized one 16 one-IsValid one_below (omega arith)

put-IsPut_example : IsPut all_granted one (66 ∷ []) 9 (put all_granted one (66 ∷ []) 9)
put-IsPut_example = put-IsPut all_granted one (66 ∷ []) 9 one-IsValid one_doubles

remove-IsRemoved_example :
    IsRemoved one (65 ∷ []) (remove one (65 ∷ []) false).0 (remove one (65 ∷ []) false).2
remove-IsRemoved_example = remove-IsRemoved one (65 ∷ []) false one-IsValid
