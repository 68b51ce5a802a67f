-- ===== src/HashMap/Valid.antt =====
-- The invariant of a `hash_map_t`, and what `hash_map_create` and `chm_resize` make.
use mathlib.Core.Path.{ap, subst}
use mathlib.Core.List.{flatten}
use native.Mathlib.Nat.{one-le-pow, pow-le-pow_right, mod-lt}
use redlib.Prelude.{
  ◌⊎◌, inl, inr, ℕ, ◌-◌, ◌*◌, ◌/◌, ◌^◌, ◌≤◌, ◌<◌, ◌≡◌, refl, sym, ◌∙◌, true, false, List, [], none,
  some, arith, length, get_or, replicate, if◌then◌else◌, bit_and, sub64, ◌==◌,
}
use redlib.Prelude.Bits.{bit_and-mask}
use redlib.HashMap.{
  move_all, Entry, HashMap, next_pow2, threshold, empty_buckets, create_alloc, resize, has_key,
  fnv1a64, bytewise_eq,
}
use redlib.HashMap.Pow2.{next_pow2_lem, exponent-lt}
use redlib.HashMap.Keys.{DecidesKeys, bytewise_eq-DecidesKeys}
use redlib.HashMap.Chains.{find_value-lookup, All}
use redlib.HashMap.Table.{Each-get, home, Sits, IsBucket, IsPlaced, view}
use redlib.HashMap.Flatten.{All-map}
use redlib.HashMap.Resize.{replicate-Reads, move_all-Reads}

-- The largest table whose size in bytes, and that of the table after it, fits.
abbrev pub max_capacity : ℕ
max_capacity = 2 ^ 60

pub record IsSized (capacity : ℕ) : Type 0 where
  pub exponent : ℕ
  pub power : capacity ≡ 2 ^ exponent
  pub least : 8 ≤ capacity
  pub most : capacity ≤ max_capacity

pub record IsValid (m : HashMap) : Type 0 where
  pub sized : IsSized m.capacity
  pub width : length m.buckets ≡ m.capacity
  pub placed : IsPlaced m.hash_fn m.keyeq_fn m.capacity 0 m.buckets
  pub counted : length (flatten m.buckets) ≡ m.size
  pub threshold_is : m.resize_threshold ≡ m.capacity * 3 / 4
  pub sparse : m.size ≤ m.resize_threshold
  pub decides : DecidesKeys m.keyeq_fn

-- With a power of two for its size the mask of a table is the remainder.
pub mask-lt : (capacity h : ℕ) → IsSized capacity → bit_and h (sub64 capacity 1) < capacity
mask-lt capacity h s =
    let mask : sub64 capacity 1 ≡ 2 ^ s.exponent - 1 = omega (arith, s.power, s.most, s.least) in
    rw (mask, bit_and-mask s.exponent h, s.power) (mod-lt h (one-le-pow s.exponent 2 (omega arith)))

pub threshold-eq : (capacity : ℕ) → capacity ≤ max_capacity → threshold capacity ≡ capacity * 3 / 4
unfolding threshold
threshold-eq capacity h = omega arith

pub empty_buckets-eq :
    (capacity : ℕ) → capacity ≤ max_capacity → empty_buckets capacity ≡ replicate capacity []
unfolding empty_buckets
empty_buckets-eq capacity h = ap (λ (n : ℕ). replicate n []) (omega arith)

pub home_inside :
    (m : HashMap) (k : List ℕ)
    → IsValid m
    → home m.hash_fn m.keyeq_fn m.capacity k < length m.buckets
home_inside m k v = rw v.width (mask-lt m.capacity (m.hash_fn k) v.sized)

-- The bucket of a key.
pub home-IsBucket :
    (m : HashMap) (k : List ℕ)
    → IsValid m
    → let i = home m.hash_fn m.keyeq_fn m.capacity k in
      IsBucket m.hash_fn m.keyeq_fn m.capacity i (get_or m.buckets i [])
home-IsBucket m k v =
    let i = home m.hash_fn m.keyeq_fn m.capacity k in
    subst (λ j. IsBucket m.hash_fn m.keyeq_fn m.capacity j (get_or m.buckets i [])) (omega arith)
      (Each-get (IsBucket m.hash_fn m.keyeq_fn m.capacity) 0 i m.buckets v.placed
        (home_inside m k v))

pub home_hashed :
    (m : HashMap) (k : List ℕ)
    → IsValid m
    → All
        (λ (e : Entry). e.hash ≡ m.hash_fn e.key)
        (get_or m.buckets (home m.hash_fn m.keyeq_fn m.capacity k) [])
home_hashed m k v =
    let i = home m.hash_fn m.keyeq_fn m.capacity k in
    All-map (Sits m.hash_fn m.keyeq_fn m.capacity i) (λ e. e.hash ≡ m.hash_fn e.key)
      (get_or m.buckets i []) (λ e s. s.0) (home-IsBucket m k v).0

-- `hash_map_has_key` finds what the bucket of the key holds.
pub has_key-view :
    (m : HashMap) (k : List ℕ)
    → IsValid m
    → has_key m k ≡ view m.hash_fn m.keyeq_fn m.capacity m.buckets k
unfolding has_key
has_key-view m k v =
    find_value-lookup m v.decides k (get_or m.buckets (home m.hash_fn m.keyeq_fn m.capacity k) [])
      (home_hashed m k v)

next_pow2-most :
    (n p e : ℕ) → n ≤ max_capacity → p ≡ 2 ^ e → (p ≡ 8) ⊎ (p < 2 * n) → p ≤ max_capacity
next_pow2-most n p e h power (inl small) = omega (arith, small)
next_pow2-most n p e h power (inr tight) =
    let short : e < 61 = exponent-lt e p 61 (omega (arith, power)) (omega (arith, tight)) in
    let bound : 2 ^ e ≤ 2 ^ 60 =
      pow-le-pow_right {n = 2} (omega arith) {j = 60} (omega (arith, short)) in
    omega (arith, power, bound)

pub next_pow2-IsSized : (n : ℕ) → n ≤ max_capacity → IsSized (next_pow2 n) × (n ≤ next_pow2 n)
next_pow2-IsSized n h =
    let p = next_pow2_lem n (omega arith) in
    (
      record {
        exponent = p.exponent;
        power = p.power;
        least = p.least;
        most = next_pow2-most n (next_pow2 n) p.exponent h p.power p.tight;
      },
      p.enough,
    )

-- What is asked of a new map.
pub record IsFresh (m : HashMap) (initial_capacity : ℕ) : Type 0 where
  pub valid : IsValid m
  pub roomy : initial_capacity ≤ m.capacity
  pub holds_nothing : (k : List ℕ) → has_key m k ≡ none
  pub no_entries : m.size ≡ 0

-- With both blocks granted and at most 2 ^ 60 buckets asked for, `hash_map_create` makes a valid map
-- of at least that capacity, of size 0, in which no key is found.
pub create_alloc-IsFresh :
    (n : ℕ) → n ≤ max_capacity → (m : HashMap) × (create_alloc true true n ≡ some m) × IsFresh m n
unfolding create_alloc
create_alloc-IsFresh n h =
    let asked = if n == 0 then 8 else n in
    let enough_asked : n ≤ asked = ground arith in
    let (sized, enough) = next_pow2-IsSized asked (ground (arith, h)) in
    let cap = next_pow2 asked in
    let start = replicate-Reads fnv1a64 bytewise_eq bytewise_eq-DecidesKeys cap cap in
    let m : HashMap = record {
      buckets = replicate cap [];
      capacity = cap;
      size = 0;
      hash_fn = fnv1a64;
      keyeq_fn = bytewise_eq;
      value_dispose = false;
      resize_threshold = cap * 3 / 4;
    } in
    let valid : IsValid m = record {
      sized = sized;
      width = start.width;
      placed = start.placed;
      counted = start.entries;
      threshold_is = refl;
      sparse = omega arith;
      decides = bytewise_eq-DecidesKeys;
    } in
    (
      m,
      rw (empty_buckets-eq cap sized.most, threshold-eq cap sized.most) refl,
      record {
        valid = valid;
        roomy = omega (arith, enough, enough_asked);
        holds_nothing = λ k. has_key-view m k valid ∙ start.reads k;
        no_entries = refl;
      },
    )

-- `chm_resize` keeps every lookup and the number of entries.
pub record IsResized (m m' : HashMap) (n : ℕ) : Type 0 where
  pub valid : IsValid m'
  pub roomy : n ≤ m'.capacity
  pub same_reads : (k : List ℕ) → has_key m' k ≡ has_key m k
  pub same_size : m'.size ≡ m.size
  pub same_hash : m'.hash_fn ≡ m.hash_fn
  pub same_keyeq : m'.keyeq_fn ≡ m.keyeq_fn

-- In a valid map, where the table is granted and the new capacity is at least the old one and at
-- most 2 ^ 60, `chm_resize` makes a valid map of at least that capacity with the same lookups, the
-- same size and the same hash and comparison.
pub resize-IsResized :
    (m : HashMap) (n : ℕ)
    → IsValid m
    → m.capacity ≤ n
    → n ≤ max_capacity
    → (m' : HashMap) × (resize true m n ≡ some m') × IsResized m m' n
unfolding resize
resize-IsResized m n v grows h =
    let (sized, enough) = next_pow2-IsSized n h in
    let cap = next_pow2 n in
    let moved =
      move_all-Reads m.hash_fn m.keyeq_fn v.decides cap m.capacity cap m.buckets v.placed
        (λ k. mask-lt cap (m.hash_fn k) sized) in
    let table = empty_buckets-eq cap sized.most in
    let limit = threshold-eq cap sized.most in
    let m' : HashMap = record m {
      buckets = move_all cap m.buckets (replicate cap []);
      capacity = cap;
      resize_threshold = cap * 3 / 4;
    } in
    let valid : IsValid m' = record {
      sized = sized;
      width = moved.width;
      placed = moved.placed;
      counted = moved.entries ∙ v.counted;
      threshold_is = refl;
      sparse = omega (arith, v.sparse, v.threshold_is, grows, enough);
      decides = v.decides;
    } in
    (
      m',
      rw (table, limit) refl,
      record {
        valid = valid;
        roomy = enough;
        same_reads = λ k. has_key-view m' k valid ∙ moved.reads k ∙ sym (has_key-view m k v);
        same_size = refl;
        same_hash = refl;
        same_keyeq = refl;
      },
    )
