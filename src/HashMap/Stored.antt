-- ===== src/HashMap/Stored.antt =====
-- Writing one bucket of the table: what it does to the lookups and to the invariant.
use redlib.Prelude.{
  ℕ, ◌+◌, ◌≤◌, ◌≡◌, refl, ◌∙◌, List, [], Option, arith, length, get_or, set, if◌then◌else◌,
  length-set,
}
use redlib.HashMap.{Entry, HashMap, has_key}
use redlib.HashMap.Chains.{lookup}
use redlib.HashMap.Table.{Each-set, length-flatten-set, home, IsBucket, view-set}
use redlib.HashMap.Valid.{IsValid, home_inside, has_key-view}

abbrev pub chain : HashMap → List ℕ → List Entry
chain m k = get_or m.buckets (home m.hash_fn m.keyeq_fn m.capacity k) []

-- A valid map that reads `o` under `k` and as `m` under every other key.
pub record IsStored (m : HashMap) (k : List ℕ) (o : Option ℕ) (m' : HashMap) : Type 0 where
  pub valid : IsValid m'
  pub reads : (q : List ℕ) → has_key m' q ≡ (if m.keyeq_fn k q then o else has_key m q)

-- Writing the bucket of a key.
pub write_bucket :
    (m : HashMap) (k : List ℕ) (o : Option ℕ) (c : List Entry) (n : ℕ)
    → IsValid m
    → IsBucket m.hash_fn m.keyeq_fn m.capacity (home m.hash_fn m.keyeq_fn m.capacity k) c
    → ((q : List ℕ)
        → lookup m.keyeq_fn q c ≡ (if m.keyeq_fn k q then o else lookup m.keyeq_fn q (chain m k)))
    → m.size + length c ≡ n + length (chain m k)
    → n ≤ m.resize_threshold
    → IsStored m k o
        (record m { buckets = set m.buckets (home m.hash_fn m.keyeq_fn m.capacity k) c; size = n })
write_bucket m k o c n v bucket reads count sparse =
    let i = home m.hash_fn m.keyeq_fn m.capacity k in
    let inside = home_inside m k v in
    let m' : HashMap = record m { buckets = set m.buckets i c; size = n } in
    let zero_on : 0 + i ≡ i = omega arith in
    let valid : IsValid m' = record {
      sized = v.sized;
      width = length-set m.buckets i c ∙ v.width;
      placed =
          Each-set (IsBucket m.hash_fn m.keyeq_fn m.capacity) 0 i m.buckets c v.placed
            (rw zero_on bucket);
      counted = omega (arith, length-flatten-set m.buckets i c inside, v.counted, count);
      threshold_is = v.threshold_is;
      sparse = sparse;
      decides = v.decides;
    } in
    record {
      valid = valid;
      reads = λ q.
          has_key-view m' q valid
          ∙ view-set m.hash_fn m.keyeq_fn m.capacity v.decides m.buckets k o c inside reads q
          ∙ rw (has_key-view m q v) refl;
    }
