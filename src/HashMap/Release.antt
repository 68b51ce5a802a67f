-- ===== src/HashMap/Release.antt =====
-- data/struct/hashmap.c, the functions that give entries up or walk over all of them:
-- `hash_map_remove`, `hash_map_destroy`, `hash_map_empty` and `hash_map_for_each`.
use redlib.Prelude.{
  ℕ, Bool, ◌&&◌, List, [], ◌∷◌, ◌++◌, Option, none, some, get_or, set, if◌then◌else◌, ltb, sub64,
}
use redlib.HashMap.{Entry, HashMap, take_out, is_hit, bucket_of}

pub data Event : Type 0 where
  free_key : List ℕ → Event
  free_entry : Entry → Event
  dispose : ℕ → Event
  free_buckets : Event
  free_map : Event

-- What becomes of a value that is given up.
pub disposal : HashMap → ℕ → List Event
disposal m v = if m.value_dispose && ltb 0 v then dispose v ∷ [] else []

-- `if (e->key_len > 0 && e->key) chm_free(map, e->key);`
pub key_release : List ℕ → List Event
key_release [] = []
key_release (b ∷ key) = free_key (b ∷ key) ∷ []

-- `out` says whether the caller passes `out_value`. The option is the removed value.
unfoldable pub remove : HashMap → List ℕ → Bool → Option ℕ × List Event × HashMap
unfolding take_out is_hit bucket_of disposal key_release
remove m key out =
    let h = m.hash_fn key in
    let i = bucket_of m h in
    elim (take_out m h key (get_or m.buckets i [])) [
      | none ↦ (none, [], m)
      | some (e, c) ↦ (
        some e.value,
        (if out then [] else disposal m e.value) ++ key_release e.key ++ free_entry e ∷ [],
        record m { buckets = set m.buckets i c; size = sub64 m.size 1 },
      )
    ]

-- The body of the loops of `hash_map_destroy` and `hash_map_empty`.
release_chain : HashMap → List Entry → List Event
unfolding disposal key_release
release_chain m [] = []
release_chain m (e ∷ es) =
    key_release e.key ++ disposal m e.value ++ free_entry e ∷ release_chain m es

pub release_all : HashMap → List (List Entry) → List Event
unfolding release_chain
release_all m [] = []
release_all m (c ∷ cs) = release_chain m c ++ release_all m cs

unfoldable pub destroy : HashMap → List Event
unfolding release_all
destroy m = release_all m m.buckets ++ free_buckets ∷ free_map ∷ []

-- The buckets are not written: they keep the pointers to the entries that are freed.
unfoldable pub empty : HashMap → List Event × HashMap
unfolding release_all
empty m = (release_all m m.buckets, record m { size = 0 })

chain_calls : List Entry → List (List ℕ × ℕ)
chain_calls [] = []
chain_calls (e ∷ es) = (e.key, e.value) ∷ chain_calls es

bucket_calls : List (List Entry) → List (List ℕ × ℕ)
unfolding chain_calls
bucket_calls [] = []
bucket_calls (c ∷ cs) = chain_calls c ++ bucket_calls cs

-- The calls of `func`, in order.
unfoldable pub for_each : HashMap → List (List ℕ × ℕ)
unfolding bucket_calls
for_each m = bucket_calls m.buckets
