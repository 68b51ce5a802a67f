-- ===== src/HashMap/Put.antt =====
-- `hash_map_put` against lookups by key.
use mathlib.Core.Path.{subst}
use redlib.Prelude.{
  ℕ, ◌+◌, ◌*◌, ◌≤◌, ◌<◌, ◌≡◌, ◌≢◌, refl, sym, ◌∙◌, Bool, true, false, ◌&&◌, List, ◌∷◌, Option, none,
  some, arith, length, set, if◌then◌else◌, add64, mul64, ltb, Bool-cases, dec_lt, Option-cases, inl,
  inr,
}
use redlib.HashMap.{
  is_hit, Entry, HashMap, has_key, PutResult, failed, replaced, inserted, Grants, insert_new,
  put_at, put, replace_value, push_front,
}
use redlib.HashMap.Chains.{
  All, Replaces, replace_value-Replaces, replace_value-none, Replaces-All, length-Replaces,
  lookup-Replaces, found-Replaces, Distinct-Replaces,
}
use redlib.HashMap.Table.{home, Sits, IsBucket}
use redlib.HashMap.Valid.{
  max_capacity, IsValid, home-IsBucket, home_hashed, has_key-view, IsResized, resize-IsResized,
}
use redlib.HashMap.Stored.{chain, IsStored, write_bucket}

-- What a call of `hash_map_put` may leave behind, by its result.
pub record KeepsAll (m m' : HashMap) : Type 0 where
  pub valid : IsValid m'
  pub reads : (q : List ℕ) → has_key m' q ≡ has_key m q
  pub same_size : m'.size ≡ m.size

abbrev pub granted : Grants → Bool
granted ok = ok.table && ok.entry && ok.key

abbrev pub PutOutcome : Grants → HashMap → List ℕ → ℕ → PutResult → HashMap → Type 0
PutOutcome ok m k v failed m' = (granted ok ≡ false) × KeepsAll m m'
PutOutcome ok m k v replaced m' =
    (has_key m k ≢ none) × IsStored m k (some v) m' × (m'.size ≡ m.size)
PutOutcome ok m k v inserted m' =
    (has_key m k ≡ none) × IsStored m k (some v) m' × (m'.size ≡ m.size + 1)

-- What `hash_map_put` answers, and the map it leaves.
abbrev pub IsPut : Grants → HashMap → List ℕ → ℕ → PutResult × HashMap → Type 0
IsPut ok m k v out = PutOutcome ok m k v out.0 out.1

stays : (m : HashMap) → IsValid m → KeepsAll m m
stays m valid = record { valid = valid; reads = λ q. refl; same_size = refl }

insert_new-IsPut :
    (ok : Grants) (m : HashMap) (k : List ℕ) (v : ℕ)
    → IsValid m
    → m.size < m.resize_threshold
    → has_key m k ≡ none
    → IsPut ok m k v (insert_new ok m (m.hash_fn k) k v)
unfolding insert_new
insert_new-IsPut ok m k v valid room absent =
    elim (Bool-cases (ok.entry && (if ltb 0 (length k) then ok.key else true))) [
      | inl given ↦ subst (IsPut ok m k v) (sym (on_true given)) (absent, stored, grown)
      | inr refused ↦
          subst (IsPut ok m k v) (sym (on_false refused)) (ground (arith, refused), stays m valid)
    ]
  where
    i : ℕ
    i = home m.hash_fn m.keyeq_fn m.capacity k

    e : Entry
    e = record { hash = m.hash_fn k; key = k; value = v }

    m' : HashMap
    m' = record m { buckets = push_front m.buckets i e; size = add64 m.size 1 }

    on_true :
        (ok.entry && (if ltb 0 (length k) then ok.key else true)) ≡ true
        → insert_new ok m (m.hash_fn k) k v ≡ (inserted, m')
    on_true given = rw given refl

    on_false :
        (ok.entry && (if ltb 0 (length k) then ok.key else true)) ≡ false
        → insert_new ok m (m.hash_fn k) k v ≡ (failed, m)
    on_false refused = rw refused refl

    grown : add64 m.size 1 ≡ m.size + 1
    grown = omega (arith, room, valid.threshold_is, valid.sized.most)

    bucket : IsBucket m.hash_fn m.keyeq_fn m.capacity i (e ∷ chain m k)
    bucket =
        let old = home-IsBucket m k valid in
        (((refl, refl), old.0), (sym (has_key-view m k valid) ∙ absent, old.1))

    stored : IsStored m k (some v) m'
    stored =
        write_bucket m k (some v) (e ∷ chain m k) (add64 m.size 1) valid bucket (λ q. refl)
          (omega (arith, grown)) (omega (arith, grown, room))

replaced-IsPut :
    (ok : Grants) (m : HashMap) (k : List ℕ) (v : ℕ) (c : List Entry)
    → IsValid m
    → replace_value m (m.hash_fn k) k v (chain m k) ≡ some c
    → IsPut ok m k v
        (replaced, record m { buckets = set m.buckets (home m.hash_fn m.keyeq_fn m.capacity k) c })
replaced-IsPut ok m k v c valid found = (
  λ none_there.
      found-Replaces m valid.decides k hashed r (sym (has_key-view m k valid) ∙ none_there),
  write_bucket m k (some v) c m.size valid
      (
        Replaces-All (Sits m.hash_fn m.keyeq_fn m.capacity i) (λ e v s. s) r old.0,
        Distinct-Replaces m valid.decides k hashed r old.1,
      )
      (λ q. lookup-Replaces m valid.decides k q hashed r) (omega (arith, length-Replaces r))
      valid.sparse,
  refl,
)
  where
    i : ℕ
    i = home m.hash_fn m.keyeq_fn m.capacity k

    old : IsBucket m.hash_fn m.keyeq_fn m.capacity i (chain m k)
    old = home-IsBucket m k valid

    hashed : All (λ (e : Entry). e.hash ≡ m.hash_fn e.key) (chain m k)
    hashed = home_hashed m k valid

    r : Replaces (is_hit m (m.hash_fn k) k) v (chain m k) c
    r = replace_value-Replaces m (m.hash_fn k) k v (chain m k) c found

put_at-IsPut :
    (ok : Grants) (m : HashMap) (k : List ℕ) (v : ℕ)
    → IsValid m
    → m.size < m.resize_threshold
    → IsPut ok m k v (put_at ok m k v)
unfolding put_at
put_at-IsPut ok m k v valid room =
    elim (Option-cases (replace_value m (m.hash_fn k) k v (chain m k))) [
      | inl missing ↦ subst (IsPut ok m k v) (sym (walked_off missing)) (
          insert_new-IsPut ok m k v valid room (
            has_key-view m k valid
            ∙ replace_value-none m valid.decides k v (chain m k) (home_hashed m k valid) missing))
      | inr (c, found) ↦
          subst (IsPut ok m k v) (sym (stopped c found)) (replaced-IsPut ok m k v c valid found)
    ]
  where
    walked_off :
        replace_value m (m.hash_fn k) k v (chain m k) ≡ none
        → put_at ok m k v ≡ insert_new ok m (m.hash_fn k) k v
    walked_off missing = rw (put_at, missing) refl

    stopped :
        (c : List Entry)
        → replace_value m (m.hash_fn k) k v (chain m k) ≡ some c
        → put_at ok m k v ≡ (
          replaced,
          record m { buckets = set m.buckets (home m.hash_fn m.keyeq_fn m.capacity k) c },
        )
    stopped c found = rw (put_at, found) refl

stored_resized :
    (m m' : HashMap) (n : ℕ) (k : List ℕ) (o : Option ℕ) (out : HashMap)
    → IsResized m m' n
    → IsStored m' k o out
    → IsStored m k o out
stored_resized m m' n k o out z stored = record {
  valid = stored.valid;
  reads = λ q. stored.reads q ∙ rw (z.same_reads q, z.same_keyeq) refl;
}

-- After a resize the outcome holds against the map before it.
IsPut-resized :
    (ok : Grants) (m m' : HashMap) (n : ℕ) (k : List ℕ) (v : ℕ) (r : PutResult) (out : HashMap)
    → IsResized m m' n
    → PutOutcome ok m' k v r out
    → PutOutcome ok m k v r out
IsPut-resized ok m m' n k v failed out z (refused, kept) = (
  refused,
  record {
    valid = kept.valid;
    reads = λ q. kept.reads q ∙ z.same_reads q;
    same_size = kept.same_size ∙ z.same_size;
  },
)
IsPut-resized ok m m' n k v replaced out z (held, stored, same) = (
  λ none_there. held (z.same_reads k ∙ none_there),
  stored_resized m m' n k (some v) out z stored,
  same ∙ z.same_size,
)
IsPut-resized ok m m' n k v inserted out z (absent, stored, grown) = (
  sym (z.same_reads k) ∙ absent,
  stored_resized m m' n k (some v) out z stored,
  omega (arith, grown, z.same_size),
)

-- In a valid map whose table can still be doubled within 2 ^ 60 buckets, `hash_map_put` answers 0
-- only where the key is held and 1 only where it is not, the map then reads the new value under the
-- key and what it read before under every other key, the size grows by one in the second case
-- only, and the map stays valid; it answers -1 only if an allocation is refused, and then every
-- lookup and the size stay as they were.
pub put-IsPut :
    (ok : Grants) (m : HashMap) (k : List ℕ) (v : ℕ)
    → IsValid m
    → m.capacity * 2 ≤ max_capacity
    → IsPut ok m k v (put ok m k v)
unfolding put
put-IsPut ok m k v valid bound = elim (dec_lt m.size m.resize_threshold) [
  | yes room ↦
      let stays_put : put ok m k v ≡ put_at ok m k v = ground (arith, room) in
      subst (IsPut ok m k v) (sym stays_put) (put_at-IsPut ok m k v valid room)
  | no full ↦ elim (Bool-cases ok.table) [
    | inl given ↦
        let (m', made, z) =
          resize-IsResized m (mul64 m.capacity 2) valid (omega arith) (omega (arith, bound)) in
        let grows : put ok m k v ≡ put_at ok m' k v = ground (arith, full, given, made) in
        let room : m'.size < m'.resize_threshold = omega (
          arith, z.valid.threshold_is, z.roomy, z.same_size, valid.sparse, valid.threshold_is,
          valid.sized.least, bound,
        ) in
        subst (IsPut ok m k v) (sym grows) (
          IsPut-resized ok m m' (mul64 m.capacity 2) k v _ _ z
            (put_at-IsPut ok m' k v z.valid room))
    | inr refused ↦
        let gives_up : put ok m k v ≡ (failed, m) = ground (arith, full, refused) in
        subst (IsPut ok m k v) (sym gives_up) (ground (arith, refused), stays m valid)
  ]
]

pub IsValid-after :
    (ok : Grants) (m : HashMap) (k : List ℕ) (v : ℕ) (r : PutResult) (m' : HashMap)
    → PutOutcome ok m k v r m'
    → IsValid m'
IsValid-after ok m k v failed m' (_, kept) = kept.valid
IsValid-after ok m k v replaced m' (_, stored, _) = stored.valid
IsValid-after ok m k v inserted m' (_, stored, _) = stored.valid
