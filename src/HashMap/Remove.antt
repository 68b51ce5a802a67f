-- ===== src/HashMap/Remove.antt =====
-- `hash_map_remove` against lookups by key.
use mathlib.Core.Path.{ap, subst}
use redlib.Prelude.{
  ℕ, ◌+◌, ◌≡◌, refl, sym, ◌∙◌, Bool, List, [], ◌∷◌, Option, none, some, arith, set, if◌then◌else◌,
  ◌++◌, sub64, Bool-cases, Option-cases, inl, inr,
}
use redlib.HashMap.{is_hit, Entry, HashMap, has_key, take_out}
use redlib.HashMap.Release.{disposal, key_release, free_entry, remove, Event}
use redlib.HashMap.Chains.{
  All, TakesOut, take_out-TakesOut, take_out-none, TakesOut-All, length-TakesOut, found-TakesOut,
  lookup-TakesOut, Distinct-TakesOut,
}
use redlib.HashMap.Table.{length-flatten-set, home, Sits, IsBucket}
use redlib.HashMap.Valid.{IsValid, home_inside, home-IsBucket, home_hashed, has_key-view}
use redlib.HashMap.Stored.{chain, IsStored, write_bucket}

-- Under the removed key nothing is found, and under every other key what was found before.
pub record IsRemoved (m : HashMap) (k : List ℕ) (v : Option ℕ) (m' : HashMap) : Type 0 where
  pub returned : v ≡ has_key m k
  pub stored : IsStored m k none m'
  pub shrunk : m.size ≡ m'.size + elim v [ none ↦ 0 | some _ ↦ 1 ]

-- In a valid map `hash_map_remove` answers what was held under the key, and leaves a valid map
-- that finds nothing under the key, what it found before under every other key, and has one entry
-- less exactly if the key was held.
pub remove-IsRemoved :
    (m : HashMap) (k : List ℕ) (out : Bool)
    → IsValid m
    → IsRemoved m k (remove m k out).0 (remove m k out).2
unfolding remove
remove-IsRemoved m k out valid = elim (Option-cases (take_out m (m.hash_fn k) k (chain m k))) [
  | inl gone ↦
      let absent : has_key m k ≡ none =
        has_key-view m k valid
        ∙ take_out-none m valid.decides k (chain m k) (home_hashed m k valid) gone in
      subst (λ (r : Option ℕ × List Event × HashMap). IsRemoved m k r.0 r.2) (sym (missed gone))
        (record {
          returned = sym absent;
          stored = record { valid = valid; reads = λ q. unchanged absent q };
          shrunk = omega arith;
        })
  | inr ((e, c), found) ↦
      subst (λ (r : Option ℕ × List Event × HashMap). IsRemoved m k r.0 r.2) (sym (took e c found))
        (taken_out e c (take_out-TakesOut m (m.hash_fn k) k (chain m k) c e found))
]
  where
    i : ℕ
    i = home m.hash_fn m.keyeq_fn m.capacity k

    missed : take_out m (m.hash_fn k) k (chain m k) ≡ none → remove m k out ≡ (none, [], m)
    missed gone = rw (remove, gone) refl

    events : Entry → List Event
    events e = (if out then [] else disposal m e.value) ++ key_release e.key ++ free_entry e ∷ []

    took :
        (e : Entry) (c : List Entry)
        → take_out m (m.hash_fn k) k (chain m k) ≡ some (e, c)
        → remove m k out ≡ (
          some e.value,
          events e,
          record m { buckets = set m.buckets i c; size = sub64 m.size 1 },
        )
    took e c found = rw (remove, found) refl

    unchanged :
        has_key m k ≡ none
        → (q : List ℕ) → has_key m q ≡ (if m.keyeq_fn k q then none else has_key m q)
    unchanged absent q = elim (Bool-cases (m.keyeq_fn k q)) [
      | inl same ↦ rw same (ap (has_key m) (sym ((valid.decides k q).0 same)) ∙ absent)
      | inr other ↦ rw other refl
    ]

    old : IsBucket m.hash_fn m.keyeq_fn m.capacity i (chain m k)
    old = home-IsBucket m k valid

    hashed : All (λ (e : Entry). e.hash ≡ m.hash_fn e.key) (chain m k)
    hashed = home_hashed m k valid

    taken_out :
        (e : Entry) (c : List Entry)
        → TakesOut (is_hit m (m.hash_fn k) k) e (chain m k) c
        → IsRemoved m k
            (some e.value)
            (record m { buckets = set m.buckets i c; size = sub64 m.size 1 })
    taken_out e c r =
        let fewer = length-TakesOut r in
        let counts = length-flatten-set m.buckets i [] (home_inside m k valid) in
        let lowered : sub64 m.size 1 + 1 ≡ m.size = omega (
          arith, counts, valid.counted, fewer, valid.sparse, valid.threshold_is, valid.sized.most,
        ) in
        record {
          returned = sym (has_key-view m k valid ∙ found-TakesOut m valid.decides k hashed r);
          stored =
              write_bucket m k none c (sub64 m.size 1) valid
                (
                  TakesOut-All (Sits m.hash_fn m.keyeq_fn m.capacity i) r old.0,
                  Distinct-TakesOut m valid.decides k hashed r old.1,
                )
                (λ q. lookup-TakesOut m valid.decides k q hashed r old.1)
                (omega (arith, fewer, lowered)) (omega (arith, lowered, valid.sparse));
          shrunk = sym lowered;
        }
