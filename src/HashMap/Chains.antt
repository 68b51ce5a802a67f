-- ===== src/HashMap/Chains.antt =====
-- The walks over one chain, against a lookup by key.
use redlib.Prelude.{ℕ, ◌≡◌, ◌≢◌, refl, List, [], ◌∷◌, none, some, arith, if◌then◌else◌}
use redlib.HashMap.{Entry, HashMap, is_hit, find_value, replace_value, take_out}
use redlib.HashMap.Keys.{DecidesKeys, eq_congr_left, eq_congr_right, eq_symm, is_hit-eq}
pub use redlib.HashMap.Lookup.{All, lookup, Distinct, lookup_congr}
pub use redlib.HashMap.Walks.{
  Replaces, hit, skip, TakesOut, replace_value-Replaces, take_out-TakesOut, Replaces-All,
  TakesOut-All, length-Replaces, length-TakesOut,
}

module _ (m : HashMap) (decides : DecidesKeys m.keyeq_fn) (k : List ℕ) where
  abbrev pub AllHashed : List Entry → Type 0
  AllHashed es = All (λ (e : Entry). e.hash ≡ m.hash_fn e.key) es

  pub find_value-lookup :
      (es : List Entry) → AllHashed es → find_value m (m.hash_fn k) k es ≡ lookup m.keyeq_fn k es
  unfolding find_value
  find_value-lookup [] h = refl
  find_value-lookup (e ∷ es) h = rw (is_hit-eq m k e decides h.0, find_value-lookup es h.1)

  pub replace_value-none :
      (v : ℕ) (es : List Entry)
      → AllHashed es
      → replace_value m (m.hash_fn k) k v es ≡ none
      → lookup m.keyeq_fn k es ≡ none
  unfolding replace_value
  replace_value-none v [] h n = refl
  replace_value-none v (e ∷ es) h n =
      ground (arith, n, is_hit-eq m k e decides h.0, replace_value-none v es h.1)

  pub take_out-none :
      (es : List Entry)
      → AllHashed es
      → take_out m (m.hash_fn k) k es ≡ none
      → lookup m.keyeq_fn k es ≡ none
  unfolding take_out
  take_out-none [] h n = refl
  take_out-none (e ∷ es) h n = ground (arith, n, is_hit-eq m k e decides h.0, take_out-none es h.1)

  pub lookup-Replaces :
      {v : ℕ} {es es' : List Entry} (q : List ℕ)
      → AllHashed es
      → Replaces (is_hit m (m.hash_fn k) k) v es es'
      → lookup m.keyeq_fn q es' ≡ (if m.keyeq_fn k q then some v else lookup m.keyeq_fn q es)
  lookup-Replaces q a (hit e es h) =
      ground (arith, h, is_hit-eq m k e decides a.0, eq_congr_left decides e.key k q)
  lookup-Replaces q a (skip e h r) = ground (
    arith,
    h,
    is_hit-eq m k e decides a.0,
    lookup-Replaces q a.1 r,
    eq_congr_right decides e.key k q,
  )

  pub found-Replaces :
      {v : ℕ} {es es' : List Entry}
      → AllHashed es
      → Replaces (is_hit m (m.hash_fn k) k) v es es'
      → lookup m.keyeq_fn k es ≢ none
  found-Replaces a (hit e es h) = ground (arith, h, is_hit-eq m k e decides a.0)
  found-Replaces a (skip e h r) =
      ground (arith, h, is_hit-eq m k e decides a.0, found-Replaces a.1 r)

  pub Distinct-Replaces :
      {v : ℕ} {es es' : List Entry}
      → AllHashed es
      → Replaces (is_hit m (m.hash_fn k) k) v es es'
      → Distinct m.keyeq_fn es
      → Distinct m.keyeq_fn es'
  Distinct-Replaces a (hit e es h) d = d
  Distinct-Replaces a (skip e h r) d = (
    ground (
      arith,
      h,
      d.0,
      is_hit-eq m k e decides a.0,
      lookup-Replaces e.key a.1 r,
      eq_symm decides e.key k,
    ),
    Distinct-Replaces a.1 r d.1,
  )

  pub found-TakesOut :
      {x : Entry} {es es' : List Entry}
      → AllHashed es
      → TakesOut (is_hit m (m.hash_fn k) k) x es es'
      → lookup m.keyeq_fn k es ≡ some x.value
  found-TakesOut {x = x} a (hit es h) = ground (arith, h, is_hit-eq m k x decides a.0)
  found-TakesOut a (skip e h r) =
      ground (arith, h, is_hit-eq m k e decides a.0, found-TakesOut a.1 r)

  pub lookup-TakesOut :
      {x : Entry} {es es' : List Entry} (q : List ℕ)
      → AllHashed es
      → TakesOut (is_hit m (m.hash_fn k) k) x es es'
      → Distinct m.keyeq_fn es
      → lookup m.keyeq_fn q es' ≡ (if m.keyeq_fn k q then none else lookup m.keyeq_fn q es)
  lookup-TakesOut {x = x} q a (hit es h) d = ground (
    arith,
    h,
    d.0,
    is_hit-eq m k x decides a.0,
    eq_congr_left decides x.key k q,
    lookup_congr m.keyeq_fn decides x.key q es,
  )
  lookup-TakesOut q a (skip e h r) d = ground (
    arith,
    h,
    is_hit-eq m k e decides a.0,
    lookup-TakesOut q a.1 r d.1,
    eq_congr_right decides e.key k q,
  )

  pub Distinct-TakesOut :
      {x : Entry} {es es' : List Entry}
      → AllHashed es
      → TakesOut (is_hit m (m.hash_fn k) k) x es es'
      → Distinct m.keyeq_fn es
      → Distinct m.keyeq_fn es'
  Distinct-TakesOut a (hit es h) d = d.1
  Distinct-TakesOut a (skip e h r) d =
      (ground (arith, d.0, lookup-TakesOut e.key a.1 r d.1), Distinct-TakesOut a.1 r d.1)
