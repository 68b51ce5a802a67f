-- ===== src/HashMap/Walks.antt =====
-- The walks of `hash_map_put` and `hash_map_remove` over one chain, as relations.
use mathlib.Core.Path.{ap, subst}
use redlib.Prelude.{
  ℕ, suc, ◌≡◌, refl, inl, inr, Bool, true, false, List, [], ◌∷◌, some, arith, length, Bool-cases,
  Option-cases,
}
use redlib.HashMap.{Entry, HashMap, is_hit, replace_value, take_out}
use redlib.HashMap.Lookup.{All}

-- The first entry that passes the test has its value changed.
pub data Replaces (test : Entry → Bool) (v : ℕ) : List Entry → List Entry → Type 0 where
  hit :
      (e : Entry) (es : List Entry)
      → test e ≡ true
      → Replaces test v (e ∷ es) (record e { value = v } ∷ es)
  skip :
      {es es' : List Entry} (e : Entry)
      → test e ≡ false
      → Replaces test v es es'
      → Replaces test v (e ∷ es) (e ∷ es')

-- The first entry that passes the test, `x`, is taken out.
pub data TakesOut (test : Entry → Bool) (x : Entry) : List Entry → List Entry → Type 0 where
  hit : (es : List Entry) → test x ≡ true → TakesOut test x (x ∷ es) es
  skip :
      {es es' : List Entry} (e : Entry)
      → test e ≡ false
      → TakesOut test x es es'
      → TakesOut test x (e ∷ es) (e ∷ es')

module _ (m : HashMap) (h : ℕ) (k : List ℕ) where
  pub replace_value-Replaces :
      (v : ℕ) (es es' : List Entry)
      → replace_value m h k v es ≡ some es'
      → Replaces (is_hit m h k) v es es'
  unfolding replace_value
  replace_value-Replaces v [] es' s = absurd (ground (arith, s))
  replace_value-Replaces v (e ∷ es) es' s = elim (Bool-cases (is_hit m h k e)) [
    | inl yes_hit ↦
        let same : record e { value = v } ∷ es ≡ es' = ground (arith, s, yes_hit) in
        subst (Replaces (is_hit m h k) v (e ∷ es)) same (hit e es yes_hit)
    | inr miss ↦ elim (Option-cases (replace_value m h k v es)) [
      | inl gone ↦ absurd (ground (arith, s, miss, gone))
      | inr (rest, found) ↦
          let same : e ∷ rest ≡ es' = ground (arith, s, miss, found) in
          subst (Replaces (is_hit m h k) v (e ∷ es)) same
            (skip e miss (replace_value-Replaces v es rest found))
    ]
  ]

  pub take_out-TakesOut :
      (es es' : List Entry) (x : Entry)
      → take_out m h k es ≡ some (x, es')
      → TakesOut (is_hit m h k) x es es'
  unfolding take_out
  take_out-TakesOut [] es' x s = absurd (ground (arith, s))
  take_out-TakesOut (e ∷ es) es' x s = elim (Bool-cases (is_hit m h k e)) [
    | inl yes_hit ↦
        let same : e ≡ x = ground (arith, s, yes_hit) in
        let rest : es ≡ es' = ground (arith, s, yes_hit) in
        subst (λ t. TakesOut (is_hit m h k) x (e ∷ es) t) rest
          (subst (λ y. TakesOut (is_hit m h k) y (e ∷ es) es) same (hit es yes_hit))
    | inr miss ↦ elim (Option-cases (take_out m h k es)) [
      | inl gone ↦ absurd (ground (arith, s, miss, gone))
      | inr ((y, rest), found) ↦
          let same : y ≡ x = ground (arith, s, miss, found) in
          let shorter : e ∷ rest ≡ es' = ground (arith, s, miss, found) in
          subst (λ t. TakesOut (is_hit m h k) x (e ∷ es) t) shorter
            (skip e miss (
              subst (λ z. TakesOut (is_hit m h k) z es rest) same
                (take_out-TakesOut es rest y found)))
    ]
  ]

-- Both walks keep what does not depend on the value.
pub Replaces-All :
    {test : Entry → Bool} {v : ℕ} {es es' : List Entry} (P : Entry → Type 0)
    → ((e : Entry) (v : ℕ) → P e → P (record e { value = v }))
    → Replaces test v es es'
    → All P es
    → All P es'
Replaces-All {v = v} P keep (hit e es h) a = (keep e v a.0, a.1)
Replaces-All P keep (skip e h r) a = (a.0, Replaces-All P keep r a.1)

pub TakesOut-All :
    {test : Entry → Bool} {x : Entry} {es es' : List Entry} (P : Entry → Type 0)
    → TakesOut test x es es'
    → All P es
    → All P es'
TakesOut-All P (hit es h) a = a.1
TakesOut-All P (skip e h r) a = (a.0, TakesOut-All P r a.1)

pub length-Replaces :
    {test : Entry → Bool} {v : ℕ} {es es' : List Entry}
    → Replaces test v es es'
    → length es' ≡ length es
length-Replaces (hit e es h) = refl
length-Replaces (skip e h r) = ap suc (length-Replaces r)

pub length-TakesOut :
    {test : Entry → Bool} {x : Entry} {es es' : List Entry}
    → TakesOut test x es es'
    → length es ≡ suc (length es')
length-TakesOut (hit es h) = refl
length-TakesOut (skip e h r) = ap suc (length-TakesOut r)
