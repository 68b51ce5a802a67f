-- ===== src/HashMap/Keys.antt =====
-- The comparison of keys: what a map needs of it, and that the default has it.
use mathlib.Core.Path.{ap, ap₂}
use redlib.Prelude.{
  ℕ, ◌≡◌, refl, sym, ◌∙◌, ◌↔◌, inl, inr, Bool, true, List, [], ◌∷◌, arith, Bool-cases,
}
use redlib.HashMap.{Entry, HashMap, bytewise_eq, is_hit}

-- `keyeq_fn` decides equality of the bytes.
abbrev pub DecidesKeys : (List ℕ → List ℕ → Bool) → Type 0
DecidesKeys eq = (a b : List ℕ) → (eq a b ≡ true) ↔ (a ≡ b)

bytewise_eq_sound : (a b : List ℕ) → bytewise_eq a b ≡ true → a ≡ b
unfolding bytewise_eq
bytewise_eq_sound [] [] h = refl
bytewise_eq_sound [] (y ∷ b) h = absurd (ground (arith, h))
bytewise_eq_sound (x ∷ a) [] h = absurd (ground (arith, h))
bytewise_eq_sound (x ∷ a) (y ∷ b) h =
    let head : x ≡ y = ground (arith, h) in ap₂ ◌∷◌ head (bytewise_eq_sound a b (ground (arith, h)))

bytewise_eq_refl : (a : List ℕ) → bytewise_eq a a ≡ true
unfolding bytewise_eq
bytewise_eq_refl [] = refl
bytewise_eq_refl (x ∷ a) = ground (arith, bytewise_eq_refl a)

-- The default comparison answers 1 exactly on equal byte strings.
pub bytewise_eq-DecidesKeys : DecidesKeys bytewise_eq
bytewise_eq-DecidesKeys a b = (bytewise_eq_sound a b, λ e. rw e (bytewise_eq_refl b))

module _ {eq : List ℕ → List ℕ → Bool} (decides : DecidesKeys eq) where
  pub eq_refl : (a : List ℕ) → eq a a ≡ true
  eq_refl a = (decides a a).1 refl

  pub eq_congr_left : (a k q : List ℕ) → eq a k ≡ true → eq a q ≡ eq k q
  eq_congr_left a k q h = ap (λ x. eq x q) ((decides a k).0 h)

  pub eq_congr_right : (a k q : List ℕ) → eq k q ≡ true → eq a k ≡ eq a q
  eq_congr_right a k q h = ap (eq a) ((decides k q).0 h)

  pub eq_symm : (a b : List ℕ) → eq a b ≡ eq b a
  eq_symm a b = elim (Bool-cases (eq a b)) [
    | inl e ↦ e ∙ sym ((decides b a).1 (sym ((decides a b).0 e)))
    | inr e ↦ elim (Bool-cases (eq b a)) [
      | inl f ↦ (decides a b).1 (sym ((decides b a).0 f)) ∙ sym f
      | inr f ↦ e ∙ sym f
    ]
  ]

-- In a chain of well-hashed entries the test of the walks compares keys.
pub is_hit-eq :
    (m : HashMap) (k : List ℕ) (e : Entry)
    → DecidesKeys m.keyeq_fn
    → e.hash ≡ m.hash_fn e.key
    → is_hit m (m.hash_fn k) k e ≡ m.keyeq_fn e.key k
unfolding is_hit
is_hit-eq m k e decides h = elim (Bool-cases (m.keyeq_fn e.key k)) [
  | inl same ↦ ground (arith, same, h, ap m.hash_fn ((decides e.key k).0 same))
  | inr other ↦ ground (arith, other)
]
