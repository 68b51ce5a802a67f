-- ===== src/HashMap/Lookup.antt =====
-- A lookup by key in one chain.
use mathlib.Core.Path.{ap}
use redlib.Prelude.{ℕ, ◌≡◌, Bool, true, List, [], ◌∷◌, Option, none, some, if◌then◌else◌}
use redlib.HashMap.{Entry}
use redlib.HashMap.Keys.{DecidesKeys}
pub use redlib.Prelude.{All}

module _ (eq : List ℕ → List ℕ → Bool) where
  -- The value of the first entry under a key.
  abbrev pub lookup : List ℕ → List Entry → Option ℕ
  lookup k [] = none
  lookup k (e ∷ es) = if eq e.key k then some e.value else lookup k es

  -- No key stands twice.
  abbrev pub Distinct : List Entry → Type 0
  Distinct [] = Unit
  Distinct (e ∷ es) = (lookup e.key es ≡ none) × Distinct es

  pub lookup_congr :
      DecidesKeys eq → (a b : List ℕ) (es : List Entry) → eq a b ≡ true → lookup a es ≡ lookup b es
  lookup_congr decides a b es h = ap (λ k. lookup k es) ((decides a b).0 h)
