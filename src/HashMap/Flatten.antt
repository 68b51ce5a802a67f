-- ===== src/HashMap/Flatten.antt =====
-- All the entries of a table in one list: what a lookup in it finds, and the two loops of the resize.
use mathlib.Core.List.{flatten}
use redlib.Prelude.{
  ℕ, zero, suc, ◌+◌, ◌<◌, ◌≡◌, ◌≢◌, refl, sym, ◌∙◌, Bool, List, [], ◌∷◌, ◌++◌, Option, none, some,
  arith, get_or, ℕ_discrete,
}
use redlib.HashMap.{Entry, move_chain, move_all}
use redlib.HashMap.Keys.{DecidesKeys, eq_refl}
use redlib.HashMap.Chains.{All, lookup, Distinct}
use redlib.HashMap.Table.{home, Sits, IsPlaced, view, lookup-elsewhere}

abbrev pub or_else : Option ℕ → Option ℕ → Option ℕ
or_else none b = b
or_else (some v) b = some v

move_chain-append :
    (n : ℕ) (a b : List Entry) (nb : List (List Entry))
    → move_chain n (a ++ b) nb ≡ move_chain n b (move_chain n a nb)
unfolding move_chain
move_chain-append n [] b nb = refl
move_chain-append n (e ∷ a) b nb = move_chain-append n a b _

-- The two nested loops are one loop over all the entries.
pub move_all-flatten :
    (n : ℕ) (cs nb : List (List Entry)) → move_all n cs nb ≡ move_chain n (flatten cs) nb
unfolding move_all move_chain flatten
move_all-flatten n [] nb = refl
move_all-flatten n (c ∷ cs) nb =
    move_all-flatten n cs (move_chain n c nb) ∙ sym (move_chain-append n c (flatten cs) nb)

All-append : (P : Entry → Type 0) (a b : List Entry) → All P a → All P b → All P (a ++ b)
All-append P [] b x y = y
All-append P (e ∷ a) b x y = (x.0, All-append P a b x.1 y)

pub All-map :
    (P Q : Entry → Type 0) (a : List Entry) → ((e : Entry) → P e → Q e) → All P a → All Q a
All-map P Q [] f x = tt
All-map P Q (e ∷ a) f x = (f e x.0, All-map P Q a f x.1)

module _ (hash : List ℕ → ℕ) (eq : List ℕ → List ℕ → Bool) (decides : DecidesKeys eq) where
  lookup-append :
      (q : List ℕ) (a b : List Entry)
      → lookup eq q (a ++ b) ≡ or_else (lookup eq q a) (lookup eq q b)
  lookup-append q [] b = refl
  lookup-append q (e ∷ a) b = ground (arith, lookup-append q a b)

  Distinct-append :
      (a b : List Entry)
      → Distinct eq a
      → Distinct eq b
      → ((q : List ℕ) → lookup eq q a ≢ none → lookup eq q b ≡ none)
      → Distinct eq (a ++ b)
  Distinct-append [] b x y apart = y
  Distinct-append (e ∷ a) b x y apart = (
    lookup-append e.key a b ∙ ground (arith, x.0, apart e.key here),
    Distinct-append a b x.1 y (λ q h. apart q (later q h)),
  )
    where
      here : lookup eq e.key (e ∷ a) ≢ none
      here = ground (arith, eq_refl decides e.key)

      later : (q : List ℕ) → lookup eq q a ≢ none → lookup eq q (e ∷ a) ≢ none
      later q h = ground (arith, h)

  module _ (cap : ℕ) where
    -- A key whose bucket is before the table is not in it.
    lookup-flatten_before :
        (off : ℕ) (cs : List (List Entry)) (q : List ℕ)
        → IsPlaced hash eq cap off cs
        → home hash eq cap q < off
        → lookup eq q (flatten cs) ≡ none
    unfolding flatten
    lookup-flatten_before off [] q p h = refl
    lookup-flatten_before off (c ∷ cs) q p h =
        lookup-append q c (flatten cs)
        ∙ ground (
          arith,
          lookup-elsewhere hash eq cap decides q off c p.0.0 (omega arith),
          lookup-flatten_before (suc off) cs q p.1 (omega arith),
        )

    -- All the entries together hold for a key what its bucket holds.
    lookup-flatten_from :
        (off j : ℕ) (cs : List (List Entry)) (q : List ℕ)
        → IsPlaced hash eq cap off cs
        → home hash eq cap q ≡ off + j
        → lookup eq q (flatten cs) ≡ lookup eq q (get_or cs j [])
    unfolding flatten
    lookup-flatten_from off j [] q p h = refl
    lookup-flatten_from off zero (c ∷ cs) q p h =
        lookup-append q c (flatten cs)
        ∙ ground (arith, lookup-flatten_before (suc off) cs q p.1 (omega arith))
    lookup-flatten_from off (suc j) (c ∷ cs) q p h =
        lookup-append q c (flatten cs)
        ∙ ground (
          arith,
          lookup-elsewhere hash eq cap decides q off c p.0.0 (omega arith),
          lookup-flatten_from (suc off) j cs q p.1 (omega arith),
        )

    pub lookup-flatten :
        (cs : List (List Entry)) (q : List ℕ)
        → IsPlaced hash eq cap 0 cs
        → lookup eq q (flatten cs) ≡ view hash eq cap cs q
    lookup-flatten cs q p = lookup-flatten_from 0 (home hash eq cap q) cs q p (omega arith)

    pub Distinct-flatten :
        (off : ℕ) (cs : List (List Entry)) → IsPlaced hash eq cap off cs → Distinct eq (flatten cs)
    unfolding flatten
    Distinct-flatten off [] p = tt
    Distinct-flatten off (c ∷ cs) p =
        Distinct-append c (flatten cs) p.0.1 (Distinct-flatten (suc off) cs p.1) (λ q h.
          elim (ℕ_discrete (home hash eq cap q) off) [
            | yes here ↦ lookup-flatten_before (suc off) cs q p.1 (omega arith)
            | no away ↦ absurd (h (lookup-elsewhere hash eq cap decides q off c p.0.0 away))
          ])

    pub AllHashed-flatten :
        (off : ℕ) (cs : List (List Entry))
        → IsPlaced hash eq cap off cs
        → All (λ (e : Entry). e.hash ≡ hash e.key) (flatten cs)
    unfolding flatten
    AllHashed-flatten off [] p = tt
    AllHashed-flatten off (c ∷ cs) p =
        All-append (λ e. e.hash ≡ hash e.key) c (flatten cs)
          (All-map (Sits hash eq cap off) (λ e. e.hash ≡ hash e.key) c (λ e s. s.0) p.0.0)
          (AllHashed-flatten (suc off) cs p.1)
