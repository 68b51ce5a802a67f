-- ===== src/HashMap/Table.antt =====
-- The array of buckets: every entry stands in the bucket of its hash, and no key stands twice.
use mathlib.Core.Path.{ap}
use mathlib.Core.List.{flatten}
use redlib.Prelude.{
  ℕ, zero, suc, ◌+◌, ◌<◌, ◌≡◌, ◌≢◌, refl, sym, ◌∙◌, Bool, true, false, List, [], ◌∷◌, Option, none,
  arith, length, get_or, set, replicate, if◌then◌else◌, ◌==◌, Bool-cases, inl, inr, bit_and, sub64,
  ℕ_discrete, length-append,
}
use redlib.HashMap.{Entry}
use redlib.HashMap.Keys.{DecidesKeys}
use redlib.HashMap.Chains.{All, lookup, Distinct}

module _ {ℓ} (P : ℕ → List Entry → Type ℓ) where
  -- `P i c` for every bucket `c` at index `i`, counted from `i`.
  abbrev pub Each : ℕ → List (List Entry) → Type ℓ
  Each i [] = Unit
  Each i (c ∷ cs) = P i c × Each (suc i) cs

  pub Each-get :
      (off i : ℕ) (cs : List (List Entry))
      → Each off cs
      → i < length cs
      → P (off + i) (get_or cs i [])
  Each-get off i [] a h = absurd (omega arith)
  Each-get off zero (c ∷ cs) a h = let e : off + 0 ≡ off = omega arith in rw e a.0
  Each-get off (suc i) (c ∷ cs) a h =
      let e : off + suc i ≡ suc off + i = omega arith in
      rw e (Each-get (suc off) i cs a.1 (omega arith))

  pub Each-set :
      (off i : ℕ) (cs : List (List Entry)) (c : List Entry)
      → Each off cs
      → P (off + i) c
      → Each off (set cs i c)
  Each-set off i [] c a p = tt
  Each-set off zero (d ∷ cs) c a p = let e : off + 0 ≡ off = omega arith in (rw e at p, a.1)
  Each-set off (suc i) (d ∷ cs) c a p =
      let e : off + suc i ≡ suc off + i = omega arith in
      (a.0, Each-set (suc off) i cs c a.1 (rw e at p))

  pub Each-replicate : (off n : ℕ) → ((i : ℕ) → P i []) → Each off (replicate n [])
  Each-replicate off zero p = tt
  Each-replicate off (suc n) p = (p off, Each-replicate (suc off) n p)

pub get_or-set :
    (cs : List (List Entry)) (i j : ℕ) (c : List Entry)
    → i < length cs
    → get_or (set cs i c) j [] ≡ (if i == j then c else get_or cs j [])
get_or-set [] i j c h = absurd (omega arith)
get_or-set (d ∷ cs) zero zero c h = ground arith
get_or-set (d ∷ cs) zero (suc j) c h = ground arith
get_or-set (d ∷ cs) (suc i) zero c h = ground arith
get_or-set (d ∷ cs) (suc i) (suc j) c h = ground (arith, get_or-set cs i j c)

pub get_or-replicate :
    (n i : ℕ) → let bs : List (List Entry) = replicate n [] in get_or bs i [] ≡ []
get_or-replicate zero i = refl
get_or-replicate (suc n) zero = refl
get_or-replicate (suc n) (suc i) = get_or-replicate n i

pub length-flatten-set :
    (cs : List (List Entry)) (i : ℕ) (c : List Entry)
    → i < length cs
    → length (flatten (set cs i c)) + length (get_or cs i []) ≡ length (flatten cs) + length c
unfolding flatten
length-flatten-set [] i c h = absurd (omega arith)
length-flatten-set (d ∷ cs) zero c h = simp length-append (omega arith)
length-flatten-set (d ∷ cs) (suc i) c h =
    simp length-append (omega (arith, length-flatten-set cs i c (omega arith)))

module _ (hash : List ℕ → ℕ) (eq : List ℕ → List ℕ → Bool) (cap : ℕ) where
  abbrev pub home : List ℕ → ℕ
  home k = bit_and (hash k) (sub64 cap 1)

  abbrev pub Sits : ℕ → Entry → Type 0
  Sits i e = (e.hash ≡ hash e.key) × (bit_and e.hash (sub64 cap 1) ≡ i)

  abbrev pub IsBucket : ℕ → List Entry → Type 0
  IsBucket i c = All (Sits i) c × Distinct eq c

  abbrev pub IsPlaced : ℕ → List (List Entry) → Type 0
  IsPlaced = Each IsBucket

  -- What a walk from the bucket of the hash finds.
  abbrev pub view : List (List Entry) → List ℕ → Option ℕ
  view cs q = lookup eq q (get_or cs (home q) [])

  module _ (decides : DecidesKeys eq) where
    -- A key is in no other bucket than its own.
    pub lookup-elsewhere :
        (q : List ℕ) (i : ℕ) (c : List Entry) → All (Sits i) c → home q ≢ i → lookup eq q c ≡ none
    lookup-elsewhere q i [] a away = refl
    lookup-elsewhere q i (e ∷ c) a away = elim (Bool-cases (eq e.key q)) [
      | inl hit ↦
          let same : hash e.key ≡ hash q = ap hash ((decides e.key q).0 hit) in
          absurd (away (ap (λ h. bit_and h (sub64 cap 1)) (sym (a.0.0 ∙ same)) ∙ a.0.1))
      | inr miss ↦ rw miss (lookup-elsewhere q i c a.1 away)
    ]

    -- Writing the bucket of `k` changes the lookups as the lookups in that bucket change.
    pub view-set :
        (cs : List (List Entry)) (k : List ℕ) (v : Option ℕ) (c : List Entry)
        → home k < length cs
        → ((q : List ℕ)
            → lookup eq q c ≡ (if eq k q then v else lookup eq q (get_or cs (home k) [])))
        → (q : List ℕ) → view (set cs (home k) c) q ≡ (if eq k q then v else view cs q)
    view-set cs k v c h reads q = elim (ℕ_discrete (home k) (home q)) [
      | yes same ↦ rw (written, same_test same) (reads q ∙ there same)
      | no other ↦ rw (written, other_test other) (rw (apart other))
    ]
      where
        written :
            get_or (set cs (home k) c) (home q) []
            ≡ (if home k == home q then c else get_or cs (home q) [])
        written = get_or-set cs (home k) (home q) c h

        same_test : home k ≡ home q → (home k == home q) ≡ true
        same_test same = ground (arith, same)

        other_test : home k ≢ home q → (home k == home q) ≡ false
        other_test other = ground (arith, other)

        there :
            home k ≡ home q
            → (if eq k q then v else lookup eq q (get_or cs (home k) []))
              ≡ (if eq k q then v else view cs q)
        there same = ap (λ i. if eq k q then v else lookup eq q (get_or cs i [])) same

        apart : home k ≢ home q → eq k q ≡ false
        apart other = elim (Bool-cases (eq k q)) [
          | inl hit ↦ absurd (other (ap home ((decides k q).0 hit)))
          | inr miss ↦ miss
        ]
