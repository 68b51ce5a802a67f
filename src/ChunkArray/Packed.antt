-- ===== src/ChunkArray/Packed.antt =====
-- The items of a chunk array, first to last, and how the code reads them.
use redlib.Prelude.{
  ℕ, ◌+◌, ◌-◌, ◌≤◌, ◌<◌, ◌≡◌, refl, ◌∙◌, sym, ◌⊎◌, inl, inr, List, [], ◌∷◌, ◌++◌, none, arith, true,
  false, length, get_elem?, take, if◌then◌else◌, dec_lt, ltb, sub64, u64_mod, length-append,
  length-take, get_elem?-append_left, get_elem?-append_right, get_elem?-take,
}
use redlib.ChunkArray.{Chunk, get, count_all}

module _ {ℓ} {A : Type ℓ} where
  abbrev pub items : List (Chunk A) → List A
  items [] = []
  items (c ∷ cs) = take c.count c.slots ++ items cs

  -- Chunks of `cap` slots, of which those behind one that is not full are empty.
  abbrev pub Packed : ℕ → List (Chunk A) → Type ℓ
  Packed cap [] = Unit
  Packed cap (c ∷ cs) =
      (c.chunk_capacity ≡ cap)
      × (length c.slots ≡ cap)
      × (c.count ≤ cap)
      × ((c.count ≡ cap) ⊎ (items cs ≡ []))
      × Packed cap cs

  pub length-items :
      (cap : ℕ) (c : Chunk A) (cs : List (Chunk A))
      → length c.slots ≡ cap
      → c.count ≤ cap
      → length (items (c ∷ cs)) ≡ c.count + length (items cs)
  length-items cap c cs room fits =
      omega (arith, length-append (take c.count c.slots) (items cs), length-take c.count c.slots)

  get-beyond :
      (c : Chunk A) (cs : List (Chunk A)) (i k : ℕ)
      → c.count ≤ length c.slots
      → i ≡ c.count + k
      → get_elem? (items (c ∷ cs)) i ≡ get_elem? (items cs) k
  get-beyond c cs i k fits e =
      let n : length (take c.count c.slots) ≡ c.count =
        omega (arith, length-take c.count c.slots) in
      let at : i ≡ length (take c.count c.slots) + k = omega (arith, n, e) in
      rw at (get_elem?-append_right (take c.count c.slots) (items cs) k)

  get-within :
      (c : Chunk A) (cs : List (Chunk A)) (i : ℕ)
      → c.count ≤ length c.slots
      → i < c.count
      → get_elem? (items (c ∷ cs)) i ≡ get_elem? c.slots i
  get-within c cs i fits h =
      get_elem?-append_left (take c.count c.slots) (items cs) i
        (omega (arith, length-take c.count c.slots))
      ∙ get_elem?-take c.count c.slots i
      ∙ within
    where
      test : ltb i c.count ≡ true
      test = ground arith

      within : (if ltb i c.count then get_elem? c.slots i else none) ≡ get_elem? c.slots i
      within = rw test refl

  -- In packed chunks `chunk_array_get` gives, for every index below 2 ^ 64, the item at that index
  -- in the order of the items, and NULL where there is none.
  pub get-items :
      (cap : ℕ) (cs : List (Chunk A)) (i : ℕ)
      → Packed cap cs
      → i < u64_mod
      → get cs i ≡ get_elem? (items cs) i
  unfolding get
  get-items cap [] i p small = refl
  get-items cap (c ∷ cs) i (sized, room, fits, full, rest) small = elim (dec_lt i c.count) [
    | yes inside ↦
        let a : ltb i c.chunk_capacity ≡ true = ground (arith, sized, fits, inside) in
        let b : ltb i c.count ≡ true = ground (arith, inside) in
        rw (a, b) (sym (get-within c cs i (omega (arith, room, fits)) inside))
    | no outside ↦ elim (dec_lt i cap) [
      | yes gap ↦
          let a : ltb i c.chunk_capacity ≡ true = ground (arith, sized, gap) in
          let b : ltb i c.count ≡ false = ground (arith, outside) in
          rw (a, b) (sym (behind outside ∙ nothing full gap outside))
      | no far ↦
          let a : ltb i c.chunk_capacity ≡ false = ground (arith, sized, far) in
          let e : sub64 i c.count ≡ i - c.count = omega (arith, outside, small) in
          rw (a, e)
            (get-items cap cs (i - c.count) rest (omega (arith, small)) ∙ sym (behind outside))
    ]
  ]
    where
      behind : ¬ (i < c.count) → get_elem? (items (c ∷ cs)) i ≡ get_elem? (items cs) (i - c.count)
      behind outside =
          get-beyond c cs i (i - c.count) (omega (arith, room, fits)) (omega (arith, outside))

      nothing :
          (c.count ≡ cap) ⊎ (items cs ≡ [])
          → i < cap
          → ¬ (i < c.count)
          → get_elem? (items cs) (i - c.count) ≡ none
      nothing (inl full) gap outside = absurd (omega (arith, full, gap, outside))
      nothing (inr gone) gap outside = rw gone refl

  -- In packed chunks with fewer than 2 ^ 64 items `chunk_array_count` counts the items.
  pub count_all-items :
      (cap : ℕ) (cs : List (Chunk A))
      → Packed cap cs
      → length (items cs) < u64_mod
      → count_all cs ≡ length (items cs)
  unfolding count_all
  count_all-items cap [] p small = refl
  count_all-items cap (c ∷ cs) (sized, room, fits, full, rest) small =
      let total = length-items cap c cs room fits in
      omega (arith, total, small, count_all-items cap cs rest (omega (arith, total, small)))
