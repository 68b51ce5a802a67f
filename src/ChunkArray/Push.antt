-- ===== src/ChunkArray/Push.antt =====
-- `chunk_array_push`.
use redlib.Prelude.{
  ℕ, zero, suc, ◌<◌, ◌≡◌, refl, ◌∙◌, sym, ap, ◌⊎◌, inl, inr, List, [], ◌∷◌, ◌++◌, some, arith, true,
  false, length, set, take, dec_lt, ltb, add64, u64_mod, length-set, length-replicate,
}
use redlib.ChunkArray.{Chunk, create, store, push_new, push}
use redlib.ChunkArray.Packed.{items, Packed, length-items}

module _ {ℓ} {A : Type ℓ} where
  pub append-nil : (xs : List A) → xs ++ [] ≡ xs
  append-nil [] = refl
  append-nil (x ∷ xs) = ap (◌∷◌ x) (append-nil xs)

  append_assoc : (xs ys zs : List A) → (xs ++ ys) ++ zs ≡ xs ++ (ys ++ zs)
  append_assoc [] ys zs = refl
  append_assoc (x ∷ xs) ys zs = ap (◌∷◌ x) (append_assoc xs ys zs)

  take-set :
      (xs : List A) (n : ℕ) (x : A)
      → n < length xs
      → take (suc n) (set xs n x) ≡ take n xs ++ x ∷ []
  take-set [] n x h = absurd (omega arith)
  take-set (y ∷ ys) zero x h = refl
  take-set (y ∷ ys) (suc n) x h = ap (◌∷◌ y) (take-set ys n x (omega arith))

  -- The chunks after a push of `x` onto chunks that held `xs`.
  pub record IsAppended (cap : ℕ) (xs : List A) (x : A) (cs : List (Chunk A)) : Type ℓ where
    pub appended : items cs ≡ xs ++ x ∷ []
    pub packed : Packed cap cs

  store-IsAppended :
      (cap : ℕ) (c : Chunk A) (cs : List (Chunk A)) (x : A)
      → Packed cap (c ∷ cs)
      → cap < u64_mod
      → c.count < cap
      → IsAppended cap (items (c ∷ cs)) x (store c x ∷ cs)
  unfolding store
  store-IsAppended cap c cs x (sized, room, fits, full, rest) small gap =
      let more : add64 c.count 1 ≡ suc c.count = omega arith in
      let inside : c.count < length c.slots = omega (arith, room) in
      rw more (record {
        appended = rw (nothing full) (
            append-nil (take (suc c.count) (set c.slots c.count x))
            ∙ take-set c.slots c.count x inside
            ∙ ap (λ xs. xs ++ x ∷ []) (sym (append-nil (take c.count c.slots))));
        packed = (
          sized,
          length-set c.slots c.count x ∙ room,
          omega (arith, gap),
          inr (nothing full),
          rest,
        );
      })
    where
      nothing : (c.count ≡ cap) ⊎ (items cs ≡ []) → items cs ≡ []
      nothing (inl e) = absurd (omega (arith, e, gap))
      nothing (inr e) = e

  create-Packed : (cleared : A) (cap : ℕ) → Packed cap (create cleared cap ∷ [])
  unfolding create
  create-Packed cleared cap = (refl, length-replicate cap cleared, omega arith, inr refl, tt)

  push_new-IsAppended :
      (cleared : A) (cap : ℕ) (x : A)
      → 0 < cap
      → cap < u64_mod
      → let cs = store (create cleared cap) x ∷ [] in
        (push_new cleared cap x ≡ some (0, cs)) × IsAppended cap [] x cs
  unfolding push_new create
  push_new-IsAppended cleared cap x pos small =
      let t : ltb 0 cap ≡ true = ground arith in
      (
        rw t refl,
        store-IsAppended cap (create cleared cap) [] x (create-Packed cleared cap) small pos,
      )

  -- Behind a full chunk.
  behind-IsAppended :
      (cap : ℕ) (c : Chunk A) (cs cs' : List (Chunk A)) (x : A)
      → Packed cap (c ∷ cs)
      → c.count ≡ cap
      → IsAppended cap (items cs) x cs'
      → IsAppended cap (items (c ∷ cs)) x (c ∷ cs')
  behind-IsAppended cap c cs cs' x (sized, room, fits, _, rest) full a = record {
    appended =
        ap (λ ys. take c.count c.slots ++ ys) a.appended
        ∙ sym (append_assoc (take c.count c.slots) (items cs) (x ∷ []));
    packed = (sized, room, fits, inl full, a.packed);
  }

  room_test :
      (cap : ℕ) (c : Chunk A) (cs : List (Chunk A))
      → Packed cap (c ∷ cs)
      → c.count < cap
      → ltb c.count c.chunk_capacity ≡ true
  room_test cap c cs (sized, _, _, _, _) gap = ground (arith, sized, gap)

  full_test :
      (cap : ℕ) (c : Chunk A) (cs : List (Chunk A))
      → Packed cap (c ∷ cs)
      → c.count ≡ cap
      → ltb c.count c.chunk_capacity ≡ false
  full_test cap c cs (sized, _, _, _, _) full = ground (arith, sized, full)

  filled :
      (cap : ℕ) (c : Chunk A) (cs : List (Chunk A))
      → Packed cap (c ∷ cs)
      → c.count < cap
      → length (items (c ∷ cs)) ≡ c.count
  filled cap c cs (sized, room, fits, inl full, rest) gap = absurd (omega (arith, full, gap))
  filled cap c cs (sized, room, fits, inr gone, rest) gap =
      omega (arith, length-items cap c cs room fits, ap length gone)

  -- In packed chunks of at least one slot each, with fewer than 2 ^ 64 items and slots,
  -- `chunk_array_push` returns, answers the number of items before it, and leaves packed chunks that hold the item
  -- behind the others.
  pub push-IsAppended :
      (cap : ℕ) (cleared : A) (c : Chunk A) (cs : List (Chunk A)) (x : A)
      → Packed cap (c ∷ cs)
      → 0 < cap
      → cap < u64_mod
      → length (items (c ∷ cs)) < u64_mod
      → (cs' : List (Chunk A)) × (push cleared (c ∷ cs) x ≡ some (length (items (c ∷ cs)), cs'))
        × IsAppended cap (items (c ∷ cs)) x cs'
  unfolding push
  push-IsAppended cap cleared c [] x p pos small fewer = elim (dec_lt c.count cap) [
    | yes gap ↦ (
      store c x ∷ [],
      rw (room_test cap c [] p gap, filled cap c [] p gap) refl,
      store-IsAppended cap c [] x p small gap,
    )
    | no none_left ↦
        let full : c.count ≡ cap = omega (arith, p.2) in
        let (made, a) = push_new-IsAppended cleared cap x pos small in
        let made' : push_new cleared c.chunk_capacity x
            ≡ some (0, store (create cleared cap) x ∷ []) =
          ap (λ n. push_new cleared n x) p.0 ∙ made in
        let index : add64 c.count 0 ≡ length (items (c ∷ [])) =
          omega (arith, full, length-items cap c [] p.1 p.2) in
        (
          c ∷ store (create cleared cap) x ∷ [],
          rw (full_test cap c [] p full, made', index) refl,
          behind-IsAppended cap c [] _ x p full a,
        )
  ]
  push-IsAppended cap cleared c (d ∷ ds) x p pos small fewer = elim (dec_lt c.count cap) [
    | yes gap ↦ (
      store c x ∷ d ∷ ds,
      rw (room_test cap c (d ∷ ds) p gap, filled cap c (d ∷ ds) p gap) refl,
      store-IsAppended cap c (d ∷ ds) x p small gap,
    )
    | no none_left ↦
        let full : c.count ≡ cap = omega (arith, p.2) in
        let total = length-items cap c (d ∷ ds) p.1 p.2 in
        let (cs', pushed, a) =
          push-IsAppended cap cleared d ds x p.4 pos small (omega (arith, total, fewer)) in
        let index : add64 c.count (length (items (d ∷ ds))) ≡ length (items (c ∷ d ∷ ds)) =
          omega (arith, total, fewer) in
        (
          c ∷ cs',
          rw (full_test cap c (d ∷ ds) p full, pushed, index) refl,
          behind-IsAppended cap c (d ∷ ds) cs' x p full a,
        )
  ]
