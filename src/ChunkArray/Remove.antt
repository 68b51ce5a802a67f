-- ===== src/ChunkArray/Remove.antt =====
-- `chunk_array_remove`.
use redlib.Prelude.{
  ℕ, zero, suc, ◌+◌, ◌-◌, ◌%◌, ◌^◌, sub64, ◌≤◌, ◌<◌, ◌≡◌, refl, ◌∙◌, sym, ap, ◌⊎◌, inl, inr, List,
  [], ◌∷◌, ◌++◌, min, arith, true, false, length, take, take-nil, ℕ_discrete, ◌==◌, length-take,
}
use native.Mathlib.Decide.{dec_le}
use mathlib.Core.Path.{subst}
use redlib.ChunkArray.Push.{append-nil}
use redlib.ChunkArray.{Chunk, remove, min_int, sub32, sign_turned, int_to_size}
use redlib.ChunkArray.Packed.{items, Packed, length-items}

module _ {ℓ} {A : Type ℓ} where
  take_all : (xs : List A) (n : ℕ) → length xs ≤ n → take n xs ≡ xs
  take_all [] zero h = refl
  take_all [] (suc n) h = refl
  take_all (x ∷ xs) zero h = absurd (omega arith)
  take_all (x ∷ xs) (suc n) h = ap (◌∷◌ x) (take_all xs n (omega arith))

  take-within : (xs ys : List A) (n : ℕ) → n ≤ length xs → take n (xs ++ ys) ≡ take n xs
  take-within [] ys zero h = refl
  take-within [] ys (suc n) h = absurd (omega arith)
  take-within (x ∷ xs) ys zero h = refl
  take-within (x ∷ xs) ys (suc n) h = ap (◌∷◌ x) (take-within xs ys n (omega arith))

  -- Items taken across the end of the first chunk, and within it.
  take-beyond : (xs ys : List A) (n k : ℕ) → n ≡ length xs + k → take n (xs ++ ys) ≡ xs ++ take k ys
  take-beyond [] ys n k h = let e : n ≡ k = omega (arith, h) in rw e refl
  take-beyond (x ∷ xs) ys zero k h = absurd (omega arith)
  take-beyond (x ∷ xs) ys (suc n) k h = ap (◌∷◌ x) (take-beyond xs ys n k (omega arith))

  take-take : (xs : List A) (m n : ℕ) → m ≤ n → take m (take n xs) ≡ take m xs
  take-take [] zero n h = refl
  take-take [] (suc m) zero h = refl
  take-take [] (suc m) (suc n) h = refl
  take-take (x ∷ xs) zero n h = refl
  take-take (x ∷ xs) (suc m) zero h = absurd (omega arith)
  take-take (x ∷ xs) (suc m) (suc n) h = ap (◌∷◌ x) (take-take xs m n (omega arith))

  -- What is left of the items `xs` when up to `n` are removed.
  pub record IsShortened (cap : ℕ) (xs : List A) (n : ℕ) (out : ℕ × List (Chunk A)) : Type ℓ where
    pub removed : out.0 ≡ min n (length xs)
    pub left : items out.1 ≡ take (length xs - n) xs
    pub packed : Packed cap out.1

  bare-IsShortened :
      (cap : ℕ) (c : Chunk A) (cs : List (Chunk A)) (n : ℕ)
      → Packed cap (c ∷ cs)
      → 0 < cap
      → c.count ≡ 0
      → IsShortened cap (items (c ∷ cs)) n (0, c ∷ cs)
  bare-IsShortened cap c cs n p pos bare =
      let gone : length (items cs) ≡ 0 = none_behind p.3 in
      let total = length-items cap c cs p.1 p.2 in
      record {
        removed = omega (arith, total, gone, bare);
        left = sym (take_all (items (c ∷ cs)) _ (omega (arith, total, gone, bare)));
        packed = p;
      }
    where
      none_behind : (c.count ≡ cap) ⊎ (items cs ≡ []) → length (items cs) ≡ 0
      none_behind (inl full) = absurd (omega (arith, full, bare, pos))
      none_behind (inr gone) = ap length gone

  -- What the call leaves of a chunk with items, after the call on the next chunks.
  abbrev cut_chunk : Chunk A → ℕ → ℕ × List (Chunk A) → ℕ × List (Chunk A)
  cut_chunk c n r =
      let k = min (n - r.0) c.count in (r.0 + k, record c { count = c.count - k } ∷ r.1)

  cut-IsShortened :
      (cap : ℕ) (c : Chunk A) (cs : List (Chunk A)) (n : ℕ) (r : ℕ × List (Chunk A))
      → Packed cap (c ∷ cs)
      → IsShortened cap (items cs) n r
      → IsShortened cap (items (c ∷ cs)) n (cut_chunk c n r)
  cut-IsShortened cap c cs n r (sized, room, fits, full, rest) ih =
      elim (dec_le n (length (items cs))) [
        | yes behind ↦
            let none_here : c.count - min (n - r.0) c.count ≡ c.count =
              omega (arith, ih.removed, behind) in
            record {
              removed = omega (arith, ih.removed, total);
              left = rw none_here (
                  ap (λ ys. take c.count c.slots ++ ys) ih.left
                  ∙ sym (
                      take-beyond (take c.count c.slots) (items cs) _ _
                        (omega (arith, total, first, behind))));
              packed = rw none_here (sized, room, fits, still_full full, ih.packed);
            }
        | no across ↦
            let spent : length (items cs) - n ≡ 0 = omega (arith, across) in
            let gone : items r.1 ≡ [] = ih.left ∙ ap (λ m. take m (items cs)) spent in
            let j : c.count - min (n - r.0) c.count ≡ length (items (c ∷ cs)) - n =
              omega (arith, total, ih.removed, across) in
            record {
              removed = omega (arith, ih.removed, total);
              left =
                  ap (λ ys. take (c.count - min (n - r.0) c.count) c.slots ++ ys) gone
                  ∙ append-nil _
                  ∙ ap (λ m. take m c.slots) j
                  ∙ sym (take-take c.slots _ c.count (omega (arith, total, across)))
                  ∙ sym (
                      take-within (take c.count c.slots) (items cs) _
                        (omega (arith, total, first, across)));
              packed = (sized, room, omega (arith, fits), inr gone, ih.packed);
            }
      ]
    where
      total : length (items (c ∷ cs)) ≡ c.count + length (items cs)
      total = length-items cap c cs room fits

      first : length (take c.count c.slots) ≡ c.count
      first = omega (arith, length-take c.count c.slots, room, fits)

      still_full : (c.count ≡ cap) ⊎ (items cs ≡ []) → (c.count ≡ cap) ⊎ (items r.1 ≡ [])
      still_full (inl e) = inl e
      still_full (inr gone) = inr (ih.left ∙ ap (take _) gone ∙ take-nil _)

  -- Where the counts fit an `int`, the narrowing changes nothing.
  narrow_lem :
      (c : Chunk A) (n : ℕ) (r : ℕ × List (Chunk A))
      → r.0 ≤ n
      → n < 2 ^ 31
      → c.count < 2 ^ 31
      → (
        (r.0 + min_int (sub32 n r.0) (c.count % 2 ^ 32)) % 2 ^ 32,
        record c { count = sub64 c.count (int_to_size (min_int (sub32 n r.0) (c.count % 2 ^ 32))) }
            ∷ r.1,
      )
        ≡ cut_chunk c n r
  unfolding min_int
  narrow_lem c n r below small fits =
      let k : min_int (sub32 n r.0) (c.count % 2 ^ 32) ≡ min (n - r.0) c.count = least in
      let sum : (r.0 + min (n - r.0) c.count) % 2 ^ 32 ≡ r.0 + min (n - r.0) c.count =
        omega (arith, below, small) in
      let size : int_to_size (min (n - r.0) c.count) ≡ min (n - r.0) c.count =
        ground (arith, fits) in
      let rest : sub64 c.count (min (n - r.0) c.count) ≡ c.count - min (n - r.0) c.count =
        omega (arith, fits) in
      simp (k, sum, size, rest) refl
    where
      left : sub32 n r.0 ≡ n - r.0
      left = omega (arith, below, small)

      held : c.count % 2 ^ 32 ≡ c.count
      held = omega (arith, fits)

      turned : (a : ℕ) → a < 2 ^ 31 → sign_turned a ≡ a + 2 ^ 31
      turned a h = omega (arith, h)

      least : min_int (sub32 n r.0) (c.count % 2 ^ 32) ≡ min (n - r.0) c.count
      least =
          rw (left, held, turned (n - r.0) (omega (arith, small)), turned c.count fits)
            (ground arith)

  -- From packed chunks of at least one slot each and fewer than 2 ^ 31 `chunk_array_remove` takes the given
  -- number of items, an `int` from 0 up, off the end, or all if there are fewer, answers how many, and
  -- leaves packed chunks.
  pub remove-IsShortened :
      (cap : ℕ) (cs : List (Chunk A)) (n : ℕ)
      → Packed cap cs
      → 0 < cap
      → cap < 2 ^ 31
      → n < 2 ^ 31
      → IsShortened cap (items cs) n (remove cs n)
  unfolding remove
  remove-IsShortened cap [] n p pos word small = record {
    removed = omega arith;
    left = sym (take-nil (0 - n));
    packed = tt;
  }
  remove-IsShortened cap (c ∷ cs) n p pos word small = elim (ℕ_discrete c.count 0) [
    | yes bare ↦
        let test : (c.count == 0) ≡ true = ground (arith, bare) in
        subst (IsShortened cap (items (c ∷ cs)) n) (sym (kept cs test))
          (bare-IsShortened cap c cs n p pos bare)
    | no stocked ↦
        let test : (c.count == 0) ≡ false = ground (arith, stocked) in
        let ih = remove-IsShortened cap cs n p.4 pos word small in
        subst (IsShortened cap (items (c ∷ cs)) n) (sym (cut test (omega (arith, ih.removed))))
          (cut-IsShortened cap c cs n (remove cs n) p ih)
  ]
    where
      kept : (cs : List (Chunk A)) → (c.count == 0) ≡ true → remove (c ∷ cs) n ≡ (0, c ∷ cs)
      kept cs test = rw (remove, test) refl

      cut :
          (c.count == 0) ≡ false
          → (remove cs n).0 ≤ n
          → remove (c ∷ cs) n ≡ cut_chunk c n (remove cs n)
      cut test below =
          rw (remove, test) (narrow_lem c n (remove cs n) below small (omega (arith, p.2, word)))
