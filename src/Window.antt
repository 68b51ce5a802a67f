-- ===== src/Window.antt =====
-- The part of a circular array that `CRingBuffer`, `RingBuffer` and `CQueue` share: the elements
-- from a tail index on, going round at the capacity. An element of the list is one slot of
-- `elem_size` bytes, which the code moves whole by `memcpy`.
use mathlib.Core.Path.{ap}
use native.Mathlib.Nat.{mod-add-mod, mod-eq_of_lt, add_assoc}
use redlib.Prelude.{
  ℕ, suc, ◌+◌, ◌-◌, ◌%◌, ◌≤◌, ◌<◌, ◌≡◌, ◌∙◌, List, ◌∷◌, ◌++◌, some, arith, dec_lt, length,
  get_elem?, take, drop, blit, ltb, mod-cases, length-append, length-drop, length-blit,
  get_elem?-append_left, get_elem?-append_right, get_elem?-take, get_elem?-drop, get_elem?-ext,
  get_elem?-blit_before, get_elem?-blit_after, get_elem?-blit_inside, ◌⊎◌, inl, inr, sym, suc, ◌∷◌,
  some, u64_mod, add64, ◌==◌, Bool-cases, ltb→lt,
}

-- A slot of a window is not in the block behind it.
index_apart :
    (cap tail n m i : ℕ)
    → tail < cap
    → n + m ≤ cap
    → i < n
    → ((tail + i) % cap < (tail + n) % cap) ⊎ ((tail + n) % cap + m ≤ (tail + i) % cap)
index_apart cap tail n m i ht fits h = elim (dec_lt ((tail + i) % cap) ((tail + n) % cap)) [
  | yes p ↦ inl p
  | no p ↦ inr (
      omega (arith, mod-cases (tail + i) cap (omega arith), mod-cases (tail + n) cap (omega arith)))
]

-- The block behind a window is not broken by the end of the array.
index_inside :
    (cap tail n m k : ℕ)
    → tail < cap
    → n + m ≤ cap
    → (tail + n) % cap + m ≤ cap
    → k < m
    → (tail + (n + k)) % cap ≡ (tail + n) % cap + k
index_inside cap tail n m k ht fits room h =
    omega
      (arith, mod-cases (tail + (n + k)) cap (omega arith), mod-cases (tail + n) cap (omega arith))

-- `head = (head + k) % capacity` after a block of `k` was copied in behind `n` elements.
pub advance_head :
    (cap tail n k head : ℕ)
    → head ≡ (tail + n) % cap
    → head + k ≤ cap
    → cap < u64_mod
    → add64 head k % cap ≡ (tail + (n + k)) % cap
advance_head cap tail n k head at room small =
    let e : add64 head k ≡ head + k = omega arith in rw (e, at, mod-add-mod, add_assoc tail n k)

-- `tail = (tail + k) % capacity` after a block of `k` was copied out.
pub advance_tail :
    (cap tail k : ℕ) → tail + k ≤ cap → cap < u64_mod → add64 tail k % cap ≡ (tail + k) % cap
advance_tail cap tail k room small = ap (λ (t : ℕ). t % cap) (omega arith)

-- The head stays where it is when the tail moves over `k` of `k + m` elements.
pub shorten : (cap tail k m : ℕ) → (tail + (k + m)) % cap ≡ ((tail + k) % cap + m) % cap
shorten cap tail k m = rw (mod-add-mod, add_assoc tail k m)

-- The same for one element that was taken out.
pub shorten_one :
    (cap tail n head : ℕ)
    → head ≡ (tail + suc n) % cap
    → tail < cap
    → cap < u64_mod
    → head ≡ (add64 tail 1 % cap + n) % cap
shorten_one cap tail n head at ht small =
    rw (advance_tail cap tail 1 (omega arith) small)
      (at ∙ ap (λ (t : ℕ). (tail + t) % cap) (omega arith) ∙ shorten cap tail 1 n)

-- `head == tail` means full, once something was put in.
pub full_test :
    (cap tail n : ℕ) → tail < cap → 0 < n → n ≤ cap → ((tail + n) % cap == tail) ≡ (n == cap)
full_test cap tail n ht hn h = ground (arith, mod-cases (tail + n) cap (omega arith))

module _ {ℓ} {A : Type ℓ} where
  -- The slots from `tail` on hold the queue `q`, oldest first.
  pub record Window (buf : List A) (cap tail : ℕ) (q : List A) : Type ℓ where
    pub storage : cap ≤ length buf
    pub tail_in : tail < cap
    pub fits : length q ≤ cap
    pub cells : (i : ℕ) → i < length q → get_elem? buf ((tail + i) % cap) ≡ get_elem? q i

  -- A block that is copied in just behind a window extends it.
  pub blit-Window :
      (buf : List A) (cap tail : ℕ) (q ys : List A) (head : ℕ)
      → Window buf cap tail q
      → head ≡ (tail + length q) % cap
      → head + length ys ≤ cap
      → length q + length ys ≤ cap
      → Window (blit buf head ys) cap tail (q ++ ys)
  blit-Window buf cap tail q ys head w at room fits = record {
    storage = rw length-blit w.storage;
    tail_in = w.tail_in;
    fits = rw length-append fits;
    cells = λ i h. elim (dec_lt i (length q)) [
      | yes old ↦ old_cell i old
      | no new ↦
          let e : i ≡ length q + (i - length q) = omega arith in
          new_cell i (i - length q) e (omega (arith, rw length-append at h))
    ];
  }
    where
      tail_in : tail < cap
      tail_in = w.tail_in

      old_cell :
          (i : ℕ)
          → i < length q
          → get_elem? (blit buf head ys) ((tail + i) % cap) ≡ get_elem? (q ++ ys) i
      old_cell i h =
          elim (index_apart cap tail (length q) (length ys) i tail_in fits h) [
            | inl before ↦ get_elem?-blit_before buf head ys _ (rw at before)
            | inr after ↦ get_elem?-blit_after buf head ys _ (rw at after)
          ]
          ∙ w.cells i h
          ∙ sym (get_elem?-append_left q ys i h)

      new_cell :
          (i k : ℕ)
          → i ≡ length q + k
          → k < length ys
          → get_elem? (blit buf head ys) ((tail + i) % cap) ≡ get_elem? (q ++ ys) i
      new_cell i k e h =
          let room' : (tail + length q) % cap + length ys ≤ cap = rw at at room in
          rw (e, index_inside cap tail (length q) (length ys) k tail_in fits room' h, ← at)
            (get_elem?-blit_inside buf head ys k h (omega (arith, w.storage))
              ∙ sym (get_elem?-append_right q ys k))

  -- Dropping the oldest `k` elements moves the tail.
  pub drop-Window :
      (buf : List A) (cap tail : ℕ) (q : List A) (k : ℕ)
      → Window buf cap tail q
      → k ≤ length q
      → Window buf cap ((tail + k) % cap) (drop k q)
  drop-Window buf cap tail q k w h = record {
    storage = w.storage;
    tail_in = omega (arith, w.tail_in);
    fits = rw length-drop (omega (arith, w.fits));
    cells = λ i hi.
        rw (mod-add-mod, get_elem?-drop k q i)
          (ap (λ j. get_elem? buf (j % cap)) (add_assoc tail k i)
            ∙ w.cells (k + i) (omega (arith, rw length-drop at hi)));
  }

  -- A block that is copied out from the tail on is the front of the queue.
  pub take-Window :
      (buf : List A) (cap tail : ℕ) (q : List A) (k : ℕ)
      → Window buf cap tail q
      → k ≤ length q
      → tail + k ≤ cap
      → take k (drop tail buf) ≡ take k q
  take-Window buf cap tail q k w h room = get_elem?-ext _ _ cell
    where
      inside : (i : ℕ) → i < k → get_elem? buf (tail + i) ≡ get_elem? q i
      inside i p = ap (get_elem? buf) (sym (mod-eq_of_lt (omega arith))) ∙ w.cells i (omega arith)

      cell : (i : ℕ) → get_elem? (take k (drop tail buf)) i ≡ get_elem? (take k q) i
      cell i =
          rw (get_elem?-take, get_elem?-take k q i, get_elem?-drop)
            (elim (Bool-cases (ltb i k)) [ inl e ↦ rw e (inside i (ltb→lt i k e)) | inr e ↦ rw e ])

  -- The slot at the tail holds the oldest element.
  pub oldest :
      (buf : List A) (cap tail : ℕ) (x : A) (xs : List A)
      → Window buf cap tail (x ∷ xs)
      → get_elem? buf tail ≡ some x
  oldest buf cap tail x xs w = ap (get_elem? buf) at_tail ∙ w.cells 0 (omega arith)
    where
      at_tail : tail ≡ (tail + 0) % cap
      at_tail = omega (arith, mod-cases (tail + 0) cap (omega (arith, w.tail_in)), w.tail_in)

  -- The window behind the oldest element.
  pub younger-Window :
      (buf : List A) (cap tail : ℕ) (x : A) (xs : List A)
      → Window buf cap tail (x ∷ xs)
      → cap < u64_mod
      → Window buf cap (add64 tail 1 % cap) xs
  younger-Window buf cap tail x xs w small =
      rw (advance_tail cap tail 1 (omega (arith, w.tail_in)) small)
        (drop-Window buf cap tail (x ∷ xs) 1 w (omega arith))
