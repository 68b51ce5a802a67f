-- ===== src/Queue/Grow.antt =====
-- The growth of a full queue: the copied elements stand in order from index 0.
use mathlib.Core.Path.{ap}
use redlib.Prelude.{
  ℕ, zero, suc, ◌+◌, ◌*◌, ◌%◌, ◌≤◌, ◌<◌, ◌≡◌, refl, ◌∙◌, sym, List, [], ◌∷◌, Option, none, some,
  arith, length, get_elem?, drop, blit, u64_mod, add64, mul64, length-blit, get_elem?-blit_inside,
  get_elem?-some, set, mod-cases, ◌⊎◌, inl, inr,
}
use redlib.Window.{Window}
use redlib.Queue.{Queue, copy_slot, copy_slots, moved, grown_capacity, grow}
use redlib.Queue.Models.{Holds}

module _ {ℓ} {A : Type ℓ} where
  drop-get_elem? :
      (xs : List A) (i : ℕ) (x : A) → get_elem? xs i ≡ some x → drop i xs ≡ x ∷ drop (i + 1) xs
  drop-get_elem? [] i x e = absurd (cc e)
  drop-get_elem? (y ∷ xs) zero x e = ap (λ z. z ∷ xs) (cc e)
  drop-get_elem? (y ∷ xs) (suc i) x e =
      let next : suc i + 1 ≡ suc (i + 1) = omega arith in rw next (drop-get_elem? xs i x e)

  drop-length : (xs : List A) → drop (length xs) xs ≡ []
  drop-length [] = refl
  drop-length (x ∷ xs) = drop-length xs

  -- The copying loop is one block copy of the elements that are left, in order.
  copy_slots-blit :
      (n i : ℕ) (q : Queue A) (old newb xs : List A)
      → Window old q.capacity q.tail xs
      → q.capacity + q.capacity ≤ u64_mod
      → i + n ≡ length xs
      → copy_slots n i q old newb ≡ blit newb i (drop i xs)
  unfolding copy_slots copy_slot blit
  copy_slots-blit zero i q old newb xs w small e =
      let all : i ≡ length xs = omega arith in rw (all, drop-length)
  copy_slots-blit (suc n) i q old newb xs w small e =
      let (x, at) = get_elem?-some xs i (omega arith) in
      rw (no_wrap, w.cells i (omega arith), at, drop-get_elem? xs i x at)
        (copy_slots-blit n (i + 1) q old (set newb i x) xs w small (omega arith))
    where
      no_wrap : add64 q.tail i ≡ q.tail + i
      no_wrap = omega (arith, w.tail_in, w.fits)

  -- A block that starts with `xs` is a window at index 0.
  blit_zero-Window :
      (newb xs : List A) (cap : ℕ)
      → length xs < cap
      → cap ≤ length newb
      → Window (blit newb 0 xs) cap 0 xs
  blit_zero-Window newb xs cap h room = record {
    storage = rw length-blit room;
    tail_in = omega arith;
    fits = omega arith;
    cells = λ i hi. cell i hi (omega (arith, mod-cases (0 + i) cap (omega arith)));
  }
    where
      cell :
          (i : ℕ)
          → i < length xs
          → (0 + i) % cap ≡ 0 + i
          → get_elem? (blit newb 0 xs) ((0 + i) % cap) ≡ get_elem? xs i
      cell i hi e = rw e (get_elem?-blit_inside newb 0 xs i hi (omega arith))

  -- What the allocator must answer for the growth: a block of as many slots as were asked for.
  abbrev pub Grants : (ℕ → Option (List A)) → ℕ → ℕ → Type ℓ
  Grants alloc elem_size n = (b : List A) × (alloc (mul64 n elem_size) ≡ some b) × (n ≤ length b)

  pub grown : Queue A → List A → Queue A
  grown q b = record q {
    buffer = some b;
    capacity = grown_capacity q.capacity;
    head = q.length;
    tail = 0;
  }

  pub grow-grown :
      (alloc : ℕ → Option (List A)) (q : Queue A) (newb : List A)
      → alloc (mul64 (grown_capacity q.capacity) q.elem_size) ≡ some newb
      → grow alloc q ≡ some (grown q (moved q q.buffer newb))
  unfolding grow grown
  grow-grown alloc q newb e = rw (e, grow)

  pub grow-none :
      (alloc : ℕ → Option (List A)) (q : Queue A)
      → alloc (mul64 (grown_capacity q.capacity) q.elem_size) ≡ none
      → grow alloc q ≡ none
  unfolding grow
  grow-none alloc q e = rw (e, grow)

  -- A queue without limit before its first growth.
  pub record IsUnstored (q : Queue A) : Type ℓ where
    pub buffer_is : q.buffer ≡ none
    pub capacity_is : q.capacity ≡ 0
    pub length_is : q.length ≡ 0

  -- The queue stands for `xs`, in a block or before it has one.
  abbrev pub Stands : Queue A → List A → Type ℓ
  Stands q xs = ((b : List A) × Holds q b xs) ⊎ (IsUnstored q × (xs ≡ []))

  pub moved-blit :
      (q : Queue A) (newb xs : List A)
      → Stands q xs
      → q.capacity + q.capacity ≤ u64_mod
      → moved q q.buffer newb ≡ blit newb 0 xs
  unfolding moved blit
  moved-blit q newb xs (inl (old, h)) small =
      ap (λ o. moved q o newb) h.buffer_is
      ∙ ap (λ n. copy_slots n 0 q old newb) h.length_is
      ∙ copy_slots-blit (length xs) 0 q old newb xs h.window small (omega arith)
  moved-blit q newb xs (inr (u, e)) small = ap (λ o. moved q o newb) u.buffer_is ∙ rw e refl

  pub length-Stands : (q : Queue A) (xs : List A) → Stands q xs → q.length ≡ length xs
  length-Stands q xs (inl (old, h)) = h.length_is
  length-Stands q xs (inr (u, e)) = u.length_is ∙ sym (ap length e)

  -- After the growth the queue holds the same list, in the larger block.
  pub grown-Holds :
      (q : Queue A) (newb xs : List A)
      → Stands q xs
      → length xs ≡ q.capacity
      → 2 * q.capacity < u64_mod
      → grown_capacity q.capacity ≤ length newb
      → Holds (grown q (moved q q.buffer newb)) (blit newb 0 xs) xs
        × (length xs < (grown q (moved q q.buffer newb)).capacity)
  unfolding grown grown_capacity
  grown-Holds q newb xs st full small room = (
    record {
      buffer_is = ap some (moved-blit q newb xs st (omega arith));
      window = blit_zero-Window newb xs _ more room;
      small = ground arith;
      head_at = ground (
        arith,
        length-Stands q xs st,
        more,
        mod-cases (length xs) (grown_capacity q.capacity) (omega (arith, more)),
      );
      length_is = length-Stands q xs st;
    },
    more,
  )
    where
      more : length xs < grown_capacity q.capacity
      more = ground (arith, full, small)
