-- ===== src/Ring/PushBuf.antt =====
-- `push_buf`: a block is put in by at most two copies.
use mathlib.Core.Path.{subst}
use mathlib.Core.List.{append_assoc, append-nil}
use redlib.Prelude.{
  ℕ, ◌+◌, ◌-◌, ◌≤◌, ◌<◌, min, ◌≡◌, refl, sym, ◌⊎◌, inl, inr, true, false, List, ◌++◌, arith, length,
  take, drop, ltb, ◌==◌, ◌||◌, leb, if◌then◌else◌, u64_mod, add64, sub64, mod-cases, length-append,
  length-take, length-drop, take-add, Bool-cases,
}
use redlib.Ring.{Ring, free_run, write_run, write_two, push_buf}
use redlib.Ring.Models.{Counts, Models, size-Counts}
use redlib.Fifo
use redlib.Ring.Run.{Run, start, write_run-Run, capacity-write_run, closed-Models}

module _ {ℓ} {A : Type ℓ} where
  -- The first copy fits behind the head, and it is the whole block or ends at the end of the array.
  free_split :
      (r : Ring A) (n to : ℕ)
      → Counts r n
      → n < r.capacity
      → n + to ≤ r.capacity
      → let first = if ltb to (free_run r) then to else free_run r in
        (first ≤ to)
        × (r.head + first ≤ r.capacity)
        × ((first ≡ to) ⊎ (r.head + first ≡ r.capacity))
  unfolding free_run
  free_split r n to c room h =
      ground (arith, mod-cases (r.tail + n) r.capacity (omega (arith, c.tail_in)))

  -- After a first copy that ends at the end of the array, the head is at the start.
  head_wrapped :
      (r : Ring A) (ys : List A)
      → 0 < r.capacity
      → r.capacity < u64_mod
      → r.head + length ys ≡ r.capacity
      → (write_run r ys).head ≡ 0
  unfolding write_run
  head_wrapped r ys pos small e =
      omega (arith, mod-cases (add64 r.head (length ys)) r.capacity (omega arith))

  one-Models :
      (r : Ring A) (q src : List A) (to : ℕ)
      → Models r q
      → 0 < to
      → to ≤ length src
      → length q + to ≤ r.capacity
      → r.head + to ≤ r.capacity
      → let r' = write_run r (take to src) in
        Models (record r' { full = r'.head == r'.tail }) (q ++ take to src)
  one-Models r q src to m pos enough fits room =
      closed-Models (write_run r (take to src)) (q ++ take to src)
        (write_run-Run r q (take to src) (start r q m) (rw width room) (rw width fits))
        (rw length-append (omega (arith, width)))
    where
      width : length (take to src) ≡ to
      width = omega (arith, length-take to src)

  two-Models :
      (r : Ring A) (q src : List A) (first rem : ℕ)
      → Models r q
      → 0 < rem
      → first + rem ≤ length src
      → length q + (first + rem) ≤ r.capacity
      → r.head + first ≡ r.capacity
      → let r' = write_run (write_run r (take first src)) (take rem (drop first src)) in
        Models (record r' { full = r'.head == r'.tail }) (q ++ take (first + rem) src)
  two-Models r q src first rem m pos enough fits ends =
      rw (take-add first rem src, ← append_assoc q (take first src) (take rem (drop first src)))
        (closed-Models _ _ second (rw (length-append, width₂) (omega arith)))
    where
      pos-cap : 0 < r.capacity
      pos-cap = omega (arith, m.counts.tail_in)

      width₁ : length (take first src) ≡ first
      width₁ = omega (arith, length-take first src)

      width₂ : length (take rem (drop first src)) ≡ rem
      width₂ = omega (arith, length-take rem (drop first src), length-drop first src)

      at_start : (write_run r (take first src)).head ≡ 0
      at_start = head_wrapped r (take first src) pos-cap m.counts.small (rw width₁ ends)

      once : Run (write_run r (take first src)) (q ++ take first src)
      once =
          write_run-Run r q (take first src) (start r q m) (rw width₁ (omega arith))
            (rw width₁ (omega arith))

      second :
          Run
            (write_run (write_run r (take first src)) (take rem (drop first src)))
            ((q ++ take first src) ++ take rem (drop first src))
      second =
          write_run-Run _ _ (take rem (drop first src)) once
            (rw (at_start, width₂, capacity-write_run) (omega arith))
            (rw (length-append, width₁, width₂, capacity-write_run) (omega arith))

  write_two-Models :
      (r : Ring A) (q src : List A) (first to : ℕ)
      → Models r q
      → 0 < to
      → to ≤ length src
      → length q + to ≤ r.capacity
      → first ≤ to
      → r.head + first ≤ r.capacity
      → (first ≡ to) ⊎ (r.head + first ≡ r.capacity)
      → Models (write_two r src first to) (q ++ take to src)
  unfolding write_two
  write_two-Models r q src first to m pos enough fits part room ends =
      elim (Bool-cases (sub64 to first == 0)) [
        | inl e ↦
            let same : first ≡ to = ground (arith, m.counts.small) in
            rw (e, same) (one-Models r q src to m pos enough fits (omega arith))
        | inr e ↦
            let rest : sub64 to first ≡ to - first = omega (arith, m.counts.small) in
            let sum : to ≡ first + (to - first) = omega arith in
            let left : 0 < to - first = ground (arith, m.counts.small) in
            rw (e, rest)
              (subst
                (λ t.
                  let r' =
                    write_run (write_run r (take first src)) (take (to - first) (drop first src)) in
                  Models (record r' { full = r'.head == r'.tail }) (q ++ take t src))
                (sym sum)
                (two-Models r q src first (to - first) m left (omega arith) (omega arith)
                  (ground arith)))
      ]

  -- How many elements `push_buf` takes when `n` are held.
  taken : Ring A → ℕ → List A → ℕ
  taken r n src = if ltb (length src) (sub64 r.capacity n) then length src else sub64 r.capacity n

  taken-eq-min :
      (r : Ring A) (n : ℕ) (src : List A)
      → Counts r n
      → taken r n src ≡ min (length src) (r.capacity - n)
  unfolding taken
  taken-eq-min r n src c = ground (arith, c.small, c.fits)

  push_buf-some :
      (r : Ring A) (q src : List A)
      → Models r q
      → length q < r.capacity
      → 0 < length src
      → let to = taken r (length q) src in
        let first = if ltb to (free_run r) then to else free_run r in
        push_buf r src ≡ (to, write_two r src first to)
  unfolding push_buf taken
  push_buf-some r q src m room pos =
      let some_asked : (length src == 0) ≡ false = ground arith in
      let some_free : leb r.capacity (length q) ≡ false = ground arith in
      rw (size-Counts r (length q) m.counts, some_asked, some_free)

  push_buf-none :
      (r : Ring A) (q src : List A)
      → Models r q
      → (length src == 0 || leb r.capacity (length q)) ≡ true
      → push_buf r src ≡ (0, r)
  unfolding push_buf
  push_buf-none r q src m e = rw (size-Counts r (length q) m.counts) (ground (arith, e))

  -- On a ring that stands for a queue `push_buf` takes as much of the block as fits, in order, returns
  -- how much that is, and the ring then stands for the longer queue.
  pub push_buf_refines :
      (r : Ring A) (q src : List A)
      → Models r q
      → ((push_buf r src).0 ≡ (Fifo.push_all r.capacity q src).0)
        × Models (push_buf r src).1 (Fifo.push_all r.capacity q src).1
  unfolding Fifo.push_all
  push_buf_refines r q src m = elim (Bool-cases (length src == 0 || leb r.capacity (length q))) [
    | inl e ↦ rw (push_buf-none r q src m e, nothing e) (refl, rw append-nil m)
    | inr e ↦
        rw
          (
            push_buf-some r q src m (ground arith) (ground arith),
            ← taken-eq-min r (length q) src m.counts,
          )
          (refl, block e)
  ]
    where
      nothing :
          (length src == 0 || leb r.capacity (length q)) ≡ true
          → min (length src) (r.capacity - length q) ≡ 0
      nothing e = ground arith

      block :
          (length src == 0 || leb r.capacity (length q)) ≡ false
          → let to = taken r (length q) src in
            Models
              (write_two r src (if ltb to (free_run r) then to else free_run r) to)
              (q ++ take to src)
      block e =
          let to = taken r (length q) src in
          let most : to ≡ min (length src) (r.capacity - length q) =
            taken-eq-min r (length q) src m.counts in
          let pos : 0 < to = ground (arith, e, most) in
          let room : length q < r.capacity = ground (arith, e) in
          let (part, inside, ends) = free_split r (length q) to m.counts room (omega arith) in
          write_two-Models r q src _ to m pos (omega arith) (omega arith) part inside ends
