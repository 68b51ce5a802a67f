-- ===== src/Ring/PopBuf.antt =====
-- `pop_buf`: a block is taken out by at most two copies.
use mathlib.Core.Path.{ap₂, subst}
use redlib.Prelude.{
  ℕ, ◌+◌, ◌-◌, ◌%◌, ◌≤◌, ◌<◌, min, ◌≡◌, refl, sym, ◌⊎◌, inl, inr, true, false, List, [], ◌++◌,
  arith, length, take, drop, ltb, ◌==◌, ◌||◌, if◌then◌else◌, u64_mod, add64, sub64, mod-cases,
  length-drop, drop-drop, take-add, Bool-cases,
}
use redlib.Window.{take-Window}
use redlib.Ring.{Ring, used_run, read_run, read_two, pop_buf}
use redlib.Ring.Models.{Counts, Models, size-Counts}
use redlib.Fifo
use redlib.Ring.Run.{Run, start, read_run-Run, open-Models}

module _ {ℓ} {A : Type ℓ} where
  -- The first copy stays inside the array, and it is the whole block or ends at the array's end.
  used_split :
      (r : Ring A) (n to : ℕ)
      → Counts r n
      → 0 < n
      → to ≤ n
      → let first = if ltb to (used_run r) then to else used_run r in
        (first ≤ to)
        × (r.tail + first ≤ r.capacity)
        × ((first ≡ to) ⊎ (r.tail + first ≡ r.capacity))
  unfolding used_run
  used_split r n to c pos h =
      ground (arith, mod-cases (r.tail + n) r.capacity (omega (arith, c.tail_in)))

  -- After a first copy that ends at the end of the array, the tail is at the start.
  tail_wrapped :
      (r : Ring A) (k : ℕ)
      → 0 < r.capacity
      → r.capacity < u64_mod
      → r.tail + k ≡ r.capacity
      → (read_run r k).tail ≡ 0
  unfolding read_run
  tail_wrapped r k pos small e = omega (arith, mod-cases (add64 r.tail k) r.capacity (omega arith))

  -- What is left is a ring that holds `q`, and `out` was copied out.
  record Drained (res : List A × Ring A) (out q : List A) : Type ℓ where
    copied : res.0 ≡ out
    left : Models res.1 q

  one-Drained :
      (r : Ring A) (q : List A) (to : ℕ)
      → Models r q
      → 0 < to
      → to ≤ length q
      → r.tail + to ≤ r.capacity
      → Drained (take to (drop r.tail r.buffer), read_run r to) (take to q) (drop to q)
  unfolding read_run
  one-Drained r q to m pos enough room = record {
    copied = take-Window r.buffer r.capacity r.tail q to m.window enough room;
    left =
        open-Models _ _ (read_run-Run r q to (start r q m) enough room) refl
          (rw length-drop (omega (arith, m.counts.fits)));
  }

  two-Drained :
      (r : Ring A) (q : List A) (first rem : ℕ)
      → Models r q
      → 0 < rem
      → first + rem ≤ length q
      → r.tail + first ≡ r.capacity
      → let r' = read_run r first in
        Drained
          (
            take first (drop r.tail r.buffer) ++ take rem (drop r'.tail r'.buffer),
            record r' { tail = add64 r'.tail rem % r'.capacity },
          )
          (take (first + rem) q)
          (drop (first + rem) q)
  two-Drained r q first rem m pos enough ends = record {
    copied = rw (take-add first rem q) (
        ap₂ ◌++◌
          (take-Window r.buffer r.capacity r.tail q first m.window (omega arith) (omega arith))
          (take-Window r'.buffer r'.capacity r'.tail (drop first q) rem once.held fits room));
    left =
        open-Models _ _
          (rw (← drop-drop first rem q)
            (unfold read_run in read_run-Run r' (drop first q) rem once fits room))
          (unfold read_run in refl)
          (rw length-drop (unfold read_run in omega (arith, m.counts.fits)));
  }
    where
      r' : Ring A
      r' = read_run r first

      once : Run r' (drop first q)
      once = read_run-Run r q first (start r q m) (omega arith) (omega arith)

      fits : rem ≤ length (drop first q)
      fits = rw length-drop (omega arith)

      room : r'.tail + rem ≤ r'.capacity
      room =
          rw (tail_wrapped r first (omega (arith, m.counts.tail_in)) m.counts.small ends)
            (unfold read_run in omega (arith, m.counts.fits))

  read_two-Drained :
      (r : Ring A) (q : List A) (first to : ℕ)
      → Models r q
      → 0 < to
      → to ≤ length q
      → first ≤ to
      → r.tail + first ≤ r.capacity
      → (first ≡ to) ⊎ (r.tail + first ≡ r.capacity)
      → Drained (read_two r first to) (take to q) (drop to q)
  unfolding read_two
  read_two-Drained r q first to m pos enough part room ends =
      elim (Bool-cases (sub64 to first == 0)) [
        | inl e ↦
            let same : first ≡ to = ground (arith, m.counts.small) in
            rw (e, same) (one-Drained r q to m pos enough (omega arith))
        | inr e ↦
            let rest : sub64 to first ≡ to - first = omega (arith, m.counts.small) in
            let sum : to ≡ first + (to - first) = omega arith in
            let left : 0 < to - first = ground (arith, m.counts.small) in
            rw (e, rest)
              (subst
                (λ t.
                  let r' = read_run r first in
                  Drained
                    (
                      take first (drop r.tail r.buffer)
                          ++ take (to - first) (drop r'.tail r'.buffer),
                      record r' { tail = add64 r'.tail (to - first) % r'.capacity },
                    )
                    (take t q) (drop t q))
                (sym sum) (two-Drained r q first (to - first) m left (omega arith) (ground arith)))
      ]

  pop_buf-some :
      (r : Ring A) (q : List A) (n : ℕ)
      → Models r q
      → 0 < length q
      → 0 < n
      → let to = if ltb n (length q) then n else length q in
        let first = if ltb to (used_run r) then to else used_run r in
        pop_buf r n ≡ (to, (read_two r first to).0, (read_two r first to).1)
  unfolding pop_buf
  pop_buf-some r q n m some_held pos =
      let asked : (n == 0) ≡ false = ground arith in
      let held : (length q == 0) ≡ false = ground arith in
      rw (size-Counts r (length q) m.counts, asked, held)

  pop_buf-none :
      (r : Ring A) (q : List A) (n : ℕ)
      → Models r q
      → (n == 0 || length q == 0) ≡ true
      → pop_buf r n ≡ (0, [], r)
  unfolding pop_buf
  pop_buf-none r q n m e = rw (size-Counts r (length q) m.counts) (ground (arith, e))

  -- On a ring that stands for a queue `pop_buf` hands out as many of the oldest elements as are asked
  -- for and held, in order, returns how many, and the ring then stands for the rest.
  pub pop_buf_refines :
      (r : Ring A) (q : List A) (n : ℕ)
      → Models r q
      → ((pop_buf r n).0 ≡ (Fifo.pop_some q n).0)
        × ((pop_buf r n).1 ≡ (Fifo.pop_some q n).1)
        × Models (pop_buf r n).2 (Fifo.pop_some q n).2
  unfolding Fifo.pop_some
  pop_buf_refines r q n m = elim (Bool-cases (n == 0 || length q == 0)) [
    | inl e ↦ rw (pop_buf-none r q n m e, nothing e) (refl, refl, m)
    | inr e ↦
        rw (pop_buf-some r q n m (ground (arith, e)) (ground (arith, e)), least)
          (refl, (block e).copied, (block e).left)
  ]
    where
      nothing : (n == 0 || length q == 0) ≡ true → min n (length q) ≡ 0
      nothing e = ground (arith, e)

      least : (if ltb n (length q) then n else length q) ≡ min n (length q)
      least = ground arith

      block :
          (n == 0 || length q == 0) ≡ false
          → let to = min n (length q) in
            Drained
              (read_two r (if ltb to (used_run r) then to else used_run r) to)
              (take to q)
              (drop to q)
      block e =
          let to = min n (length q) in
          let pos : 0 < to = ground (arith, e) in
          let (part, inside, ends) =
            used_split r (length q) to m.counts (ground (arith, e)) (omega arith) in
          read_two-Drained r q _ to m pos (omega arith) part inside ends
