-- ===== src/Ring/Calls.antt =====
-- A client's calls: no sequence of them tells a ring from the queue that it stands for.
use redlib.Prelude.{ℕ, ◌≡◌, refl, List, [], ◌∷◌, none, some, arith}
use redlib.Ring.{Ring, push, pop, clear, push_buf, pop_buf}
use redlib.Ring.Models.{Models, push_refines, pop_refines, clear-Models}
use redlib.Ring.PushBuf.{push_buf_refines}
use redlib.Ring.PopBuf.{pop_buf_refines}
use redlib.Fifo
use redlib.Fifo.{Op, put, put_all, get, get_some, reset}

module _ {ℓ} {A : Type ℓ} where
  unfoldable pub run : Ring A → List (Op A) → List (ℕ × List A)
  run r [] = []
  run r (put x ∷ ops) = let (k, r') = push r x in (k, []) ∷ run r' ops
  run r (put_all xs ∷ ops) = let (k, r') = push_buf r xs in (k, []) ∷ run r' ops
  run r (get ∷ ops) =
      let (k, out, r') = pop r in (k, elim out [ none ↦ [] | some x ↦ x ∷ [] ]) ∷ run r' ops
  run r (get_some n ∷ ops) = let (k, out, r') = pop_buf r n in (k, out) ∷ run r' ops
  run r (reset ∷ ops) = (0, []) ∷ run (clear r) ops

  capacity-push : (r : Ring A) (x : A) → (push r x).1.capacity ≡ r.capacity
  unfolding push
  capacity-push r x = ground arith

  capacity-pop : (r : Ring A) → (pop r).2.capacity ≡ r.capacity
  unfolding pop
  capacity-pop r = ground arith

  capacity-clear : (r : Ring A) → (clear r).capacity ≡ r.capacity
  unfolding clear
  capacity-clear r = refl

  capacity-push_buf : (r : Ring A) (xs : List A) → (push_buf r xs).1.capacity ≡ r.capacity
  unfolding push_buf
  capacity-push_buf r xs = ground arith

  capacity-pop_buf : (r : Ring A) (n : ℕ) → (pop_buf r n).2.capacity ≡ r.capacity
  unfolding pop_buf
  capacity-pop_buf r n = ground arith

  -- If a ring stands for a queue at the start, every call of every sequence of `push`, `pop`,
  -- `push_buf`, `pop_buf` and `clear` returns what the first-in first-out queue of at most `capacity`
  -- elements returns.
  pub run_refines :
      (ops : List (Op A)) (r : Ring A) (q : List A)
      → Models r q
      → run r ops ≡ Fifo.run r.capacity q ops
  unfolding run Fifo.run
  run_refines [] r q m = refl
  run_refines (put x ∷ ops) r q m =
      let (e, m') = push_refines r q x m in rw (run_refines ops _ _ m', e, capacity-push)
  run_refines (put_all xs ∷ ops) r q m =
      let (e, m') = push_buf_refines r q xs m in rw (run_refines ops _ _ m', e, capacity-push_buf)
  run_refines (get ∷ ops) r q m =
      let (e, f, m') = pop_refines r q m in rw (run_refines ops _ _ m', e, f, capacity-pop)
  run_refines (get_some n ∷ ops) r q m =
      let (e, f, m') = pop_buf_refines r q n m in
      rw (run_refines ops _ _ m', e, f, capacity-pop_buf)
  run_refines (reset ∷ ops) r q m = rw (run_refines ops _ _ (clear-Models r q m), capacity-clear)
