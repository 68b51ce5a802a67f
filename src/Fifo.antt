-- ===== src/Fifo.antt =====
-- What the circular buffers and the queue promise: a first-in first-out queue with a limit.
-- The results are the `int32_t` ones of the code: 1 if the call did something, 0 if not.
use redlib.Prelude.{
  ℕ, ◌-◌, List, [], ◌∷◌, ◌++◌, Option, none, some, length, take, drop, if◌then◌else◌, ltb, min,
}

pub data Op {ℓ} (A : Type ℓ) : Type ℓ where
  put : A → Op A
  put_all : List A → Op A
  get : Op A
  get_some : ℕ → Op A
  reset : Op A

module _ {ℓ} {A : Type ℓ} where
  unfoldable pub push : ℕ → List A → A → ℕ × List A
  push limit q x = if ltb (length q) limit then (1, q ++ x ∷ []) else (0, q)

  unfoldable pub pop : List A → ℕ × Option A × List A
  pop [] = (0, none, [])
  pop (x ∷ q) = (1, some x, q)

  -- As much of a block as fits is taken, in order.
  unfoldable pub push_all : ℕ → List A → List A → ℕ × List A
  push_all limit q xs = let k = min (length xs) (limit - length q) in (k, q ++ take k xs)

  unfoldable pub pop_some : List A → ℕ → ℕ × List A × List A
  pop_some q n = let k = min n (length q) in (k, take k q, drop k q)

  -- A client's calls in order, with what each returns: the result and the elements handed out.
  unfoldable pub run : ℕ → List A → List (Op A) → List (ℕ × List A)
  run limit q [] = []
  run limit q (put x ∷ ops) = let (k, q') = push limit q x in (k, []) ∷ run limit q' ops
  run limit q (put_all xs ∷ ops) = let (k, q') = push_all limit q xs in (k, []) ∷ run limit q' ops
  run limit q (get ∷ ops) =
      let (k, out, q') = pop q in (k, elim out [ none ↦ [] | some x ↦ x ∷ [] ]) ∷ run limit q' ops
  run limit q (get_some n ∷ ops) = let (k, out, q') = pop_some q n in (k, out) ∷ run limit q' ops
  run limit q (reset ∷ ops) = (0, []) ∷ run limit [] ops
