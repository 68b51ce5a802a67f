-- ===== src/Queue/Enqueue.antt =====
-- `cqueue_enqueue` on every branch.
use redlib.Prelude.{
  ℕ, ◌*◌, ◌%◌, ◌<◌, ◌≤◌, ◌≡◌, ◌≢◌, refl, ap, inl, inr, List, [], ◌∷◌, ◌++◌, Option, none, some,
  arith, length, set, blit, ltb, ◌==◌, u64_mod, add64, mul64, length-append, Bool-cases, true,
  false, ltb→lt,
}
use redlib.Window.{blit-Window, advance_head}
use redlib.Queue.{Queue, enqueue, grow, grown_capacity, store_at}
use redlib.Queue.Models.{Holds}
use redlib.Queue.Grow.{Stands, Grants, grow-grown, grow-none, grown-Holds, length-Stands}
use redlib.Fifo

module _ {ℓ} {A : Type ℓ} where
  stored : Queue A → List A → A → Queue A
  stored q b item = record q {
    buffer = some (set b q.head item);
    head = add64 q.head 1 % q.capacity;
    length = add64 q.length 1;
  }

  stored-Holds :
      (q : Queue A) (b xs : List A) (x : A)
      → Holds q b xs
      → length xs < q.capacity
      → Holds (stored q b x) (set b q.head x) (xs ++ x ∷ [])
  unfolding stored blit
  stored-Holds q b xs x h room = record {
    buffer_is = refl;
    window =
        blit-Window b q.capacity q.tail xs (x ∷ []) q.head h.window h.head_at
          (omega (arith, h.head_at, h.window.tail_in)) (omega arith);
    small = h.small;
    head_at = rw length-append (
        advance_head q.capacity q.tail (length xs) 1 q.head h.head_at
          (omega (arith, h.head_at, h.window.tail_in)) h.small);
    length_is = rw length-append (omega (arith, h.length_is, h.small));
  }

  store_at-stored :
      (q : Queue A) (b xs : List A) (x : A)
      → Holds q b xs
      → store_at q q.buffer x ≡ (1, stored q b x)
  unfolding store_at stored
  store_at-stored q b xs x h =
      let stocked : (q.capacity == 0) ≡ false = ground (arith, h.window.tail_in) in
      rw (h.buffer_is, store_at, stocked)

  -- A result of `cqueue_enqueue`: the queue stands for `xs`.
  pub record Yields (res : ℕ × Queue A) (flag : ℕ) (xs : List A) : Type ℓ where
    pub flag_is : res.0 ≡ flag
    pub block : List A
    pub holds : Holds res.1 block xs

  -- With a free slot the element is appended, whether the size is fixed or not.
  store-Yields :
      (q : Queue A) (b xs : List A) (x : A)
      → Holds q b xs
      → length xs < q.capacity
      → Yields (store_at q q.buffer x) 1 (xs ++ x ∷ [])
  store-Yields q b xs x h room =
      rw (store_at-stored q b xs x h)
        (record { flag_is = refl; block = _; holds = stored-Holds q b xs x h room })

  module _ (alloc : ℕ → Option (List A)) where
    enqueue-room :
        (q : Queue A) (x : A)
        → (q.elem_size == 0) ≡ false
        → (q.length == q.capacity) ≡ false
        → enqueue alloc q x ≡ store_at q q.buffer x
    unfolding enqueue
    enqueue-room q x e f = rw (e, f)

    enqueue-full_fixed :
        (q : Queue A) (x : A)
        → (q.length == q.capacity) ≡ true
        → ltb 0 q.max_capacity ≡ true
        → enqueue alloc q x ≡ (0, q)
    unfolding enqueue
    enqueue-full_fixed q x e f = ground (arith, e, f)

    -- On a queue of fixed size that holds a list, with elements of a size other than 0,
    -- `cqueue_enqueue` returns and leaves what the queue of at most `capacity` elements does.
    pub enqueue_fixed_refines :
        (q : Queue A) (b xs : List A) (x : A)
        → Holds q b xs
        → q.elem_size ≢ 0
        → q.max_capacity ≢ 0
        → Yields (enqueue alloc q x) (Fifo.push q.capacity xs x).0 (Fifo.push q.capacity xs x).1
    unfolding Fifo.push
    enqueue_fixed_refines q b xs x h sized limited =
        elim (Bool-cases (ltb (length xs) q.capacity)) [
          | inl e ↦
              rw (e, enqueue-room q x (ground (arith, sized)) (ground (arith, e, h.length_is)))
                (store-Yields q b xs x h (ltb→lt _ _ e))
          | inr e ↦
              rw
                (
                  e,
                  enqueue-full_fixed q x (ground (arith, e, h.length_is, h.window.fits))
                      (ground (arith, limited)),
                )
                (record { flag_is = refl; block = b; holds = h })
        ]

    enqueue-grow :
        (q : Queue A) (x : A)
        → (q.elem_size == 0) ≡ false
        → (q.length == q.capacity) ≡ true
        → ltb 0 q.max_capacity ≡ false
        → enqueue alloc q x
          ≡ elim (grow alloc q) [ none ↦ (0, q) | some q' ↦ store_at q' q'.buffer x ]
    unfolding enqueue
    enqueue-grow q x e f g = ground (arith, e, f, g)

    -- A queue without limit whose elements have a size other than 0 takes the element and appends it,
    -- growing if it is full, if twice its capacity is below 2 ^ 64 and the allocator grants a block
    -- that has room for the grown capacity.
    pub enqueue_unlimited_appends :
        (q : Queue A) (xs : List A) (x : A)
        → Stands q xs
        → q.elem_size ≢ 0
        → q.max_capacity ≡ 0
        → 2 * q.capacity < u64_mod
        → Grants alloc q.elem_size (grown_capacity q.capacity)
        → Yields (enqueue alloc q x) 1 (xs ++ x ∷ [])
    enqueue_unlimited_appends q xs x st sized free small (newb, e, room) =
        elim (Bool-cases (q.length == q.capacity)) [
          | inl f ↦
              let full : length xs ≡ q.capacity = ground (arith, f, length-Stands q xs st) in
              let (h, more) = grown-Holds q newb xs st full small room in
              rw (enqueue-grow q x is_sized f is_free, grow-grown alloc q newb e)
                (store-Yields _ _ xs x h more)
          | inr f ↦ rw (enqueue-room q x is_sized f) (with_room f st)
        ]
      where
        is_sized : (q.elem_size == 0) ≡ false
        is_sized = ground (arith, sized)

        is_free : ltb 0 q.max_capacity ≡ false
        is_free = ground (arith, free)

        with_room :
            (q.length == q.capacity) ≡ false
            → Stands q xs
            → Yields (store_at q q.buffer x) 1 (xs ++ x ∷ [])
        with_room f (inl (old, h)) =
            store-Yields q old xs x h (ground (arith, f, h.length_is, h.window.fits))
        with_room f (inr (u, none_held)) = absurd (ground (arith, f, u.length_is, u.capacity_is))

    -- A queue without limit whose elements have a size other than 0 and whose allocator refuses to let it
    -- grow is a queue of at most `capacity` elements, allocated or not: `cqueue_enqueue` returns and
    -- leaves what that one does, and keeps the capacity.
    pub enqueue_refused_refines :
        (q : Queue A) (xs : List A) (x : A)
        → Stands q xs
        → q.elem_size ≢ 0
        → q.max_capacity ≡ 0
        → alloc (mul64 (grown_capacity q.capacity) q.elem_size) ≡ none
        → ((enqueue alloc q x).0 ≡ (Fifo.push q.capacity xs x).0)
          × Stands (enqueue alloc q x).1 (Fifo.push q.capacity xs x).1
          × ((enqueue alloc q x).1.capacity ≡ q.capacity)
    unfolding Fifo.push stored
    enqueue_refused_refines q xs x st sized free none_given =
        elim (Bool-cases (ltb (length xs) q.capacity)) [
          | inl room ↦ with_room st room
          | inr full ↦
              rw
                (
                  full,
                  enqueue-grow q x (ground (arith, sized))
                      (ground (arith, full, length-Stands q xs st, fits st)) (ground (arith, free)),
                  grow-none alloc q none_given,
                )
                (refl, st, refl)
        ]
      where
        fits : Stands q xs → length xs ≤ q.capacity
        fits (inl (b, h)) = h.window.fits
        fits (inr (u, none_held)) = omega (arith, ap length none_held)

        with_room :
            Stands q xs
            → ltb (length xs) q.capacity ≡ true
            → ((enqueue alloc q x).0 ≡ (Fifo.push q.capacity xs x).0)
              × Stands (enqueue alloc q x).1 (Fifo.push q.capacity xs x).1
              × ((enqueue alloc q x).1.capacity ≡ q.capacity)
        with_room (inr (u, none_held)) room = absurd (ground (arith, room, u.capacity_is))
        with_room (inl (b, h)) room =
            rw
              (
                room,
                enqueue-room q x (ground (arith, sized)) (ground (arith, room, h.length_is)),
                store_at-stored q b xs x h,
              )
              (refl, inl (set b q.head x, stored-Holds q b xs x h (ltb→lt _ _ room)), refl)
