-- ===== src/PriorityQueue/Order.antt =====
-- One insertion: what the traversal sees before and after it.
use redlib.Prelude.{
  ℕ, ◌≡◌, ◌≢◌, refl, sym, ◌∙◌, Bool, true, false, List, [], ◌∷◌, All, ◌==◌, arith, Bool-cases, inl,
  inr,
}
use redlib.Prelude.Int.{ℤ, ltb_ℤ, ltb_ℤ-asym, ltb_ℤ-trans}
use redlib.Sorting.{Sorted, placed, placed-append, placed_before, placed-Sorted, Sorted-middle}
use redlib.PriorityQueue.{
  Node, nil, hdr, PriorityQueue, goes_left, hdr_insert, insert, hdr_traverse, traverse,
}

abbrev pub ahead : Bool → ℕ × ℤ → ℕ × ℤ → Bool
ahead ascending (x, p) (y, q) = goes_left ascending p q

-- The first may be called before the second: its priority is not the greater one, or not the smaller
-- one if the queue does not ascend.
abbrev pub Precedes : Bool → ℕ × ℤ → ℕ × ℤ → Type 0
Precedes true (x, p) (y, q) = ltb_ℤ q p ≡ false
Precedes false (x, p) (y, q) = ltb_ℤ p q ≡ false

Precedes-ahead : (asc : Bool) (e f : ℕ × ℤ) → Precedes asc e f → ahead asc f e ≡ false
unfolding goes_left
Precedes-ahead true (x, p) (y, q) h = h
Precedes-ahead false (x, p) (y, q) h = h

may_precede : (asc : Bool) (e f : ℕ × ℤ) → ahead asc e f ≡ false → Precedes asc f e
unfolding goes_left
may_precede true (x, p) (y, q) h = h
may_precede false (x, p) (y, q) h = h

pub Precedes-trans :
    (asc : Bool) (e f g : ℕ × ℤ) → Precedes asc e f → Precedes asc f g → Precedes asc e g
unfolding goes_left
Precedes-trans true (x, p) (y, q) (z, r) h k = ltb_ℤ-trans p q r h k
Precedes-trans false (x, p) (y, q) (z, r) h k = ltb_ℤ-trans r q p k h

pub ahead_before : (asc : Bool) (e f : ℕ × ℤ) → ahead asc e f ≡ true → Precedes asc e f
unfolding goes_left
ahead_before true (x, p) (y, q) h = ltb_ℤ-asym p q h
ahead_before false (x, p) (y, q) h = ltb_ℤ-asym q p h

none_goes :
    (asc : Bool) (e f : ℕ × ℤ) (l : List (ℕ × ℤ))
    → Precedes asc f e
    → All (λ g. Precedes asc g f) l
    → All (λ g. ahead asc e g ≡ false) l
none_goes asc e f [] h k = tt
none_goes asc e f (g ∷ l) h k =
    (Precedes-ahead asc g e (Precedes-trans asc g f e k.0 h), none_goes asc e f l h k.1)

pub hdr_insert-placed :
    (asc : Bool) (t : Node) (x : ℕ) (p : ℤ)
    → Sorted (Precedes asc) (hdr_traverse t)
    → hdr_traverse (hdr_insert asc t x p) ≡ placed (ahead asc) (x, p) (hdr_traverse t)
unfolding hdr_insert hdr_traverse placed
hdr_insert-placed asc nil x p h = refl
hdr_insert-placed asc (hdr l y q r) x p h =
    let (left, below, _, right) =
      Sorted-middle (Precedes asc) (hdr_traverse l) (y, q) (hdr_traverse r) h in
    elim (Bool-cases (goes_left asc p q)) [
      | inl goes ↦
          rw (goes, hdr_insert-placed asc l x p left)
            (sym (placed_before (ahead asc) (x, p) (y, q) (hdr_traverse l) (hdr_traverse r) goes))
      | inr stays ↦
          let behind =
            none_goes asc (x, p) (y, q) (hdr_traverse l) (may_precede asc (x, p) (y, q) stays)
              below in
          rw (stays, hdr_insert-placed asc r x p right)
            (sym (
              placed-append (ahead asc) (x, p) (hdr_traverse l) ((y, q) ∷ hdr_traverse r) behind
              ∙ rw (placed, stays) refl))
    ]

-- In a sorted queue an item that is not NULL is called after all those that may be called before it,
-- and before the others, which keep their order; the queue stays sorted.
pub insert-placed :
    (q : PriorityQueue) (x : ℕ) (p : ℤ)
    → x ≢ 0
    → Sorted (Precedes q.ascending) (traverse q)
    → (traverse (insert q x p) ≡ placed (ahead q.ascending) (x, p) (traverse q))
      × Sorted (Precedes q.ascending) (traverse (insert q x p))
unfolding insert traverse
insert-placed q x p given h =
    let item : (x == 0) ≡ false = ground (arith, given) in
    let e = hdr_insert-placed q.ascending q.root x p h in
    let sorted =
      placed-Sorted (ahead q.ascending) (Precedes q.ascending) (Precedes-trans q.ascending)
        (ahead_before q.ascending) (may_precede q.ascending) (x, p) (hdr_traverse q.root) h in
    rw item (e, rw e sorted)
