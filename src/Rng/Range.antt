-- ===== src/Rng/Range.antt =====
-- The numbers drawn in a range.
use native.Mathlib.Nat.{mod-lt, mod-eq_of_lt}
use redlib.Prelude.{ℕ, ◌+◌, ◌-◌, ◌%◌, ◌^◌, ◌≡◌, ◌<◌, refl, ◌∙◌, false, arith, leb, u64_mod}
use redlib.Rng.{Rng, rng_next64, rng_between64, rng_between32, rng_between16, rng_between8}

-- The four functions by their width.
pub data Width : Type 0 where
  byte : Width
  half : Width
  word : Width
  long : Width

abbrev pub word_size : Width → ℕ
word_size byte = 2 ^ 8
word_size half = 2 ^ 16
word_size word = 2 ^ 32
word_size long = 2 ^ 64

abbrev pub rng_between : Width → Rng → ℕ → ℕ → ℕ × Rng
rng_between byte = rng_between8
rng_between half = rng_between16
rng_between word = rng_between32
rng_between long = rng_between64

-- A reduced word in the range, and what the casts make of it.
reduced-InRange :
    (m lo hi x : ℕ)
    → lo < hi
    → hi < m
    → (x % (hi - lo) + lo < hi)
      × ((x % (hi - lo) + lo) % m ≡ lo + x % (hi - lo))
      × (x % (hi - lo) % m ≡ x % (hi - lo))
reduced-InRange m lo hi x h k =
    let small : x % (hi - lo) < hi - lo = mod-lt x {m = hi - lo} (omega arith) in
    (
      omega (arith, small),
      mod-eq_of_lt {n = x % (hi - lo) + lo} {m = m} (omega (arith, small)) ∙ omega arith,
      mod-eq_of_lt {n = x % (hi - lo)} {m = m} (omega (arith, small)),
    )

-- Between two numbers of the width the number drawn is the first plus the next word of the generator,
-- reduced by the length of the range, without overflow, so that it is below the second; one word is drawn.
pub rng_between-InRange :
    (w : Width) (rng : Rng) (lo hi : ℕ)
    → lo < hi
    → hi < word_size w
    → (rng_between w rng lo hi ≡ (lo + (rng_next64 rng).0 % (hi - lo), (rng_next64 rng).1))
      × ((rng_between w rng lo hi).0 < hi)
unfolding rng_between64 rng_between32 rng_between16 rng_between8
rng_between-InRange w rng lo hi h k = by_width w k
  where
    by_width :
        (w : Width)
        → hi < word_size w
        → (rng_between w rng lo hi ≡ (lo + (rng_next64 rng).0 % (hi - lo), (rng_next64 rng).1))
          × ((rng_between w rng lo hi).0 < hi)
    by_width byte k =
        let (below, sum, x) = reduced-InRange (2 ^ 8) lo hi (rng_next64 rng).0 h k in
        let test : leb hi lo ≡ false = ground (arith, h) in
        rw (test, x, sum) (refl, omega (arith, below))
    by_width half k =
        let (below, sum, x) = reduced-InRange (2 ^ 16) lo hi (rng_next64 rng).0 h k in
        let test : leb hi lo ≡ false = ground (arith, h) in
        rw (test, x, sum) (refl, omega (arith, below))
    by_width word k =
        let (below, sum, x) = reduced-InRange (2 ^ 32) lo hi (rng_next64 rng).0 h k in
        let (below64, sum64, x64) =
          reduced-InRange u64_mod lo hi (rng_next64 rng).0 h (omega (arith, k)) in
        let test : leb hi lo ≡ false = ground (arith, h) in
        rw
          (
            test,
            sum64,
            mod-eq_of_lt {n = lo + (rng_next64 rng).0 % (hi - lo)} {m = 2 ^ 32}
                (omega (arith, k, below)),
          )
          (refl, omega (arith, below))
    by_width long k =
        let (below, sum, x) = reduced-InRange u64_mod lo hi (rng_next64 rng).0 h k in
        let test : leb hi lo ≡ false = ground (arith, h) in
        rw (test, sum) (refl, omega (arith, below))
