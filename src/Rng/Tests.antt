-- ===== src/Rng/Tests.antt =====
-- Runs of the generator.
use redlib.Prelude.{ℕ, ◌+◌, ◌%◌, ◌/◌, max, ◌≡◌, ◌≤◌, ◌<◌, refl, List, arith, get_elem?, replicate}
use redlib.Rng.{Rng, rng_next64, rng_between8, rng_fill_buf}
use redlib.Rng.Range.{half, rng_between, rng_between-InRange}
use redlib.Rng.Fill.{reach, rng_fill_buf-keeps}

abbrev two_words : Rng
two_words = record { s0 = 5; s1 = 1000 }

rng_between8-empty : rng_between8 two_words 9 9 ≡ (9, two_words)
unfolding rng_between8
rng_between8-empty = refl

rng_next64-sum : (rng_next64 two_words).0 ≡ 1005
unfolding rng_next64
rng_next64-sum = refl

abbrev zeroed : List ℕ
zeroed = replicate 40 0

-- Of 40 bytes only the first eight are written.
reach-40 : reach 40 ≡ 8
reach-40 = refl

rng_between-InRange_example :
    (rng_between half two_words 10 20
      ≡ (10 + (rng_next64 two_words).0 % 10, (rng_next64 two_words).1))
    × ((rng_between half two_words 10 20).0 < 20)
rng_between-InRange_example = rng_between-InRange half two_words 10 20 (omega arith) (omega arith)

rng_fill_buf-keeps_example :
    (get_elem? (rng_fill_buf two_words zeroed 40).0 8 ≡ get_elem? zeroed 8)
    × (reach 40 ≤ 40)
    × (reach 40 ≤ max 31 (40 / 4))
rng_fill_buf-keeps_example = rng_fill_buf-keeps two_words zeroed 40 8 (omega arith)
