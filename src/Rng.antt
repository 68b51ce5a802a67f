-- ===== src/Rng.antt =====
-- math/rng.c: the generator, and filling memory from it. A function that draws answers with the generator
-- behind it. `rng_next01f` is not here, it divides floating-point numbers.
pub mod Range
pub mod Fill
mod Tests
use redlib.Prelude.{
  ℕ, zero, suc, ◌+◌, ◌-◌, ◌*◌, ◌/◌, ◌%◌, ◌^◌, List, [], ◌∷◌, ◌++◌, if◌then◌else◌, leb, add64, mul64,
  u64_mod, bit_or, bit_xor, blit, Bool, true, false,
}

pub record Rng : Type 0 where
  pub s0 : ℕ
  pub s1 : ℕ

unfoldable pub rotl : ℕ → ℕ → ℕ
rotl x k = bit_or (x * 2 ^ k % u64_mod) (x / 2 ^ (64 - k))

-- The bits of one seeded word.
unfoldable pub mix : ℕ → ℕ
mix z0 =
    let z1 = mul64 (bit_xor z0 (z0 / 2 ^ 30)) 13787848793156543929 in
    let z2 = mul64 (bit_xor z1 (z1 / 2 ^ 27)) 10723151780598845931 in bit_xor z2 (z2 / 2 ^ 31)

unfoldable pub rng_seed : ℕ → Rng
unfolding mix
rng_seed seed = record {
  s0 = mix (add64 seed 11400714819323198485);
  s1 = mix (add64 (add64 seed 11400714819323198485) 1);
}

unfoldable pub rng_next64 : Rng → ℕ × Rng
unfolding rotl
rng_next64 rng =
    let s1 = bit_xor rng.s1 rng.s0 in
    (
      add64 rng.s0 rng.s1,
      record {
        s0 = bit_xor (bit_xor (rotl rng.s0 55) s1) (s1 * 2 ^ 14 % u64_mod);
        s1 = rotl s1 36;
      },
    )

unfoldable pub rng_next32 : Rng → ℕ × Rng
unfolding rng_next64
rng_next32 rng = let (x, rng') = rng_next64 rng in (x / 2 ^ 32 % 2 ^ 32, rng')

unfoldable pub rng_next16 : Rng → ℕ × Rng
unfolding rng_next64
rng_next16 rng = let (x, rng') = rng_next64 rng in (x / 2 ^ 48 % 2 ^ 16, rng')

unfoldable pub rng_next8 : Rng → ℕ × Rng
unfolding rng_next64
rng_next8 rng = let (x, rng') = rng_next64 rng in (x / 2 ^ 56 % 2 ^ 8, rng')

unfoldable pub rng_between64 : Rng → ℕ → ℕ → ℕ × Rng
unfolding rng_next64
rng_between64 rng min max =
    let (x, rng') = rng_next64 rng in
    if leb max min then (min, rng) else (add64 (x % (max - min)) min, rng')

unfoldable pub rng_between32 : Rng → ℕ → ℕ → ℕ × Rng
unfolding rng_next64
rng_between32 rng min max =
    let (x, rng') = rng_next64 rng in
    if leb max min then (min, rng) else (add64 (x % (max - min)) min % 2 ^ 32, rng')

unfoldable pub rng_between16 : Rng → ℕ → ℕ → ℕ × Rng
unfolding rng_next64
rng_between16 rng min max =
    let (x, rng') = rng_next64 rng in
    if leb max min then (min, rng) else ((x % (max - min) % 2 ^ 16 + min) % 2 ^ 16, rng')

unfoldable pub rng_between8 : Rng → ℕ → ℕ → ℕ × Rng
unfolding rng_next64
rng_between8 rng min max =
    let (x, rng') = rng_next64 rng in
    if leb max min then (min, rng) else ((x % (max - min) % 2 ^ 8 + min) % 2 ^ 8, rng')

-- The values of a loop that draws `count` times.
unfoldable pub drawn : (Rng → ℕ × Rng) → Rng → ℕ → List ℕ × Rng
drawn next rng zero = ([], rng)
drawn next rng (suc count) =
    let (x, rng') = next rng in let (xs, rng'') = drawn next rng' count in (x ∷ xs, rng'')

-- The four loops over an array; `i` has 32 bits, so `count` is below 2 ^ 32.
unfoldable pub rng_fill : (Rng → ℕ × Rng) → Rng → List ℕ → ℕ → List ℕ × Rng
unfolding drawn
rng_fill next rng dst count = let (xs, rng') = drawn next rng count in (blit dst 0 xs, rng')

abbrev pub rng_fill64 : Rng → List ℕ → ℕ → List ℕ × Rng
rng_fill64 = rng_fill rng_next64

abbrev pub rng_fill32 : Rng → List ℕ → ℕ → List ℕ × Rng
rng_fill32 = rng_fill rng_next32

abbrev pub rng_fill16 : Rng → List ℕ → ℕ → List ℕ × Rng
rng_fill16 = rng_fill rng_next16

abbrev pub rng_fill8 : Rng → List ℕ → ℕ → List ℕ × Rng
rng_fill8 = rng_fill rng_next8

-- The bytes of a word in memory, the low one first.
unfoldable pub word_bytes : ℕ → ℕ → List ℕ
word_bytes zero x = []
word_bytes (suc n) x = x % 256 ∷ word_bytes n (x / 256)

unfoldable pub words_bytes : List ℕ → List ℕ
unfolding word_bytes
words_bytes [] = []
words_bytes (x ∷ xs) = word_bytes 8 x ++ words_bytes xs

-- On the bytes at `dest`: blocks of 64 bits, words of 64 bits from the start again, single bytes.
-- The blocks are counted in 32 bits: `count / 32` is below 2 ^ 32.
unfoldable pub rng_fill_buf : Rng → List ℕ → ℕ → List ℕ × Rng
unfolding drawn words_bytes
rng_fill_buf rng dest count =
    let (blocks, rng1) = drawn rng_next64 rng (count / 32) in
    let remaining = count % 32 / 8 in
    let (words, rng2) = drawn rng_next64 rng1 remaining in
    let (bytes, rng3) = drawn rng_next8 rng2 (count % 8) in
    (
      blit (blit (blit dest 0 (words_bytes blocks)) 0 (words_bytes words)) (8 * remaining) bytes,
      rng3,
    )
