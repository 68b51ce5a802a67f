-- ===== src/Rng/Fill.antt =====
-- Where filling memory writes.
use redlib.Prelude.{
  ℕ, zero, suc, ◌+◌, ◌*◌, ◌/◌, ◌%◌, ◌≡◌, ◌≤◌, refl, ◌∙◌, List, [], ◌∷◌, max, arith, length,
  get_elem?, blit, get_elem?-blit_after, length-append,
}
use redlib.Rng.{Rng, rng_next64, rng_next8, drawn, word_bytes, words_bytes, rng_fill_buf}

length-drawn :
    (next : Rng → ℕ × Rng) (rng : Rng) (count : ℕ) → length (drawn next rng count).0 ≡ count
unfolding drawn
length-drawn next rng zero = refl
length-drawn next rng (suc count) = omega (arith, length-drawn next (next rng).1 count)

length-word_bytes : (n x : ℕ) → length (word_bytes n x) ≡ n
unfolding word_bytes
length-word_bytes zero x = refl
length-word_bytes (suc n) x = omega (arith, length-word_bytes n (x / 256))

length-words_bytes : (xs : List ℕ) → length (words_bytes xs) ≡ 8 * length xs
unfolding words_bytes
length-words_bytes [] = refl
length-words_bytes (x ∷ xs) = omega (
  arith,
  length-append (word_bytes 8 x) (words_bytes xs),
  length-word_bytes 8 x,
  length-words_bytes xs,
)

-- The end of what `rng_fill_buf` writes.
abbrev pub reach : ℕ → ℕ
reach count = max (8 * (count / 32)) (8 * (count % 32 / 8) + count % 8)

-- Filling `count` bytes leaves every byte from `reach count` on as it was. That is inside the bytes asked
-- for, and at most the first 31 or a quarter of them.
pub rng_fill_buf-keeps :
    (rng : Rng) (dest : List ℕ) (count i : ℕ)
    → reach count ≤ i
    → (get_elem? (rng_fill_buf rng dest count).0 i ≡ get_elem? dest i)
      × (reach count ≤ count)
      × (reach count ≤ max 31 (count / 4))
unfolding rng_fill_buf
rng_fill_buf-keeps rng dest count i h =
    let (blocks, rng1) = drawn rng_next64 rng (count / 32) in
    let remaining = count % 32 / 8 in
    let (words, rng2) = drawn rng_next64 rng1 remaining in
    let (bytes, rng3) = drawn rng_next8 rng2 (count % 8) in
    let first = blit dest 0 (words_bytes blocks) in
    let second = blit first 0 (words_bytes words) in
    let blocks_long = length-drawn rng_next64 rng (count / 32) in
    let words_long = length-drawn rng_next64 rng1 remaining in
    let bytes_long = length-drawn rng_next8 rng2 (count % 8) in
    (
      get_elem?-blit_after second (8 * remaining) bytes i (omega (arith, h, bytes_long))
          ∙ get_elem?-blit_after first 0 (words_bytes words) i
              (omega (arith, h, length-words_bytes words, words_long))
          ∙ get_elem?-blit_after dest 0 (words_bytes blocks) i
              (omega (arith, h, length-words_bytes blocks, blocks_long)),
      omega arith,
      omega arith,
    )
