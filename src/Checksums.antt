-- ===== src/Checksums.antt =====
-- net/checksums.c: the checksums of the internet protocols. Sums have 32 bits.
pub mod Fold
pub mod Verify
pub mod Pseudo
mod Tests
use redlib.Prelude.{
  ℕ, zero, suc, ◌+◌, ◌-◌, ◌*◌, ◌/◌, ◌%◌, ◌^◌, List, [], ◌∷◌, Bool, true, false, if◌then◌else◌, ◌==◌,
  length, bit_or,
}

abbrev pub add32 : ℕ → ℕ → ℕ
add32 a b = (a + b) % 2 ^ 32

unfoldable pub sum_words : ℕ → List ℕ → ℕ
sum_words sum [] = sum
sum_words sum (w ∷ words) = sum_words (add32 sum w) words

-- The rounds of `while (sum >> 16)`.
unfoldable pub fold_carry : ℕ → ℕ → ℕ
fold_carry zero sum = sum
fold_carry (suc rounds) sum =
    let rest = fold_carry rounds (add32 (sum % 2 ^ 16) (sum / 2 ^ 16)) in
    if sum / 2 ^ 16 == 0 then sum else rest

-- `(uint16_t)~sum` behind the loop, which has two rounds at most.
unfoldable pub complement : ℕ → ℕ
unfolding fold_carry
complement sum = (2 ^ 32 - 1 - fold_carry 3 sum) % 2 ^ 16

unfoldable pub checksum16 : List ℕ → ℕ
unfolding sum_words complement
checksum16 words = complement (sum_words 0 words)

-- `(high << 8) | low`
abbrev pub big_endian : ℕ → ℕ → ℕ
big_endian high low = bit_or (high * 256) low

-- The loop of `checksum16_pipv4` over pairs of bytes, and the last one of an odd number.
unfoldable pub sum_payload4 : ℕ → List ℕ → ℕ
sum_payload4 sum [] = sum
sum_payload4 sum (b ∷ []) = add32 sum (b * 256)
sum_payload4 sum (b ∷ d ∷ payload) = sum_payload4 (add32 sum (big_endian b d)) payload

unfoldable pub fold_carry4 : ℕ → ℕ → ℕ
fold_carry4 zero sum = sum
fold_carry4 (suc rounds) sum =
    let rest = fold_carry4 rounds (add32 (sum % 2 ^ 16) (sum / 2 ^ 16)) in
    if sum / 2 ^ 16 == 0 then sum else rest

-- The length is a `uint16_t`.
unfoldable pub checksum16_pipv4 : ℕ → ℕ → ℕ → List ℕ → ℕ
unfolding sum_payload4 fold_carry4
checksum16_pipv4 src_ip dst_ip protocol payload =
    let s1 = add32 0 (src_ip / 2 ^ 16 % 2 ^ 16) in
    let s2 = add32 s1 (src_ip % 2 ^ 16) in
    let s3 = add32 s2 (dst_ip / 2 ^ 16 % 2 ^ 16) in
    let s4 = add32 s3 (dst_ip % 2 ^ 16) in
    let s5 = add32 s4 protocol in
    let s6 = add32 s5 (length payload) in
    (2 ^ 32 - 1 - fold_carry4 3 (sum_payload4 s6 payload)) % 2 ^ 16

-- The loop of `checksum16_pipv6` over the 16 bytes of an address.
unfoldable pub sum_address : ℕ → List ℕ → ℕ
sum_address sum [] = sum
sum_address sum (b ∷ []) = sum
sum_address sum (b ∷ d ∷ ip) = sum_address (add32 sum (big_endian b d)) ip

unfoldable pub sum_payload6 : ℕ → List ℕ → ℕ
sum_payload6 sum [] = sum
sum_payload6 sum (b ∷ []) = add32 sum (b * 256)
sum_payload6 sum (b ∷ d ∷ payload) = sum_payload6 (add32 sum (big_endian b d)) payload

unfoldable pub fold_carry6 : ℕ → ℕ → ℕ
fold_carry6 zero sum = sum
fold_carry6 (suc rounds) sum =
    let rest = fold_carry6 rounds (add32 (sum % 2 ^ 16) (sum / 2 ^ 16)) in
    if sum / 2 ^ 16 == 0 then sum else rest

-- The addresses are lists of 16 bytes, the length is a `uint32_t`.
unfoldable pub checksum16_pipv6 : List ℕ → List ℕ → ℕ → List ℕ → ℕ
unfolding sum_address sum_payload6 fold_carry6
checksum16_pipv6 src_ip dst_ip protocol payload =
    let s1 = sum_address (sum_address 0 src_ip) dst_ip in
    let s2 = add32 s1 (length payload / 2 ^ 16 % 2 ^ 16) in
    let s3 = add32 s2 (length payload % 2 ^ 16) in
    let s4 = add32 s3 protocol in (2 ^ 32 - 1 - fold_carry6 3 (sum_payload6 s4 payload)) % 2 ^ 16
