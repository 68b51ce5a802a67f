-- ===== src/Numbers/Hex.antt =====
-- `parse_hex`, `parse_bin` and `parse_hex_u64`.
use redlib.Prelude.{
  ℕ, ◌+◌, ◌*◌, ◌<◌, ◌≡◌, refl, ◌∙◌, Bool, true, false, List, [], ◌∷◌, All, arith, some,
  if◌then◌else◌, ◌==◌, u64_mod, mul64,
}
use redlib.Prelude.Bits.{bit_or-shifted}
use redlib.Numbers.{
  hex_digit, hex_digit_of, figures, parse_hex, parse_bin, parse_hex_from, parse_hex_u64,
}
use redlib.Numbers.Base.{digit_of-hex_digit}
use redlib.Numbers.Value.{digit_of, value, le-value, value-figures, figures-All}

abbrev IsHexDigit : ℕ → Type 0
IsHexDigit c = (hex_digit_of c ≡ some (digit_of c)) × (digit_of c < 16)

hex_digit-IsHexDigit : (upper : Bool) (d : ℕ) → d < 16 → IsHexDigit (hex_digit upper d)
unfolding hex_digit hex_digit_of
hex_digit-IsHexDigit true d h = ground arith
hex_digit-IsHexDigit false d h = ground arith

parse_hex_from-value :
    (r : ℕ) (s : List ℕ)
    → All IsHexDigit s
    → value 16 r s < u64_mod
    → parse_hex_from r s ≡ value 16 r s
unfolding parse_hex_from
parse_hex_from-value r [] ds fits = refl
parse_hex_from-value r (c ∷ s) ((is_hex, small), ds) fits =
    let grows = le-value 16 (r * 16 + digit_of c) s (omega arith) in
    let kept : mul64 r 16 ≡ r * 16 = omega (arith, grows, fits) in
    rw (parse_hex_from, is_hex, kept, bit_or-shifted 4 r (digit_of c) small)
      (parse_hex_from-value (r * 16 + digit_of c) s ds fits)

-- The text that `parse_hex` writes is read back by `parse_hex_u64`, for every number below 2 ^ 64.
pub parse_hex_u64-parse_hex : (v : ℕ) → v < u64_mod → parse_hex_u64 (parse_hex v) ≡ v
unfolding parse_hex_u64 parse_hex
parse_hex_u64-parse_hex v fits =
    let whole =
      value-figures 4 (hex_digit true) (digit_of-hex_digit true) 16 v 0 false (omega arith)
        (λ _. refl) in
    parse_hex_from-value 0 (figures 4 (hex_digit true) 16 false v)
      (figures-All 4 (hex_digit true) IsHexDigit (hex_digit-IsHexDigit true) 16 v false)
      (rw whole fits)
    ∙ whole

bin_digit : (d : ℕ) → d < 2 → digit_of (if d == 0 then b'0' else b'1') ≡ d
bin_digit d h = ground arith

-- What `parse_bin` writes behind `0b` stands for the number, for every number below 2 ^ 64.
pub parse_bin_lem :
    (v : ℕ)
    → v < u64_mod
    → (digits : List ℕ) × (parse_bin v ≡ b'0' ∷ b'b' ∷ digits) × (value 2 0 digits ≡ v)
unfolding parse_bin
parse_bin_lem v fits = (
  figures 1 (λ d. if d == 0 then b'0' else b'1') 64 false v,
  refl,
  value-figures 1 (λ d. if d == 0 then b'0' else b'1') bin_digit 64 v 0 false (omega arith)
      (λ _. refl),
)
