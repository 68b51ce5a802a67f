-- ===== src/Numbers/Tests.antt =====
-- Runs of the conversions, and their theorems at concrete numbers and texts.
use redlib.Prelude.{
  ◌≡◌, refl, ◌-◌, ◌^◌, false, [], ◌∷◌, ◌++◌, none, some, arith, if◌then◌else◌, ltb,
}
use redlib.Numbers.{
  is_digit, u64_to_dec, u64_to_base, parse_hex, parse_bin, parse_hex_u64, parse_int_u64,
  parse_int64, parse_uint32_dec,
}
use redlib.Numbers.Value.{value}
use redlib.Numbers.Base.{value-u64_to_base}
use redlib.Numbers.Decimal.{parse_int_u64-u64_to_dec, parse_uint32_dec-u64_to_dec}
use redlib.Numbers.Hex.{parse_hex_u64-parse_hex}

two_parts :
    u64_to_dec 7000000012 ≡ b'7' ∷ b'0' ∷ b'0' ∷ b'0' ∷ b'0' ∷ b'0' ∷ b'0' ∷ b'0' ∷ b'1' ∷ b'2' ∷ []
unfolding u64_to_dec
two_parts = refl

parse_hex-300 : parse_hex 300 ≡ b'0' ∷ b'x' ∷ b'1' ∷ b'2' ∷ b'C' ∷ []
unfolding parse_hex
parse_hex-300 = refl

parse_hex-zero : parse_hex 0 ≡ b'0' ∷ b'x' ∷ b'0' ∷ []
unfolding parse_hex
parse_hex-zero = refl

parse_bin-5 : parse_bin 5 ≡ b'0' ∷ b'b' ∷ b'1' ∷ b'0' ∷ b'1' ∷ []
unfolding parse_bin
parse_bin-5 = refl

octal-64 : u64_to_base 64 8 false ≡ b'1' ∷ b'0' ∷ b'0' ∷ []
unfolding u64_to_base
octal-64 = refl

negative : parse_int64 (b'-' ∷ b'5' ∷ []) ≡ 2 ^ 64 - 5
unfolding parse_int64
negative = refl

parse_hex_u64-colour : parse_hex_u64 (b'#' ∷ b'f' ∷ b'F' ∷ []) ≡ 255
unfolding parse_hex_u64
parse_hex_u64-colour = refl

value-u64_to_base_example : value 12 0 (u64_to_base 1000 12 false) ≡ 1000
value-u64_to_base_example =
    value-u64_to_base 1000 (omega arith) false 12 (omega arith) (omega arith)

comma_stops : is_digit b',' ≡ false
unfolding is_digit
comma_stops = refl

parse_int_u64-u64_to_dec_example : parse_int_u64 (u64_to_dec 7000000012 ++ b',' ∷ []) ≡ 7000000012
parse_int_u64-u64_to_dec_example =
    parse_int_u64-u64_to_dec 7000000012 (b',' ∷ []) (omega arith) comma_stops

parse_uint32_dec-u64_to_dec_example :
    parse_uint32_dec (u64_to_dec 70) ≡ (if ltb (2 ^ 32 - 1) 70 then none else some 70)
parse_uint32_dec-u64_to_dec_example = parse_uint32_dec-u64_to_dec 70 (omega arith)

parse_hex_u64-parse_hex_example : parse_hex_u64 (parse_hex 300) ≡ 300
parse_hex_u64-parse_hex_example = parse_hex_u64-parse_hex 300 (omega arith)
