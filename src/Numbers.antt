-- ===== src/Numbers.antt =====
-- string/string.c, the conversions between numbers and text. A text is the list of its bytes; the
-- buffer that a function fills is returned as the list of the bytes written, without the NUL behind
-- them. A plain `char` is unsigned, as on the AArch64 that the build is for. What is read by a pointer
-- and a size is the list of at most `size` bytes before the first NUL. `memreverse` (memory/memory.c)
-- reverses a list.
pub mod Value
pub mod Decimal
pub mod Hex
pub mod Base
mod Tests
use mathlib.Core.List.{reverse}
use redlib.Prelude.{
  ℕ, zero, suc, ◌+◌, ◌-◌, ◌*◌, ◌/◌, ◌%◌, ◌^◌, Bool, true, false, not, ◌&&◌, ◌||◌, List, [], ◌∷◌,
  ◌++◌, Option, none, some, get_or, if◌then◌else◌, ltb, leb, ◌==◌, add64, mul64, bit_and, bit_or,
  u64_mod,
}

unfoldable pub is_digit : ℕ → Bool
is_digit c = leb b'0' c && leb c b'9'

-- The loop `while (v >= 1000000000)` with room for `room` parts; `parts` has the last one first, as
-- they are taken out again.
pub split_parts : ℕ → ℕ → List ℕ → List ℕ × ℕ
split_parts zero v parts = (parts, v)
split_parts (suc room) v parts =
    let q = v / 1000000000 in
    let rest = split_parts room q ((v - q * 1000000000) % 2 ^ 32 ∷ parts) in
    if leb 1000000000 v then rest else (parts, v)

-- The `do … while (h)` loop, last digit first.
pub low_digits : ℕ → ℕ → List ℕ
low_digits zero h = []
low_digits (suc rounds) h =
    let rest = low_digits rounds (h / 10) in (b'0' + h % 10) ∷ (if h / 10 == 0 then [] else rest)

-- The buffer of nine digits, filled from its end.
pub padded : ℕ → ℕ → List ℕ
padded zero x = []
padded (suc n) x = padded n (x / 10) ++ (b'0' + x % 10) ∷ []

pub padded_parts : List ℕ → List ℕ
unfolding padded
padded_parts [] = []
padded_parts (x ∷ xs) = padded 9 x ++ padded_parts xs

unfoldable pub u64_to_dec : ℕ → List ℕ
unfolding split_parts low_digits padded_parts
u64_to_dec v =
    let (parts, top) = split_parts 3 v [] in
    reverse (low_digits 10 (top % 2 ^ 32)) ++ padded_parts parts

-- `hx[nib]`
unfoldable pub hex_digit : Bool → ℕ → ℕ
hex_digit upper d = if ltb d 10 then b'0' + d else (if upper then b'A' else b'a') + (d - 10)

-- The loops over the groups of `bits` bits, first to last, with `n` groups left.
pub groups : (bits : ℕ) (show : ℕ → ℕ) → ℕ → Bool → ℕ → List ℕ
groups bits show zero started v = []
groups bits show (suc n) started v =
    let d = bit_and (v / 2 ^ (bits * n)) (2 ^ bits - 1) in
    let started' = started || not (d == 0) in
    let rest = groups bits show n started' v in if started' then show d ∷ rest else rest

-- `if (!n) tmp[n++] = '0';`
unfoldable pub or_zero : List ℕ → List ℕ
or_zero [] = b'0' ∷ []
or_zero (c ∷ cs) = c ∷ cs

-- The last loop, `while (v && n < 65)`, last digit first.
pub base_digits : ℕ → ℕ → ℕ → List ℕ
unfolding hex_digit
base_digits base zero v = []
base_digits base (suc n) v =
    let rest = base_digits base n (v / base) in
    hex_digit false (v % base) ∷ (if v / base == 0 then [] else rest)

unfoldable pub u64_to_base : ℕ → ℕ → Bool → List ℕ
unfolding groups or_zero hex_digit base_digits
u64_to_base v base upper =
    if base == 16
    then or_zero (groups 4 (hex_digit upper) 16 false v)
    else if base == 8
    then or_zero (groups 3 (λ d. b'0' + d) 22 false v)
    else if base == 2
    then or_zero (groups 1 (λ d. b'0' + d) 64 false v)
    else reverse (base_digits base 65 v)

-- The loops of `parse_hex` and `parse_bin`, which start at the last digit at the latest.
pub figures : (bits : ℕ) (show : ℕ → ℕ) → ℕ → Bool → ℕ → List ℕ
figures bits show zero started v = []
figures bits show (suc n) started v =
    let c = show (bit_and (v / 2 ^ (bits * n)) (2 ^ bits - 1)) in
    let started' = started || not (c == b'0') || n == 0 in
    let rest = figures bits show n started' v in if started' then c ∷ rest else rest

unfoldable pub parse_hex : ℕ → List ℕ
unfolding figures hex_digit
parse_hex value = b'0' ∷ b'x' ∷ figures 4 (hex_digit true) 16 false value

unfoldable pub parse_bin : ℕ → List ℕ
unfolding figures
parse_bin value = b'0' ∷ b'b' ∷ figures 1 (λ d. if d == 0 then b'0' else b'1') 64 false value

-- The digit of a character of a hexadecimal number.
unfoldable pub hex_digit_of : ℕ → Option ℕ
hex_digit_of c =
    if leb b'0' c && leb c b'9'
    then some (c - b'0')
    else if leb b'a' c && leb c b'f'
    then some (c - b'a' + 10)
    else if leb b'A' c && leb c b'F'
    then some (c - b'A' + 10)
    else none

-- The loop from index 2 on.
pub parse_hex_from : ℕ → List ℕ → ℕ
unfolding hex_digit_of
parse_hex_from r [] = r
parse_hex_from r (c ∷ s) = elim (hex_digit_of c) [
  | none ↦ r
  | some d ↦ parse_hex_from (bit_or (mul64 r 16) d) s
]

-- Index 1: an `x` starts afresh.
pub parse_hex_second : ℕ → List ℕ → ℕ
unfolding parse_hex_from
parse_hex_second r [] = r
parse_hex_second r (c ∷ s) =
    if c == b'x' || c == b'X' then parse_hex_from 0 s else parse_hex_from r (c ∷ s)

unfoldable pub parse_hex_u64 : List ℕ → ℕ
unfolding parse_hex_second hex_digit_of
parse_hex_u64 [] = 0
parse_hex_u64 (c ∷ s) =
    if c == b'#'
    then parse_hex_second 0 s
    else elim (hex_digit_of c) [ none ↦ 0 | some d ↦ parse_hex_second d s ]

pub parse_int_from : ℕ → List ℕ → ℕ
unfolding is_digit
parse_int_from r [] = r
parse_int_from r (c ∷ s) =
    if is_digit c then parse_int_from (add64 (mul64 r 10) (c - b'0')) s else r

unfoldable pub parse_int_u64 : List ℕ → ℕ
unfolding parse_int_from
parse_int_u64 s = parse_int_from 0 s

-- The 64 bits of the `int64_t`: a minus sign negates them.
unfoldable pub parse_int64 : List ℕ → ℕ
unfolding parse_int_from
parse_int64 [] = 0
parse_int64 (c ∷ s) =
    if c == b'-' then (u64_mod - parse_int_from 0 s) % u64_mod else parse_int_from 0 (c ∷ s)

-- `none` for false.
unfoldable pub parse_uint32_dec : List ℕ → Option ℕ
unfolding parse_int_u64
parse_uint32_dec [] = none
parse_uint32_dec (c ∷ s) =
    let v = parse_int_u64 (c ∷ s) in
    if v == 0 && not (c == b'0') then none else if ltb (2 ^ 32 - 1) v then none else some v
