-- ===== src/Tokenizer/NumberToken.antt =====
-- `read_number`: the position `pos` of the code is a scanner of its own, which is stored at the end.
use redlib.Prelude.{
  ℕ, suc, ◌-◌, Bool, true, false, not, ◌&&◌, ◌||◌, [], ◌∷◌, Option, none, some, if◌then◌else◌, leb,
  ◌==◌,
}
use redlib.Scanner.{Scanner, behind, scan_eof, scan_peek, scan_while}
use redlib.Numbers.{is_digit}
use redlib.Strings.{tolower}
use redlib.Tokenizer.State.{Token, number, const, Tokenizer}

abbrev pub is_hex_digit : ℕ → Bool
is_hex_digit c = is_digit c || leb b'a' c && leb c b'f' || leb b'A' c && leb c b'F'

abbrev pub is_bin_digit : ℕ → Bool
is_bin_digit c = c == b'0' || c == b'1'

abbrev pub is_oct_digit : ℕ → Bool
is_oct_digit c = leb b'0' c && leb c b'7'

-- The digits that a letter behind a 0 announces.
unfoldable pub radix_digits : ℕ → Option (ℕ → Bool)
radix_digits c =
    if c == b'x' || c == b'X'
    then some is_hex_digit
    else if c == b'b' || c == b'B'
    then some is_bin_digit
    else if c == b'o' || c == b'O'
    then some is_oct_digit
    else none

-- Over the next byte, if it passes a test.
unfoldable pub optional : (ℕ → Bool) → Scanner → Scanner
optional test s = elim s.rest [ [] ↦ s | c ∷ rest ↦ if test c then behind s.pos rest else s ]

-- At least one digit behind the letter: `none` for false.
unfoldable pub radix_number : (ℕ → Bool) → Scanner → Option Scanner
radix_number digit s = elim s.rest [
  | [] ↦ none
  | c ∷ rest ↦ if digit c then some (scan_while digit (behind s.pos rest)) else none
]

unfoldable pub fraction : Scanner → Scanner
unfolding is_digit
fraction s = elim s.rest [
  | [] ↦ s
  | c ∷ rest ↦ if c == b'.' then scan_while is_digit (behind s.pos rest) else s
]

-- Without a digit behind it the letter is not read.
unfoldable pub exponent : Scanner → Scanner
unfolding is_digit optional
exponent s = elim s.rest [
  | [] ↦ s
  | c ∷ rest ↦
      if c == b'e' || c == b'E'
      then (let signed = optional (λ d. d == b'+' || d == b'-') (behind s.pos rest) in
          elim signed.rest [
            | [] ↦ s
            | d ∷ _ ↦ if is_digit d then scan_while is_digit signed else s
          ])
      else s
]

-- The end of a number without a prefix.
unfoldable pub number_end : Scanner → Scanner
unfolding optional fraction exponent is_digit tolower
number_end s =
    let signed = optional (λ c. c == b'-') s in
    let whole = scan_while is_digit signed in
    exponent (optional (λ c. tolower c == b'f') (fraction whole))

-- How a number starts: with a 0 and a letter, or not.
pub data Prefix : Type 0 where
  plain_number : Prefix
  radix : (ℕ → Bool) → Scanner → Prefix

unfoldable pub prefix_of : Scanner → Prefix
unfolding radix_digits
prefix_of s = elim s.rest [
  | [] ↦ plain_number
  | c ∷ [] ↦ plain_number
  | c ∷ d ∷ rest ↦
      if c == b'0'
      then elim (radix_digits d) [
        | none ↦ plain_number
        | some digit ↦ radix digit (behind (suc s.pos) rest)
      ]
      else plain_number
]

abbrev pub number_token : Tokenizer → Scanner → Token
number_token t s' = record {
  kind = if t.skip_type_check then const else number;
  start = some t.s.pos;
  length = s'.pos - t.s.pos;
  pos = t.s.pos;
}

unfoldable pub starts_number : ℕ → Bool
unfolding is_digit
starts_number c = c == b'-' || c == b'.' || is_digit c

-- The tokenizer, the token, and whether a number is read. A lone point leaves the old `pos` field.
unfoldable pub read_with : Tokenizer → Token → Prefix → Tokenizer × Token × Bool
unfolding radix_number number_end
read_with t out (radix digit s) = elim (radix_number digit s) [
  | none ↦ (t, out, false)
  | some s' ↦ (record t { s = s' }, number_token t s', true)
]
read_with t out plain_number =
    let s' = number_end t.s in
    if s'.pos - t.s.pos == 1 && scan_peek t.s == b'.'
    then (record t { s = s' }, record (number_token t s') { pos = out.pos }, false)
    else (record t { s = s' }, number_token t s', true)

unfoldable pub read_number : Tokenizer → Token → Tokenizer × Token × Bool
unfolding starts_number prefix_of read_with
read_number t out =
    if scan_eof t.s || not (starts_number (scan_peek t.s))
    then (t, out, false)
    else read_with t out (prefix_of t.s)
