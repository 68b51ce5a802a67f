-- ===== src/Tokenizer/Digits.antt =====
-- What the parts of the tokenizer make of the digits of a number.
use redlib.Prelude.{
  ℕ, suc, ◌+◌, ◌-◌, ◌≡◌, refl, ap, ◌∙◌, Bool, true, false, not, ◌&&◌, ◌||◌, List, [], ◌∷◌, ◌++◌,
  none, some, All, length, arith, if◌then◌else◌, ◌==◌, Bool-cases, inl, inr,
}
use redlib.Scanner.{Scanner, scan_eof, scan_peek, scan_match, scan_skip_ws, while_from, match_from}
use redlib.Slices.{is_ws}
use redlib.Numbers.{is_digit}
use redlib.Numbers.Decimal.{IsDigit}
use redlib.Strings.{tolower}
use redlib.Tokenizer.State.{
  Token, number, const, Tokenizer, TokenizerComment, no_comments, slash, hash, semi,
  valid_identifier, is_alpha, default_valid_identifier,
}
use redlib.Tokenizer.Skip.{
  absent, slash_comment, line_comment, comment_at, by_comment, skip_rounds, skip_ws_and_comments,
}
use redlib.Tokenizer.NumberToken.{
  optional, fraction, exponent, number_end, plain_number, radix_digits, prefix_of, starts_number,
  read_with, read_number,
}
use redlib.Tokenizer.Read.{first_op, short_op, contains, ops1, ops2, ops3, read_operator}
use redlib.Tokenizer.Next.{valid_number}
use redlib.Tokenizer.Advance.{at}

-- Neither a digit, nor a letter, nor a point follows.
abbrev pub EndsNumber : List ℕ → Type 0
EndsNumber [] = Unit
EndsNumber (c ∷ rest) = (is_digit c || is_alpha c || c == b'.') ≡ false

comment_at-digit :
    (kind : TokenizerComment) (pos c : ℕ) (rest : List ℕ)
    → is_digit c ≡ true
    → comment_at kind (at pos (c ∷ rest)) ≡ absent
unfolding comment_at slash_comment line_comment scan_match is_digit
comment_at-digit no_comments pos c rest h = refl
comment_at-digit slash pos c rest h = let e : (c == b'/') ≡ false = ground (arith, h) in rw e refl
comment_at-digit hash pos c rest h = let e : (c == b'#') ≡ false = ground (arith, h) in rw e refl
comment_at-digit semi pos c rest h = let e : (c == b';') ≡ false = ground (arith, h) in rw e refl

-- Nothing is skipped in front of a digit.
pub skip-digit :
    (t : Tokenizer) (pos c : ℕ) (rest : List ℕ) (out : Token)
    → is_digit c ≡ true
    → skip_ws_and_comments (record t { s = at pos (c ∷ rest) }) out
      ≡ (record t { s = at pos (c ∷ rest) }, out, false)
unfolding skip_ws_and_comments skip_rounds scan_skip_ws while_from scan_eof scan_match by_comment
skip-digit t pos c rest out h =
    let space : is_ws (not t.parse_newline) c ≡ false =
      unfold is_ws is_digit in ground (arith, h) in
    let line : (c == b'\n') ≡ false = unfold is_digit in ground (arith, h) in
    rw (space, line, comment_at-digit t.comment_type pos c rest h) refl

abbrev no_digits : List ℕ → Bool
no_digits [] = true
no_digits (x ∷ xs) = not (is_digit x) && no_digits xs

abbrev first_plain : List (List ℕ) → Bool
first_plain [] = true
first_plain ([] ∷ ops) = false
first_plain ((x ∷ xs) ∷ ops) = not (is_digit x) && first_plain ops

other_byte : (c x : ℕ) → is_digit c ≡ true → not (is_digit x) ≡ true → (c == x) ≡ false
unfolding is_digit
other_byte c x h k = ground (arith, h, k)

contains-digit :
    (l : List ℕ) (c : ℕ) → is_digit c ≡ true → no_digits l ≡ true → contains l c ≡ false
unfolding contains
contains-digit [] c h k = refl
contains-digit (x ∷ xs) c h k =
    rw (other_byte c x h (ground (arith, k))) (contains-digit xs c h (ground (arith, k)))

first_op-digit :
    (ops : List (List ℕ)) (pos c : ℕ) (rest : List ℕ)
    → is_digit c ≡ true
    → first_plain ops ≡ true
    → first_op ops (at pos (c ∷ rest)) ≡ none
unfolding first_op match_from
first_op-digit [] pos c rest h k = refl
first_op-digit ([] ∷ ops) pos c rest h k = absurd (cc k)
first_op-digit ((x ∷ xs) ∷ ops) pos c rest h k =
    rw (other_byte c x h (ground (arith, k)), first_op)
      (first_op-digit ops pos c rest h (ground (arith, k)))

pub read_operator-digit :
    (pos c : ℕ) (rest : List ℕ) → is_digit c ≡ true → read_operator false (at pos (c ∷ rest)) ≡ none
unfolding read_operator short_op
read_operator-digit pos c rest h =
    rw
      (
        first_op-digit ops3 pos c rest h (unfold is_digit in refl),
        first_op-digit ops2 pos c rest h (unfold is_digit in refl),
        contains-digit ops1 c h (unfold is_digit in refl),
        read_operator,
      )
      refl

-- The digits of a number are read to the last.
while-digits :
    (pos : ℕ) (ds rest : List ℕ)
    → All IsDigit ds
    → EndsNumber rest
    → while_from is_digit pos (ds ++ rest) ≡ at (pos + length ds) rest
unfolding while_from
while-digits pos [] [] all h = ap (λ p. at p []) (omega arith)
while-digits pos [] (c ∷ rest) all h =
    let e : is_digit c ≡ false = ground (arith, h) in rw e (ap (λ p. at p (c ∷ rest)) (omega arith))
while-digits pos (c ∷ ds) rest all h =
    rw all.0 (while-digits (suc pos) ds rest all.1 h ∙ ap (λ p. at p rest) (omega arith))

-- What ends a number has no part of one.
fraction-ends : (p : ℕ) (rest : List ℕ) → EndsNumber rest → fraction (at p rest) ≡ at p rest
unfolding fraction
fraction-ends p [] h = refl
fraction-ends p (c ∷ rest) h = let e : (c == b'.') ≡ false = ground (arith, h) in rw e refl

suffix-ends :
    (p : ℕ) (rest : List ℕ)
    → EndsNumber rest
    → optional (λ c. tolower c == b'f') (at p rest) ≡ at p rest
unfolding optional tolower is_alpha
suffix-ends p [] h = refl
suffix-ends p (c ∷ rest) h = let e : (tolower c == b'f') ≡ false = ground (arith, h) in rw e refl

exponent-ends : (p : ℕ) (rest : List ℕ) → EndsNumber rest → exponent (at p rest) ≡ at p rest
unfolding exponent is_alpha
exponent-ends p [] h = refl
exponent-ends p (c ∷ rest) h =
    let e : (c == b'e' || c == b'E') ≡ false = ground (arith, h) in rw e refl

number_end-digits :
    (pos c : ℕ) (ds rest : List ℕ)
    → is_digit c ≡ true
    → All IsDigit ds
    → EndsNumber rest
    → number_end (at pos (c ∷ ds ++ rest)) ≡ at (suc pos + length ds) rest
unfolding number_end while_from optional
number_end-digits pos c ds rest h all ends =
    let minus : (c == b'-') ≡ false = unfold is_digit in ground (arith, h) in
    let p = suc pos + length ds in
    let f = λ (s : Scanner). optional (λ c. tolower c == b'f') s in
    let digits : while_from is_digit pos (c ∷ ds ++ rest) ≡ at p rest =
      rw h (while-digits (suc pos) ds rest all ends) in
    let signed : optional (λ c. c == b'-') (at pos (c ∷ ds ++ rest)) ≡ at pos (c ∷ ds ++ rest) =
      rw minus refl in
    ap (λ s. exponent (f (fraction (while_from is_digit s.pos s.rest)))) signed
    ∙ ap (λ s. exponent (f (fraction s))) digits
    ∙ ap (λ s. exponent (f s)) (fraction-ends p rest ends)
    ∙ ap exponent (suffix-ends p rest ends)
    ∙ exponent-ends p rest ends

letter_next :
    (c d : ℕ) (l : List ℕ) (pos : ℕ)
    → radix_digits d ≡ none
    → prefix_of (at pos (c ∷ d ∷ l)) ≡ plain_number
unfolding prefix_of
letter_next c d l pos h = elim (Bool-cases (c == b'0')) [
  | inl z ↦ rw (z, h, prefix_of) refl
  | inr other ↦ rw (other, prefix_of) refl
]

prefix_of-digits :
    (pos c : ℕ) (ds rest : List ℕ)
    → All IsDigit ds
    → EndsNumber rest
    → prefix_of (at pos (c ∷ ds ++ rest)) ≡ plain_number
unfolding prefix_of is_digit is_alpha radix_digits
prefix_of-digits pos c [] [] all ends = refl
prefix_of-digits pos c [] (d ∷ rest) all ends = letter_next c d rest pos (ground (arith, ends))
prefix_of-digits pos c (d ∷ ds) rest all ends =
    letter_next c d (ds ++ rest) pos (ground (arith, all.0))

and-false : (b : Bool) → (b && false) ≡ false
and-false true = refl
and-false false = refl

abbrev pub digits_token : Tokenizer → ℕ → ℕ → Token
digits_token t pos count = record {
  kind = if t.skip_type_check then const else number;
  start = some pos;
  length = count;
  pos = pos;
}

pub valid_number-digits :
    (t : Tokenizer) (pos c : ℕ) (ds rest : List ℕ) (out : Token)
    → is_digit c ≡ true
    → All IsDigit ds
    → EndsNumber rest
    → valid_number (record t { s = at pos (c ∷ ds ++ rest) }) out
      ≡ (record t { s = at (suc pos + length ds) rest }, digits_token t pos (suc (length ds)), true)
unfolding valid_number read_number read_with scan_peek scan_eof starts_number
valid_number-digits t pos c ds rest out h all ends =
    let point : (c == b'.') ≡ false = unfold is_digit in ground (arith, h) in
    let minus : (c == b'-') ≡ false = unfold is_digit in ground (arith, h) in
    let len : suc pos + length ds - pos ≡ suc (length ds) = omega arith in
    rw
      (
        prefix_of-digits pos c ds rest all ends,
        read_with,
        number_end-digits pos c ds rest h all ends,
        point,
        minus,
        h,
        len,
        and-false (suc (length ds) == 1),
      )
      refl

pub identifier-digit :
    (t : Tokenizer) (c : ℕ)
    → t.custom_valid_identifier ≡ none
    → is_digit c ≡ true
    → valid_identifier t true c ≡ false
unfolding valid_identifier default_valid_identifier is_alpha is_digit
identifier-digit t c custom h = rw custom (ground (arith, h))
