-- ===== src/Tokenizer/Advance.antt =====
-- Every reader moves the scanner forward over the bytes of its token.
use mathlib.Core.Path.{subst}
use redlib.Prelude.{
  ℕ, suc, ◌≡◌, ◌<◌, Bool, true, ◌&&◌, ◌||◌, List, [], ◌∷◌, Option, none, some, All, length, arith,
  if◌then◌else◌, ◌==◌, Bool-cases, inl, inr, Option-cases,
}
use redlib.Scanner.{Scanner, behind, while_from, scan_while, match_from}
use redlib.Scanner.Ahead.{
  IsAhead, ahead_refl, ahead_trans, ahead_one, while_from-IsAhead, Moves, one-Moves,
  match_from-IsAhead,
}
use redlib.Numbers.{is_digit}
use redlib.Strings.{tolower}
use redlib.Tokenizer.NumberToken.{
  starts_number, optional, radix_digits, radix_number, fraction, exponent, number_end, Prefix,
  plain_number, radix, prefix_of,
}
use redlib.Tokenizer.Read.{
  StringMode, end_scanner, string_step, is_between, string_from, first_op, short_op,
}

abbrev pub at : ℕ → List ℕ → Scanner
at pos rest = record { pos = pos; rest = rest }

optional-IsAhead :
    (test : ℕ → Bool) (pos : ℕ) (rest : List ℕ)
    → IsAhead (at pos rest) (optional test (at pos rest))
unfolding optional
optional-IsAhead test pos [] = ahead_refl _
optional-IsAhead test pos (c ∷ rest) = elim (Bool-cases (test c)) [
  | inl go ↦ rw go (ahead_one pos c rest)
  | inr stop ↦ rw stop (ahead_refl _)
]

fraction-IsAhead : (pos : ℕ) (rest : List ℕ) → IsAhead (at pos rest) (fraction (at pos rest))
unfolding fraction
fraction-IsAhead pos [] = ahead_refl _
fraction-IsAhead pos (c ∷ rest) = elim (Bool-cases (c == b'.')) [
  | inl point ↦
      rw point (ahead_trans (ahead_one pos c rest) (while_from-IsAhead is_digit (suc pos) rest))
  | inr other ↦ rw other (ahead_refl _)
]

-- One of two scanners, by a test on the next byte of a third.
if_next-IsAhead :
    (test : ℕ → Bool) (s s' : Scanner) (next : List ℕ)
    → IsAhead s s'
    → IsAhead s (elim next [ [] ↦ s | d ∷ _ ↦ if test d then s' else s ])
if_next-IsAhead test s s' [] h = ahead_refl s
if_next-IsAhead test s s' (d ∷ next) h = elim (Bool-cases (test d)) [
  | inl go ↦ rw go h
  | inr stop ↦ rw stop (ahead_refl s)
]

exponent-IsAhead : (pos : ℕ) (rest : List ℕ) → IsAhead (at pos rest) (exponent (at pos rest))
unfolding exponent
exponent-IsAhead pos [] = ahead_refl _
exponent-IsAhead pos (c ∷ rest) =
    let sign = λ (d : ℕ). d == b'+' || d == b'-' in
    let signed = optional sign (behind pos rest) in
    let start = ahead_trans (ahead_one pos c rest) (optional-IsAhead sign (suc pos) rest) in
    elim (Bool-cases (c == b'e' || c == b'E')) [
      | inl letter ↦ rw letter (
          if_next-IsAhead is_digit (at pos (c ∷ rest)) (scan_while is_digit signed) signed.rest
            (ahead_trans start (while_from-IsAhead is_digit signed.pos signed.rest)))
      | inr other ↦ rw other (ahead_refl _)
    ]

-- The parts of a number behind its sign, behind its digits, and behind its point.
after_fraction : (s : Scanner) → IsAhead s (exponent (optional (λ c. tolower c == b'f') s))
after_fraction s =
    let s' = optional (λ c. tolower c == b'f') s in
    ahead_trans (optional-IsAhead _ s.pos s.rest) (exponent-IsAhead s'.pos s'.rest)

after_whole : (s : Scanner) → IsAhead s (exponent (optional (λ c. tolower c == b'f') (fraction s)))
after_whole s = ahead_trans (fraction-IsAhead s.pos s.rest) (after_fraction (fraction s))

after_sign :
    (s : Scanner)
    → IsAhead s (exponent (optional (λ c. tolower c == b'f') (fraction (scan_while is_digit s))))
after_sign s =
    ahead_trans (while_from-IsAhead is_digit s.pos s.rest) (after_whole (scan_while is_digit s))

-- A number that starts with a sign, a point or a digit is at least one byte long.
pub number_end-Moves :
    (pos c : ℕ) (rest : List ℕ)
    → starts_number c ≡ true
    → Moves (at pos (c ∷ rest)) (number_end (at pos (c ∷ rest)))
unfolding starts_number number_end while_from
number_end-Moves pos c rest h = elim (Bool-cases (c == b'-')) [
  | inl minus ↦ rw minus (one-Moves pos c rest _ (after_sign (behind pos rest)))
  | inr plain ↦ elim (Bool-cases (is_digit c)) [
    | inl digit ↦ rw (plain, digit) (one-Moves pos c rest _ (after_sign (behind pos rest)))
    | inr other ↦
        let point : (c == b'.') ≡ true = ground (arith, h, plain, other) in
        let digits = while_from-IsAhead is_digit (suc pos) rest in
        rw (plain, other, point)
          (one-Moves pos c rest _
            (ahead_trans digits (after_fraction (while_from is_digit (suc pos) rest))))
  ]
]

-- A prefix that announces digits has been read over.
abbrev pub IsPrefix : Scanner → Prefix → Type 0
IsPrefix s plain_number = Unit
IsPrefix s (radix digit s') = IsAhead s s'

pub prefix_of-IsPrefix :
    (pos : ℕ) (rest : List ℕ) → IsPrefix (at pos rest) (prefix_of (at pos rest))
unfolding prefix_of
prefix_of-IsPrefix pos [] = tt
prefix_of-IsPrefix pos (c ∷ []) = tt
prefix_of-IsPrefix pos (c ∷ d ∷ rest) = elim (Bool-cases (c == b'0')) [
  | inl zero_digit ↦ rw zero_digit (by_letter (radix_digits d))
  | inr other ↦ rw other tt
]
  where
    by_letter :
        (digits : Option (ℕ → Bool))
        → IsPrefix
            (at pos (c ∷ d ∷ rest))
            (elim digits [ none ↦ plain_number | some digit ↦ radix digit (behind (suc pos) rest) ])
    by_letter none = tt
    by_letter (some digit) = ahead_trans (ahead_one pos c (d ∷ rest)) (ahead_one (suc pos) d rest)

pub radix_number-Moves :
    (digit : ℕ → Bool) (pos : ℕ) (rest : List ℕ) (s' : Scanner)
    → radix_number digit (at pos rest) ≡ some s'
    → Moves (at pos rest) s'
unfolding radix_number
radix_number-Moves digit pos [] s' h = absurd (cc h)
radix_number-Moves digit pos (c ∷ rest) s' h = elim (Bool-cases (digit c)) [
  | inl good ↦
      let e : while_from digit (suc pos) rest ≡ s' = cc (rw good at h) in
      subst (Moves (at pos (c ∷ rest))) e
        (one-Moves pos c rest _ (while_from-IsAhead digit (suc pos) rest))
  | inr bad ↦ absurd (cc (h, bad))
]

pub string_from-IsAhead :
    (mode : StringMode) (pos : ℕ) (rest : List ℕ)
    → IsAhead (at pos rest) (end_scanner (string_from mode pos rest))
unfolding string_from
string_from-IsAhead mode pos [] = ahead_refl _
string_from-IsAhead mode pos (c ∷ rest) = elim (Bool-cases (is_between mode && c == b'"')) [
  | inl quote ↦ rw quote (ahead_one pos c rest)
  | inr other ↦ elim (Option-cases (string_step mode c)) [
    | inl gives_up ↦ rw (other, gives_up) (ahead_one pos c rest)
    | inr (mode', e) ↦
        rw (other, e)
          (ahead_trans (ahead_one pos c rest) (string_from-IsAhead mode' (suc pos) rest))
  ]
]

abbrev pub IsLong : List ℕ → Type 0
IsLong op = 0 < length op

pub first_op-Moves :
    (ops : List (List ℕ)) (s s' : Scanner) → All IsLong ops → first_op ops s ≡ some s' → Moves s s'
unfolding first_op
first_op-Moves [] s s' long h = absurd (cc h)
first_op-Moves (op ∷ ops) s s' long h = elim (Option-cases (match_from op s.pos s.rest)) [
  | inl missing ↦ first_op-Moves ops s s' long.1 (rw (missing, first_op) at h)
  | inr (s'', e) ↦
      let (ahead, far) = match_from-IsAhead op s.pos s.rest s'' e in
      let same : s'' ≡ s' = cc (rw (e, first_op) at h) in
      subst (Moves s) same (record { ahead = ahead; more = omega (arith, far, long.0) })
]

pub short_op-Moves :
    (expected : Bool) (pos : ℕ) (rest : List ℕ) (s' : Scanner)
    → short_op expected (at pos rest) ≡ some s'
    → Moves (at pos rest) s'
unfolding short_op
short_op-Moves expected pos [] s' h = absurd (cc h)
short_op-Moves expected pos (c ∷ rest) s' h =
    let e : behind pos rest ≡ s' = ground (arith, h) in
    subst (Moves (at pos (c ∷ rest))) e (one-Moves pos c rest _ (ahead_refl _))
