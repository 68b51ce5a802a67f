-- ===== src/Numbers/Decimal.antt =====
-- `u64_to_dec` and `parse_int_u64`.
use mathlib.Core.List.{reverse, reverse-cons, append-nil, append_assoc}
use native.Mathlib.Nat.{pow-suc}
use redlib.Prelude.{
  ℕ, zero, suc, ◌+◌, ◌-◌, ◌*◌, ◌/◌, ◌%◌, ◌^◌, ◌≤◌, ◌<◌, ◌≡◌, refl, sym, ap, ◌∙◌, true, false, List,
  [], ◌∷◌, ◌++◌, All, All-append, arith, if◌then◌else◌, leb, ◌==◌, Bool-cases, inl, inr, dec_lt,
  ℕ_discrete, ltb, ◌≢◌, u64_mod, add64, mul64, some, none,
}
use redlib.Numbers.{
  is_digit, split_parts, low_digits, padded, padded_parts, u64_to_dec, parse_int_from,
  parse_int_u64, parse_uint32_dec,
}
use redlib.Numbers.Base.{value-base_digits, low_digits-eq-base_digits}
use redlib.Numbers.Value.{value, digit_of, value-append, le-value}

abbrev pub IsDigit : ℕ → Type 0
IsDigit c = is_digit c ≡ true

-- A text that ends, or goes on with no digit.
abbrev pub Stops : List ℕ → Type 0
Stops [] = Unit
Stops (c ∷ s) = is_digit c ≡ false

digit_char : (c : ℕ) → IsDigit c → c - b'0' ≡ digit_of c
unfolding is_digit
digit_char c h = ground arith

pub parse_int_from-value :
    (r : ℕ) (s t : List ℕ)
    → All IsDigit s
    → Stops t
    → value 10 r s < u64_mod
    → parse_int_from r (s ++ t) ≡ value 10 r s
unfolding parse_int_from
parse_int_from-value r [] [] ds stop fits = refl
parse_int_from-value r [] (c ∷ t) ds stop fits = rw stop refl
parse_int_from-value r (c ∷ s) t (d, ds) stop fits =
    let small = le-value 10 (r * 10 + digit_of c) s (omega arith) in
    let same : add64 (mul64 r 10) (c - b'0') ≡ r * 10 + digit_of c =
      omega (arith, digit_char c d, small, fits) in
    rw (d, same) (parse_int_from-value (r * 10 + digit_of c) s t ds stop fits)

value-padded : (n x r : ℕ) → x < 10 ^ n → value 10 r (padded n x) ≡ r * 10 ^ n + x
unfolding padded
value-padded zero x r h = omega arith
value-padded (suc n) x r h =
    let p = pow-suc 10 n in
    let ih = value-padded n (x / 10) r (omega (arith, p)) in
    let scale : r * 10 ^ suc n ≡ r * 10 ^ n * 10 = rw p (grind arith) in
    value-append 10 r (padded n (x / 10)) _ ∙ rw (ih, scale) (ground arith)

padded-All : (n x : ℕ) → All IsDigit (padded n x)
unfolding padded is_digit
padded-All zero x = tt
padded-All (suc n) x =
    All-append IsDigit (padded n (x / 10)) _ (padded-All n (x / 10)) (ground arith, tt)

low_digits-All : (n h : ℕ) → All IsDigit (low_digits n h)
unfolding low_digits is_digit
low_digits-All zero h = tt
low_digits-All (suc n) h = elim (Bool-cases (h / 10 == 0)) [
  | inl done ↦ rw done (ground arith, tt)
  | inr more ↦ rw more (ground arith, low_digits-All n (h / 10))
]

reverse-All : (s : List ℕ) → All IsDigit s → All IsDigit (reverse s)
reverse-All [] h = tt
reverse-All (c ∷ s) h =
    rw (reverse-cons c s) (All-append IsDigit (reverse s) (c ∷ []) (reverse-All s h.1) (h.0, tt))

value-low_digits : (h : ℕ) → h < 10 ^ 10 → value 10 0 (reverse (low_digits 10 h)) ≡ h
value-low_digits h small =
    rw (low_digits-eq-base_digits 10 h)
      (value-base_digits 10 10 h (omega arith) (omega arith) small)

-- The parts, last one first, and the number that they stand for behind `r`.
abbrev joined : ℕ → List ℕ → ℕ
joined r [] = r
joined r (x ∷ xs) = joined (r * 1000000000 + x) xs

value-padded_parts :
    (r : ℕ) (xs : List ℕ)
    → All (λ x. x < 1000000000) xs
    → value 10 r (padded_parts xs) ≡ joined r xs
unfolding padded_parts
value-padded_parts r [] h = refl
value-padded_parts r (x ∷ xs) h =
    value-append 10 r (padded 9 x) (padded_parts xs)
    ∙ rw (value-padded 9 x r h.0) (value-padded_parts (r * 1000000000 + x) xs h.1)

padded_parts-All : (xs : List ℕ) → All IsDigit (padded_parts xs)
unfolding padded_parts
padded_parts-All [] = tt
padded_parts-All (x ∷ xs) =
    All-append IsDigit (padded 9 x) (padded_parts xs) (padded-All 9 x) (padded_parts-All xs)

split_more :
    (n v : ℕ) (parts : List ℕ)
    → 1000000000 ≤ v
    → split_parts (suc n) v parts ≡ split_parts n (v / 1000000000) ((v % 1000000000) ∷ parts)
unfolding split_parts
split_more n v parts h =
    let test : leb 1000000000 v ≡ true = ground arith in
    let part : (v - v / 1000000000 * 1000000000) % 2 ^ 32 ≡ v % 1000000000 = omega arith in
    rw (test, part) refl

split_done : (n v : ℕ) (parts : List ℕ) → v < 1000000000 → split_parts n v parts ≡ (parts, v)
unfolding split_parts
split_done zero v parts h = refl
split_done (suc n) v parts h = let test : leb 1000000000 v ≡ false = ground arith in rw test refl

abbrev IsSplit : ℕ → List ℕ × ℕ → Type 0
IsSplit v (parts, top) =
    (top < 1000000000) × All (λ x. x < 1000000000) parts × (joined top parts ≡ v)

-- Two parts are enough for 64 bits.
split_parts-IsSplit : (v : ℕ) → v < u64_mod → IsSplit v (split_parts 3 v [])
split_parts-IsSplit v fits = elim (dec_lt v 1000000000) [
  | yes small ↦ rw (split_done 3 v [] small) (small, tt, refl)
  | no large ↦ elim (dec_lt (v / 1000000000) 1000000000) [
    | yes small ↦
        rw (split_more 2 v [] (omega arith), split_done 2 (v / 1000000000) _ small)
          (small, (omega arith, tt), omega arith)
    | no larger ↦
        rw
          (
            split_more 2 v [] (omega arith),
            split_more 1 (v / 1000000000) _ (omega arith),
            split_done 1 (v / 1000000000 / 1000000000) _ (omega arith),
          )
          (omega arith, (omega arith, (omega arith, tt)), omega arith)
  ]
]

-- The digits that `u64_to_dec` writes stand for the number.
pub value-u64_to_dec : (v : ℕ) → v < u64_mod → value 10 0 (u64_to_dec v) ≡ v
unfolding u64_to_dec
value-u64_to_dec v fits =
    let (small, parts, whole) = split_parts-IsSplit v fits in
    let top = (split_parts 3 v []).1 in
    let same : top % 2 ^ 32 ≡ top = omega (arith, small) in
    value-append 10 0 (reverse (low_digits 10 (top % 2 ^ 32))) (padded_parts (split_parts 3 v []).0)
    ∙ rw (same, value-low_digits top (omega (arith, small)))
        (value-padded_parts top (split_parts 3 v []).0 parts ∙ whole)

pub u64_to_dec-All : (v : ℕ) → All IsDigit (u64_to_dec v)
unfolding u64_to_dec
u64_to_dec-All v =
    All-append IsDigit (reverse (low_digits 10 ((split_parts 3 v []).1 % 2 ^ 32))) _
      (reverse-All (low_digits 10 ((split_parts 3 v []).1 % 2 ^ 32)) (low_digits-All 10 _))
      (padded_parts-All (split_parts 3 v []).0)

append-cons : (a : List ℕ) (c : ℕ) (b : List ℕ) → (x : ℕ) × (xs : List ℕ) × (a ++ c ∷ b ≡ x ∷ xs)
append-cons [] c b = (c, b, refl)
append-cons (x ∷ a) c b = (x, a ++ c ∷ b, refl)

-- There is at least one digit.
pub u64_to_dec-cons : (v : ℕ) → (c : ℕ) × (ds : List ℕ) × (u64_to_dec v ≡ c ∷ ds)
unfolding u64_to_dec low_digits
u64_to_dec-cons v =
    let (parts, top) = split_parts 3 v [] in
    let h = top % 2 ^ 32 in
    let more = if h / 10 == 0 then [] else low_digits 9 (h / 10) in
    let last = b'0' + h % 10 in
    let (c, ds, e) = append-cons (reverse more) last (padded_parts parts) in
    (
      c,
      ds,
      ap (λ l. l ++ padded_parts parts) (reverse-cons last more)
          ∙ append_assoc (reverse more) (last ∷ []) (padded_parts parts)
          ∙ e,
    )

-- Reading back what `u64_to_dec` writes gives the number, for every number below 2 ^ 64, whatever
-- text follows that does not go on with a digit.
pub parse_int_u64-u64_to_dec :
    (v : ℕ) (rest : List ℕ) → v < u64_mod → Stops rest → parse_int_u64 (u64_to_dec v ++ rest) ≡ v
unfolding parse_int_u64
parse_int_u64-u64_to_dec v rest fits stop =
    parse_int_from-value 0 (u64_to_dec v) rest (u64_to_dec-All v) stop
      (rw (value-u64_to_dec v fits) fits)
    ∙ value-u64_to_dec v fits

zero_text : parse_uint32_dec (u64_to_dec 0) ≡ some 0
unfolding parse_uint32_dec parse_int_u64 u64_to_dec
zero_text = refl

uint32_of_value :
    (s : List ℕ) (v : ℕ)
    → parse_int_u64 s ≡ v
    → v ≢ 0
    → parse_uint32_dec s ≡ (if ltb (2 ^ 32 - 1) v then none else some v)
unfolding parse_uint32_dec
uint32_of_value [] v e pos = absurd (pos (sym e))
uint32_of_value (c ∷ s) v e pos =
    let test : (v == 0) ≡ false = ground (arith, pos) in rw (e, test) refl

-- Of the numbers below 2 ^ 64, as `u64_to_dec` writes them, `parse_uint32_dec` accepts exactly those
-- below 2 ^ 32, and reads each as itself.
pub parse_uint32_dec-u64_to_dec :
    (v : ℕ)
    → v < u64_mod
    → parse_uint32_dec (u64_to_dec v) ≡ (if ltb (2 ^ 32 - 1) v then none else some v)
parse_uint32_dec-u64_to_dec v fits = elim (ℕ_discrete v 0) [
  | yes e ↦ rw e zero_text
  | no pos ↦
      uint32_of_value (u64_to_dec v) v
        (ap parse_int_u64 (sym (append-nil (u64_to_dec v))) ∙ parse_int_u64-u64_to_dec v [] fits tt)
        pos
]
