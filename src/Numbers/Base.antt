-- ===== src/Numbers/Base.antt =====
-- The digits that are written last first and reversed, and `u64_to_base`.
use mathlib.Core.List.{reverse, reverse-cons}
use native.Mathlib.Nat.{pow-zero, pow-suc, mod-lt, pow-le-pow_left, div-add-mod'}
use redlib.Prelude.{
  ℕ, zero, suc, ◌+◌, ◌*◌, ◌/◌, ◌%◌, ◌^◌, ◌≤◌, ◌<◌, ◌≡◌, ◌⊎◌, refl, ap, ◌∙◌, Bool, true, false, List,
  [], ◌∷◌, arith, if◌then◌else◌, ◌==◌, Bool-cases, inl, inr, u64_mod,
}
use redlib.Numbers.{hex_digit, base_digits, low_digits, groups, or_zero, u64_to_base}
use redlib.Numbers.Value.{digit_of, value, value-append, value-groups}

pub digit_of-hex_digit : (upper : Bool) (d : ℕ) → d < 16 → digit_of (hex_digit upper d) ≡ d
unfolding hex_digit
digit_of-hex_digit true d h = ground arith
digit_of-hex_digit false d h = ground arith

value-reverse_cons :
    (base x : ℕ) (s : List ℕ)
    → value base 0 (reverse (x ∷ s)) ≡ value base 0 (reverse s) * base + digit_of x
value-reverse_cons base x s = rw (reverse-cons x s) (value-append base 0 (reverse s) (x ∷ []))

-- Enough rounds write the whole number.
pub value-base_digits :
    (base n v : ℕ)
    → 1 < base
    → base ≤ 16
    → v < base ^ n
    → value base 0 (reverse (base_digits base n v)) ≡ v
unfolding base_digits
value-base_digits base zero v two small h = omega (arith, pow-zero base)
value-base_digits base (suc n) v two small h =
    value-reverse_cons base (hex_digit false (v % base))
      (if v / base == 0 then [] else base_digits base n (v / base))
    ∙ rw last (elim (Bool-cases (v / base == 0)) [
      | inl done ↦
          let none_left : v / base ≡ 0 = ground (arith, done) in
          rw done (omega (arith, whole, ap (λ (q : ℕ). q * base) none_left))
      | inr more ↦ rw (more, value-base_digits base n (v / base) two small next) whole
    ])
  where
    last : digit_of (hex_digit false (v % base)) ≡ v % base
    last = digit_of-hex_digit false (v % base) (omega (arith, mod-lt v {m = base} (omega arith)))

    whole : v / base * base + v % base ≡ v
    whole = div-add-mod' v base

    next : v / base < base ^ n
    next = grind (arith, pow-suc base n, whole)

pub low_digits-eq-base_digits : (n h : ℕ) → low_digits n h ≡ base_digits 10 n h
unfolding low_digits base_digits hex_digit
low_digits-eq-base_digits zero h = refl
low_digits-eq-base_digits (suc n) h = ground (arith, low_digits-eq-base_digits n (h / 10))

value-or_zero : (base : ℕ) (s : List ℕ) → value base 0 (or_zero s) ≡ value base 0 s
unfolding or_zero
value-or_zero base [] = omega arith
value-or_zero base (c ∷ s) = refl

module _ (v : ℕ) (fits : v < u64_mod) (upper : Bool) where
  value-hex : value 16 0 (or_zero (groups 4 (hex_digit upper) 16 false v)) ≡ v
  value-hex =
      value-or_zero 16 _
      ∙ value-groups 4 (hex_digit upper) (digit_of-hex_digit upper) 16 v 0 false (omega arith)
          (λ _. refl)

  digit_below_8 : (d : ℕ) → d < 8 → digit_of (b'0' + d) ≡ d
  digit_below_8 d h = ground arith

  value-octal : value 8 0 (or_zero (groups 3 (λ d. b'0' + d) 22 false v)) ≡ v
  value-octal =
      value-or_zero 8 _
      ∙ value-groups 3 (λ d. b'0' + d) digit_below_8 22 v 0 false (omega arith) (λ _. refl)

  value-binary : value 2 0 (or_zero (groups 1 (λ d. b'0' + d) 64 false v)) ≡ v
  value-binary =
      value-or_zero 2 _
      ∙ value-groups 1 (λ d. b'0' + d) (λ d h. digit_below_8 d (omega arith)) 64 v 0 false
          (omega arith) (λ _. refl)

  u64_to_base_cases :
      (base : ℕ)
      → ((base ≡ 16) × (u64_to_base v base upper ≡ or_zero (groups 4 (hex_digit upper) 16 false v)))
        ⊎ ((base ≡ 8) × (u64_to_base v base upper ≡ or_zero (groups 3 (λ d. b'0' + d) 22 false v)))
        ⊎ ((base ≡ 2) × (u64_to_base v base upper ≡ or_zero (groups 1 (λ d. b'0' + d) 64 false v)))
        ⊎ (u64_to_base v base upper ≡ reverse (base_digits base 65 v))
  unfolding u64_to_base
  u64_to_base_cases base = elim (Bool-cases (base == 16)) [
    | inl a ↦ inl (ground (arith, a), rw a refl)
    | inr a ↦ elim (Bool-cases (base == 8)) [
      | inl b ↦ inr (inl (ground (arith, b), rw (a, b) refl))
      | inr b ↦ elim (Bool-cases (base == 2)) [
        | inl c ↦ inr (inr (inl (ground (arith, c), rw (a, b, c) refl)))
        | inr c ↦ inr (inr (inr (rw (a, b, c) refl)))
      ]
    ]
  ]

  -- A number below 2 ^ 64, written by `u64_to_base` in one of the bases 2 to 16, stands for itself.
  pub value-u64_to_base :
      (base : ℕ) → 1 < base → base ≤ 16 → value base 0 (u64_to_base v base upper) ≡ v
  value-u64_to_base base two small = elim (u64_to_base_cases base) [
    | inl (e, is_hex) ↦ rw (is_hex, e) value-hex
    | inr (inl (e, is_octal)) ↦ rw (is_octal, e) value-octal
    | inr (inr (inl (e, is_binary))) ↦ rw (is_binary, e) value-binary
    | inr (inr (inr other)) ↦
        let room : 2 ^ 65 ≤ base ^ 65 = pow-le-pow_left {n = 2} {m = base} (omega arith) 65 in
        rw other (value-base_digits base 65 v two small (omega (arith, room)))
  ]
