-- ===== src/HashMap/Pow2.antt =====
-- `chm_next_pow2`: the shifts and ors fill the bits below the highest one.
use mathlib.Core.Path.{ap}
use native.Mathlib.Nat.{pow-suc, pow-le-pow_right, div-div-eq-div-mul}
use redlib.Prelude.{
  ◌⊎◌, inl, inr, ℕ, zero, suc, ◌+◌, ◌-◌, ◌*◌, ◌/◌, ◌^◌, ◌≤◌, ◌<◌, max, ◌≡◌, refl, ◌∙◌, arith,
  dec_lt, add64, ltb, bit_or, true, false,
}
use redlib.Prelude.Bits.{bit, bit-bit_or}
use redlib.HashMap.{smear, smear_all, next_pow2}

bit-le-one : (i a : ℕ) → bit a i ≤ 1
bit-le-one zero a = omega arith
bit-le-one (suc i) a = bit-le-one i (a / 2)

bit-shift : (s a i : ℕ) → bit (a / 2 ^ s) i ≡ bit a (s + i)
bit-shift zero a i =
    let whole : a / 2 ^ 0 ≡ a = omega arith in
    let same : 0 + i ≡ i = omega arith in rw (whole, same)
bit-shift (suc s) a i = ap (λ t. bit t i) halves ∙ bit-shift s (a / 2) i ∙ ap (bit a) next
  where
    next : suc (s + i) ≡ suc s + i
    next = omega arith

    halves : a / 2 ^ suc s ≡ a / 2 / 2 ^ s
    halves =
        let e : 2 ^ suc s ≡ 2 * 2 ^ s = omega (arith, pow-suc 2 s) in
        rw (e, ← div-div-eq-div-mul a 2 (2 ^ s))

-- The highest bit that is set is bit `t`, and the `n` bits from it down are all set.
record Top (n t z : ℕ) : Type 0 where
  above : (i : ℕ) → t < i → bit z i ≡ 0
  ones : (i : ℕ) → i ≤ t → t < i + n → bit z i ≡ 1

-- One step of smearing makes the run longer by its shift.
smear-Top : (n t z s : ℕ) → Top n t z → s ≤ n → Top (n + s) t (smear s z)
unfolding smear
smear-Top n t z s top h = record {
  above = λ i hi. split i (omega (arith, top.above i hi, top.above (s + i) (omega arith)));
  ones = λ i hi hn. elim (dec_lt t (i + n)) [
    | yes near ↦ split i (omega (arith, top.ones i hi near, bit-le-one (s + i) z))
    | no far ↦ split i (omega (arith, top.ones (s + i) (omega arith) (omega arith), bit-le-one i z))
  ];
}
  where
    split : (i : ℕ) {b : ℕ} → max (bit z i) (bit z (s + i)) ≡ b → bit (bit_or z (z / 2 ^ s)) i ≡ b
    split i e = bit-bit_or i z (z / 2 ^ s) ∙ ap (max (bit z i)) (bit-shift s z i) ∙ e

smear_all-Top : (t z : ℕ) → Top 1 t z → Top 64 t (smear_all z)
unfolding smear_all
smear_all-Top t z top =
    smear-Top 32 t _ 32
      (smear-Top 16 t _ 16
        (smear-Top 8 t _ 8
          (smear-Top 4 t _ 4 (smear-Top 2 t _ 2 (smear-Top 1 t z 1 top (omega arith)) (omega arith))
            (omega arith))
          (omega arith))
        (omega arith))
      (omega arith)

no_bits : (f z : ℕ) → z ≤ f → ((i : ℕ) → bit z i ≡ 0) → z ≡ 0
no_bits f zero h none_set = refl
no_bits zero (suc z) h none_set = absurd (omega arith)
no_bits (suc f) (suc z) h none_set =
    omega (arith, none_set 0, no_bits f (suc z / 2) (omega arith) (λ i. none_set (suc i)))

-- The bits below `n` and no others make `2 ^ n - 1`.
all_bits :
    (n z : ℕ) → ((i : ℕ) → i < n → bit z i ≡ 1) → ((i : ℕ) → n ≤ i → bit z i ≡ 0) → z + 1 ≡ 2 ^ n
all_bits zero z low high = omega (arith, no_bits z z (omega arith) (λ i. high i (omega arith)))
all_bits (suc n) z low high = omega (
  arith,
  pow-suc 2 n,
  low 0 (omega arith),
  all_bits n (z / 2) (λ i h. low (suc i) (omega arith)) (λ i h. high (suc i) (omega arith)),
)

-- Every positive number has a highest bit.
highest : (f z : ℕ) → 0 < z → z ≤ f → (t : ℕ) × Top 1 t z × (2 ^ t ≤ z) × (z < 2 ^ suc t)
highest f zero pos h = absurd (omega arith)
highest zero (suc z) pos h = absurd (omega arith)
highest (suc f) (suc zero) pos h = (
  0,
  record {
    above = λ i. elim i as (λ i. 0 < i → bit 1 i ≡ 0) [
      | zero ↦ λ p. absurd (omega arith)
      | suc i ↦ λ _. zero_bit i
    ];
    ones = λ i p q. let e : i ≡ 0 = omega arith in rw e;
  },
  omega arith,
  omega arith,
)
  where
    zero_bit : (i : ℕ) → bit (1 / 2) i ≡ 0
    zero_bit zero = refl
    zero_bit (suc i) = zero_bit i
highest (suc f) (suc (suc z)) pos h =
    let (t, top, lo, hi) = highest f (suc (suc z) / 2) (omega arith) (omega arith) in
    (
      suc t,
      record { above = above t top; ones = ones t top },
      omega (arith, pow-suc 2 t),
      omega (arith, pow-suc 2 (suc t)),
    )
  where
    above : (t : ℕ) → Top 1 t (suc (suc z) / 2) → (i : ℕ) → suc t < i → bit (suc (suc z)) i ≡ 0
    above t top zero p = absurd (omega arith)
    above t top (suc i) p = top.above i (omega arith)

    ones :
        (t : ℕ)
        → Top 1 t (suc (suc z) / 2)
        → (i : ℕ) → i ≤ suc t
        → suc t < i + 1
        → bit (suc (suc z)) i ≡ 1
    ones t top zero p q = absurd (omega arith)
    ones t top (suc i) p q = top.ones i (omega arith) (omega arith)

-- The exponent of the highest bit of `y`, bounded by what `y` is below, and the other way round.
pub exponent-lt : (t y n : ℕ) → 2 ^ t ≤ y → y < 2 ^ n → t < n
exponent-lt t y n lo hi = elim (dec_lt t n) [
  | yes p ↦ p
  | no p ↦
      let up : 2 ^ n ≤ 2 ^ t = pow-le-pow_right (omega arith) (omega arith) in absurd (omega arith)
]

-- The least power of two that is at least `x` and at least 8.
pub record IsNextPow2 (x p : ℕ) : Type 0 where
  pub exponent : ℕ
  pub power : p ≡ 2 ^ exponent
  pub enough : x ≤ p
  pub least : 8 ≤ p
  pub tight : (p ≡ 8) ⊎ (p < 2 * x)

-- For every argument up to 2 ^ 63 `chm_next_pow2` gives a power of two that is at least 8 and at
-- least the argument, and that is 8 or less than twice the argument.
pub next_pow2_lem : (x : ℕ) → x ≤ 2 ^ 63 → IsNextPow2 x (next_pow2 x)
unfolding next_pow2
next_pow2_lem x h = elim (dec_lt x 8) [
  | yes small ↦ rw (small_test small) (record {
    exponent = 3;
    power = refl;
    enough = omega arith;
    least = omega arith;
    tight = inl refl;
  })
  | no large ↦ rw (large_test large) (big (omega arith))
]
  where
    small_test : x < 8 → ltb x 8 ≡ true
    small_test p = ground arith

    large_test : ¬ (x < 8) → ltb x 8 ≡ false
    large_test p = ground arith

    big : 8 ≤ x → IsNextPow2 x (add64 (smear_all (x - 1)) 1)
    big large =
        let (t, top, lo, hi) = highest (x - 1) (x - 1) (omega arith) (omega arith) in
        let full = smear_all-Top t (x - 1) top in
        let fits : suc t ≤ 63 = exponent-lt t (x - 1) 63 lo (omega arith) in
        let ones : smear_all (x - 1) + 1 ≡ 2 ^ suc t =
          all_bits (suc t) (smear_all (x - 1)) (λ i p. full.ones i (omega arith) (omega arith))
            (λ i p. full.above i (omega arith)) in
        let bound : 2 ^ suc t ≤ 2 ^ 63 = pow-le-pow_right (omega arith) fits in
        let exact : add64 (smear_all (x - 1)) 1 ≡ 2 ^ suc t = omega (arith, ones, bound) in
        rw exact (record {
          exponent = suc t;
          power = refl;
          enough = omega arith;
          least =
              pow-le-pow_right {n = 2} (omega arith) {i = 3}
                (exponent-lt 2 (x - 1) (suc t) (omega arith) hi);
          tight = inr (omega (arith, lo, pow-suc 2 t));
        })
