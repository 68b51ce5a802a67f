-- ===== src/Checksums/Fold.antt =====
-- The folded sum: the remainder of the sum by 65535, with 65535 in place of 0.
use redlib.Prelude.{
  ℕ, zero, suc, ◌+◌, ◌-◌, ◌*◌, ◌/◌, ◌%◌, ◌^◌, ◌≡◌, ◌≤◌, ◌<◌, arith, ◌==◌, Bool-cases, inl, inr,
}
use redlib.Checksums.{add32, fold_carry, complement}

-- Rounds enough for sums below a bound.
abbrev enough : ℕ → ℕ
enough zero = 65536
enough (suc zero) = 65536
enough (suc (suc zero)) = 131071
enough (suc (suc (suc n))) = 4294967296

pub record IsFolded (sum f : ℕ) : Type 0 where
  pub times : ℕ
  pub same : sum ≡ f + 65535 * times
  pub small : f ≤ 65535
  pub kept : 0 < sum → 0 < f

fold_carry-IsFolded : (rounds sum : ℕ) → sum < enough rounds → IsFolded sum (fold_carry rounds sum)
unfolding fold_carry
fold_carry-IsFolded zero sum h = record {
  times = 0;
  same = omega arith;
  small = omega arith;
  kept = λ p. p;
}
fold_carry-IsFolded (suc rounds) sum h = elim (Bool-cases (sum / 2 ^ 16 == 0)) [
  | inl done ↦
      rw done
        (record { times = 0; same = omega arith; small = ground (arith, done); kept = λ p. p })
  | inr more ↦
      let big : 0 < sum / 2 ^ 16 = ground (arith, more) in
      let next = sum % 2 ^ 16 + sum / 2 ^ 16 in
      let below = smaller rounds h in
      let cast : add32 (sum % 2 ^ 16) (sum / 2 ^ 16) ≡ next = omega (arith, below) in
      let ih = fold_carry-IsFolded rounds next (within rounds h big) in
      rw (more, cast)
        (record {
          times = ih.times + sum / 2 ^ 16;
          same = omega (arith, ih.same);
          small = ih.small;
          kept = λ p. ih.kept (omega (arith, big));
        })
]
  where
    smaller : (rounds : ℕ) → sum < enough (suc rounds) → sum < 2 ^ 32
    smaller zero h = omega arith
    smaller (suc zero) h = omega arith
    smaller (suc (suc n)) h = omega arith

    within :
        (rounds : ℕ)
        → sum < enough (suc rounds)
        → 0 < sum / 2 ^ 16
        → sum % 2 ^ 16 + sum / 2 ^ 16 < enough rounds
    within zero h big = absurd (omega (arith, h, big))
    within (suc zero) h big = omega (arith, h, big)
    within (suc (suc zero)) h big = omega (arith, h, big)
    within (suc (suc (suc n))) h big = omega (arith, h, big)

-- The loop ends within the rounds given to it, and the complement is that of the folded sum.
pub complement-IsFolded :
    (sum : ℕ)
    → sum < 2 ^ 32
    → (complement sum ≡ 65535 - fold_carry 3 sum) × IsFolded sum (fold_carry 3 sum)
unfolding complement
complement-IsFolded sum h =
    let f = fold_carry-IsFolded 3 sum (omega arith) in (omega (arith, f.small), f)
