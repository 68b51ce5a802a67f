-- ===== src/Prelude/Int.antt =====
-- The results of type `int` that may be negative, over the native numbers.
use Prim.Native.Nat.{ℕ, suc, ◌-◌}
use mathlib.Core.Bool.{Bool, true, false}
use mathlib.Core.Path.{◌≡◌, refl}
use native.Mathlib.Omega.{arith}
use redlib.Prelude.Tests.{ltb, leb, if◌then◌else◌}

-- `negsuc n` is -(n + 1).
pub data ℤ : Type 0 where
  pos : ℕ → ℤ
  negsuc : ℕ → ℤ

-- a - b, as an integer.
abbrev pub sub_ℕ : ℕ → ℕ → ℤ
sub_ℕ a b = if leb b a then pos (a - b) else negsuc (b - a - 1)

abbrev pub neg : ℤ → ℤ
neg (pos n) = sub_ℕ 0 n
neg (negsuc n) = pos (suc n)

pub neg-sub_ℕ : (a b : ℕ) → neg (sub_ℕ a b) ≡ sub_ℕ b a
neg-sub_ℕ a b = ground arith

pub sub_ℕ-zero : (a b : ℕ) → sub_ℕ a b ≡ pos 0 → a ≡ b
sub_ℕ-zero a b h = ground arith

unfoldable pub ltb_ℤ : ℤ → ℤ → Bool
ltb_ℤ (pos m) (pos n) = ltb m n
ltb_ℤ (pos m) (negsuc n) = false
ltb_ℤ (negsuc m) (pos n) = true
ltb_ℤ (negsuc m) (negsuc n) = ltb n m

pub ltb_ℤ-asym : (a b : ℤ) → ltb_ℤ a b ≡ true → ltb_ℤ b a ≡ false
unfolding ltb_ℤ
ltb_ℤ-asym (pos m) (pos n) h = ground (arith, h)
ltb_ℤ-asym (pos m) (negsuc n) h = absurd (cc h)
ltb_ℤ-asym (negsuc m) (pos n) h = refl
ltb_ℤ-asym (negsuc m) (negsuc n) h = ground (arith, h)

-- What is not below goes on.
pub ltb_ℤ-trans : (a b c : ℤ) → ltb_ℤ b a ≡ false → ltb_ℤ c b ≡ false → ltb_ℤ c a ≡ false
unfolding ltb_ℤ
ltb_ℤ-trans (pos m) (pos n) (pos k) h g = ground (arith, h, g)
ltb_ℤ-trans (pos m) (pos n) (negsuc k) h g = absurd (cc g)
ltb_ℤ-trans (pos m) (negsuc n) c h g = absurd (cc h)
ltb_ℤ-trans (negsuc m) b (pos k) h g = refl
ltb_ℤ-trans (negsuc m) (pos n) (negsuc k) h g = absurd (cc g)
ltb_ℤ-trans (negsuc m) (negsuc n) (negsuc k) h g = ground (arith, h, g)
