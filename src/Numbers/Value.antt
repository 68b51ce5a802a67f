-- ===== src/Numbers/Value.antt =====
-- The number that a text of digits stands for, and the digits that the loops over bits write.
use native.Mathlib.Nat.{div-div-eq-div-mul, pow-suc, mod-lt, one-le-pow, div-add-mod'}
use redlib.Prelude.{
  ℕ, zero, suc, ◌+◌, ◌-◌, ◌*◌, ◌/◌, ◌^◌, ◌≤◌, ◌<◌, ◌≡◌, refl, sym, ap, ◌∙◌, Bool, true, false, not,
  ◌||◌, List, [], ◌∷◌, ◌++◌, All, arith, if◌then◌else◌, leb, ◌==◌, bit_and, Bool-cases, inl, inr,
}
use redlib.Prelude.Bits.{bit_and-mask}
use redlib.Numbers.{groups, figures}

-- The digit that a character stands for: 0 to 9, A to F or a to f.
abbrev pub digit_of : ℕ → ℕ
digit_of c = if leb c b'9' then c - b'0' else if leb c b'F' then c - b'A' + 10 else c - b'a' + 10

-- The number that `r`, followed by the digits of a text, stands for.
abbrev pub value : ℕ → ℕ → List ℕ → ℕ
value base r [] = r
value base r (c ∷ s) = value base (r * base + digit_of c) s

pub value-append :
    (base r : ℕ) (s t : List ℕ) → value base r (s ++ t) ≡ value base (value base r s) t
value-append base r [] t = refl
value-append base r (c ∷ s) t = value-append base (r * base + digit_of c) s t

pub le-value : (base r : ℕ) (s : List ℕ) → 1 ≤ base → r ≤ value base r s
le-value base r [] h = omega arith
le-value base r (c ∷ s) h =
    let step = le-value base (r * base + digit_of c) s h in
    let grows : r ≤ r * base = grind arith in omega (arith, step, grows)

pub pow-add : (m n : ℕ) → 2 ^ (m + n) ≡ 2 ^ m * 2 ^ n
pow-add zero n = let e : 0 + n ≡ n = omega arith in rw e (omega arith)
pow-add (suc m) n =
    let e : suc m + n ≡ suc (m + n) = omega arith in
    rw (e, pow-suc 2 (m + n), pow-suc 2 m, pow-add m n) (grind arith)

-- The bits of `v` from the group with `n` groups below it on.
split_group :
    (bits n v : ℕ)
    → v / 2 ^ (bits * suc n) * 2 ^ bits + bit_and (v / 2 ^ (bits * n)) (2 ^ bits - 1)
      ≡ v / 2 ^ (bits * n)
split_group bits n v =
    let e : bits * suc n ≡ bits * n + bits = grind arith in
    rw
      (
        e,
        pow-add (bits * n) bits,
        ← div-div-eq-div-mul v (2 ^ (bits * n)) (2 ^ bits),
        bit_and-mask bits (v / 2 ^ (bits * n)),
      )
      (div-add-mod' _ _)

group-lt : (bits n v : ℕ) → bit_and (v / 2 ^ (bits * n)) (2 ^ bits - 1) < 2 ^ bits
group-lt bits n v =
    rw (bit_and-mask bits (v / 2 ^ (bits * n)))
      (mod-lt (v / 2 ^ (bits * n)) (one-le-pow bits 2 (omega arith)))

-- Nothing is left below the last group.
whole : (bits v : ℕ) → v / 2 ^ (bits * 0) ≡ v
whole bits v = let e : bits * 0 ≡ 0 = omega arith in rw e (omega arith)

module _ (bits : ℕ) (show : ℕ → ℕ) where
  module _ (shown : (d : ℕ) → d < 2 ^ bits → digit_of (show d) ≡ d) where
    -- A group of zeros in front of all others adds nothing.
    step :
        (n v r : ℕ)
        → r ≡ v / 2 ^ (bits * suc n)
        → r * 2 ^ bits + digit_of (show (bit_and (v / 2 ^ (bits * n)) (2 ^ bits - 1)))
          ≡ v / 2 ^ (bits * n)
    step n v r h = rw (shown _ (group-lt bits n v), h) (split_group bits n v)

    skipped :
        (n v r : ℕ)
        → r ≡ v / 2 ^ (bits * suc n)
        → r ≡ 0
        → bit_and (v / 2 ^ (bits * n)) (2 ^ bits - 1) ≡ 0
        → r ≡ v / 2 ^ (bits * n)
    skipped n v r h none_yet zeros =
        let e = split_group bits n v in
        let f : v / 2 ^ (bits * suc n) * 2 ^ bits ≡ 0 = rw (← h, none_yet) (omega arith) in
        omega (arith, e, f, zeros, none_yet)

    pub value-groups :
        (n v r : ℕ) (started : Bool)
        → r ≡ v / 2 ^ (bits * n)
        → (started ≡ false → r ≡ 0)
        → value (2 ^ bits) r (groups bits show n started v) ≡ v
    unfolding groups
    value-groups zero v r started h lead = h ∙ whole bits v
    value-groups (suc n) v r started h lead =
        elim (Bool-cases (started || not (bit_and (v / 2 ^ (bits * n)) (2 ^ bits - 1) == 0))) [
          | inl on ↦ rw on (value-groups n v _ true (step n v r h) (λ f. cc f))
          | inr off ↦ rw off (
              value-groups n v r false
                (skipped n v r h (lead (ground (arith, off))) (ground (arith, off)))
                (λ _. lead (ground (arith, off))))
        ]

    figure_zero :
        (n v : ℕ)
        → (show (bit_and (v / 2 ^ (bits * n)) (2 ^ bits - 1)) == b'0') ≡ true
        → bit_and (v / 2 ^ (bits * n)) (2 ^ bits - 1) ≡ 0
    figure_zero n v h =
        sym (shown _ (group-lt bits n v)) ∙ ap digit_of {x = show _} {y = b'0'} (ground (arith, h))

    pub value-figures :
        (n v r : ℕ) (started : Bool)
        → r ≡ v / 2 ^ (bits * n)
        → (started ≡ false → r ≡ 0)
        → value (2 ^ bits) r (figures bits show n started v) ≡ v
    unfolding figures
    value-figures zero v r started h lead = h ∙ whole bits v
    value-figures (suc n) v r started h lead =
        elim (Bool-cases
          (started || not (show (bit_and (v / 2 ^ (bits * n)) (2 ^ bits - 1)) == b'0') || n == 0)) [
            | inl on ↦ rw on (value-figures n v _ true (step n v r h) (λ f. cc f))
            | inr off ↦ rw off (
                value-figures n v r false
                  (skipped n v r h (lead (ground (arith, off)))
                    (figure_zero n v (ground (arith, off))))
                  (λ _. lead (ground (arith, off))))
          ]

  module _ {ℓ} (P : ℕ → Type ℓ) (each : (d : ℕ) → d < 2 ^ bits → P (show d)) where
    pub groups-All : (n v : ℕ) (started : Bool) → All P (groups bits show n started v)
    unfolding groups
    groups-All zero v started = tt
    groups-All (suc n) v started =
        elim (Bool-cases (started || not (bit_and (v / 2 ^ (bits * n)) (2 ^ bits - 1) == 0))) [
          | inl on ↦ rw on (each _ (group-lt bits n v), groups-All n v true)
          | inr off ↦ rw off (groups-All n v false)
        ]

    pub figures-All : (n v : ℕ) (started : Bool) → All P (figures bits show n started v)
    unfolding figures
    figures-All zero v started = tt
    figures-All (suc n) v started =
        elim (Bool-cases
          (started || not (show (bit_and (v / 2 ^ (bits * n)) (2 ^ bits - 1)) == b'0') || n == 0)) [
            | inl on ↦ rw on (each _ (group-lt bits n v), figures-All n v true)
            | inr off ↦ rw off (figures-All n v false)
          ]
