-- ===== src/Formats/Percent.antt =====
-- `percent_decode`.
use mathlib.Core.List.{append-nil}
use redlib.Prelude.{
  Option-cases, ℕ, ◌+◌, ◌-◌, ◌*◌, ◌%◌, ◌^◌, ◌<◌, ◌≤◌, length, take, ◌≡◌, ◌≢◌, ◌⊎◌, inl, inr, refl,
  sym, ap, ◌∙◌, true, false, List, [], ◌∷◌, ◌++◌, none, some, arith, ◌==◌,
}
use redlib.Prelude.Bits.{bit_or-shifted}
use redlib.Formats.{hex_val, plain, append_byte, decode_from, percent_decode}

-- The characters of a hexadecimal digit: `0` to `9`, `a` to `f` and `A` to `F`.
abbrev pub IsHexDigit : ℕ → ℕ → Type 0
IsHexDigit c h =
    ((h < 10) × (c ≡ b'0' + h))
    ⊎ (((10 ≤ h) × (h < 16) × (c + 10 ≡ b'a' + h)) ⊎ ((10 ≤ h) × (h < 16) × (c + 10 ≡ b'A' + h)))

hex_val-IsHexDigit : (c h : ℕ) → IsHexDigit c h → hex_val c ≡ some h
unfolding hex_val
hex_val-IsHexDigit c h (inl (small, e)) = ground (arith, small, e)
hex_val-IsHexDigit c h (inr (inl (large, small, e))) = ground (arith, large, small, e)
hex_val-IsHexDigit c h (inr (inr (large, small, e))) = ground (arith, large, small, e)

-- The texts that stand for given bytes: each byte as itself, a blank as a plus sign, or any byte as a
-- percent sign and two hexadecimal digits of either case, the high one first.
pub data Encodes : List ℕ → List ℕ → Type 0 where
  done : Encodes [] []
  literal : {s t : List ℕ} (c : ℕ) → c ≢ b'%' → c ≢ b'+' → Encodes s t → Encodes (c ∷ s) (c ∷ t)
  blank : {s t : List ℕ} → Encodes s t → Encodes (b' ' ∷ s) (b'+' ∷ t)
  escape :
      {s t : List ℕ} (d1 d2 h1 h2 : ℕ)
      → IsHexDigit d1 h1
      → IsHexDigit d2 h2
      → Encodes s t
      → Encodes ((h1 * 16 + h2) ∷ s) (b'%' ∷ d1 ∷ d2 ∷ t)

hex_val_lt : (c h : ℕ) → hex_val c ≡ some h → h < 16
unfolding hex_val
hex_val_lt c h e = ground arith

-- A byte other than a percent sign is one step of the loop.
decode_plain :
    (c : ℕ) (t : List ℕ) → c ≢ b'%' → decode_from (c ∷ t) ≡ append_byte (plain c) (decode_from t)
unfolding decode_from
decode_plain c [] h = refl
decode_plain c (d ∷ []) h = refl
decode_plain c (d1 ∷ d2 ∷ t) h = let e : (c == b'%') ≡ false = ground (arith, h) in rw e refl

decode_escape :
    (d1 d2 h1 h2 : ℕ) (t : List ℕ)
    → hex_val d1 ≡ some h1
    → hex_val d2 ≡ some h2
    → decode_from (b'%' ∷ d1 ∷ d2 ∷ t) ≡ append_byte (h1 * 16 + h2) (decode_from t)
unfolding decode_from
decode_escape d1 d2 h1 h2 t e f =
    let sum = bit_or-shifted 4 h1 h2 (hex_val_lt d2 h2 f) in rw (e, f, sum) refl

plain_lem : (c : ℕ) → c ≢ b'+' → plain c ≡ c
unfolding plain
plain_lem c h = ground (arith, h)

plus_lem : plain b'+' ≡ b' '
unfolding plain
plus_lem = refl

-- What stands in front is decoded before the rest.
decode-append :
    {s t : List ℕ} (u : List ℕ)
    → Encodes s t
    → decode_from (t ++ u) ≡ ((decode_from u).0, s ++ (decode_from u).1)
decode-append u done = refl
decode-append u (literal {s} {t} c a b e) =
    rw (decode_plain c (t ++ u) a, decode-append u e, plain_lem c b) refl
decode-append u (blank {s} {t} e) =
    rw (decode_plain b'+' (t ++ u) (omega arith), decode-append u e, plus_lem) refl
decode-append u (escape {s} {t} d1 d2 h1 h2 a b e) =
    let high = hex_val-IsHexDigit d1 h1 a in
    let low = hex_val-IsHexDigit d2 h2 b in
    rw (decode_escape d1 d2 h1 h2 (t ++ u) high low, decode-append u e) refl

take_all : (l : List ℕ) → take (length l) l ≡ l
take_all [] = refl
take_all (x ∷ l) = ap (λ r. x ∷ r) (take_all l)

whole : (l : List ℕ) → length l < 2 ^ 32 → take (length l % 2 ^ 32) l ≡ l
whole l h = let e : length l % 2 ^ 32 ≡ length l = omega (arith, h) in rw e (take_all l)

-- Every text of fewer than 2 ^ 32 - 1 bytes that stands for given bytes is decoded to them.
pub percent_decode-Encodes :
    (s t : List ℕ) → Encodes s t → length t < 2 ^ 32 - 1 → percent_decode t ≡ (true, s)
unfolding percent_decode decode_from
percent_decode-Encodes s t e h =
    ap decode_from (whole t (omega (arith, h)) ∙ sym (append-nil t))
    ∙ decode-append [] e
    ∙ ap (λ (out : List ℕ). (true, out)) (append-nil s)

malformed :
    (d1 d2 : ℕ) (rest : List ℕ)
    → (hex_val d1 ≡ none) ⊎ (hex_val d2 ≡ none)
    → decode_from (b'%' ∷ d1 ∷ d2 ∷ rest) ≡ (false, [])
unfolding decode_from
malformed d1 d2 rest (inl e) = rw e refl
malformed d1 d2 rest (inr e) = elim (Option-cases (hex_val d1)) [
  | inl f ↦ rw f refl
  | inr (h, f) ↦ rw (f, e) refl
]

-- In a text of fewer than 2 ^ 32 - 1 bytes a percent sign with two more bytes that are not both
-- hexadecimal digits is refused, with the bytes in front of it appended.
pub percent_decode_malformed :
    (s t rest : List ℕ) (d1 d2 : ℕ)
    → Encodes s t
    → (hex_val d1 ≡ none) ⊎ (hex_val d2 ≡ none)
    → length (t ++ b'%' ∷ d1 ∷ d2 ∷ rest) < 2 ^ 32 - 1
    → percent_decode (t ++ b'%' ∷ d1 ∷ d2 ∷ rest) ≡ (false, s)
unfolding percent_decode
percent_decode_malformed s t rest d1 d2 e bad h =
    ap decode_from (whole (t ++ b'%' ∷ d1 ∷ d2 ∷ rest) (omega (arith, h)))
    ∙ decode-append (b'%' ∷ d1 ∷ d2 ∷ rest) e
    ∙ rw (malformed d1 d2 rest bad) (ap (λ (out : List ℕ). (false, out)) (append-nil s))
