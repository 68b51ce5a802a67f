-- ===== src/Append/Room.antt =====
-- What the functions leave in a buffer with room.
use mathlib.Core.List.{append-nil, append_assoc}
use redlib.Prelude.{
  ℕ, zero, suc, ◌+◌, ◌-◌, ◌%◌, ◌^◌, ◌<◌, max, Bool-cases, inl, inr, ◌≡◌, ◌≤◌, refl, sym, ap, ◌∙◌,
  min, Bool, true, false, List, [], ◌∷◌, ◌++◌, if◌then◌else◌, ltb, leb, ◌==◌, length, take,
  replicate, length-append, length-replicate, arith, take-nil,
}
use redlib.Prelude.Int.{ℤ, pos, negsuc}
use redlib.Append.{
  Output, append_char, append_strn, append_block, append_repeat, clamped, padding, emit_padded,
}

-- A buffer with room for `n` bytes and the NUL.
abbrev pub roomy : List ℕ → ℕ → Bool → Output
roomy w n t = record { written = w; rem = suc n; truncated = t }

-- As much of a text as there is room for; the flag is set if that is not all.
abbrev pub filled : List ℕ → ℕ → Bool → List ℕ → Output
filled w n t s = record {
  written = w ++ take n s;
  rem = suc (n - length s);
  truncated = if ltb n (length s) then true else t;
}

same_output :
    (w w' : List ℕ) (r r' : ℕ) (t t' : Bool)
    → w ≡ w'
    → r ≡ r'
    → t ≡ t'
    → ◌≡◌ {A = Output}
        (record { written = w; rem = r; truncated = t })
        (record { written = w'; rem = r'; truncated = t' })
same_output w w' r r' t t' e f g = λ i. record { written = e i; rem = f i; truncated = g i }

take-min : (n : ℕ) (s : List ℕ) → take (min (length s) n) s ≡ take n s
take-min zero [] = refl
take-min zero (c ∷ s) = let e : min (suc (length s)) 0 ≡ 0 = omega arith in rw e refl
take-min (suc n) [] = let e : min 0 (suc n) ≡ 0 = omega arith in rw e refl
take-min (suc n) (c ∷ s) =
    let e : min (suc (length s)) (suc n) ≡ suc (min (length s) n) = omega arith in
    rw e (ap (◌∷◌ c) (take-min n s))

append_block-filled :
    (w s : List ℕ) (n : ℕ) (t : Bool) → append_block (roomy w n t) s ≡ filled w n t s
unfolding append_block
append_block-filled w [] n t =
    same_output w (w ++ take n []) (suc n) (suc (n - 0)) t (if ltb n 0 then true else t)
      (sym (rw (take-nil n) (append-nil w))) (omega arith) (ground arith)
append_block-filled w (c ∷ s) zero t =
    same_output w (w ++ []) 1 (suc (0 - suc (length s))) true
      (if ltb 0 (suc (length s)) then true else t) (sym (append-nil w)) (omega arith) (ground arith)
append_block-filled w (c ∷ s) (suc n) t =
    let room : leb (suc (suc n)) 1 ≡ false = ground arith in
    let e : min (suc (length s)) (suc (suc n) - 1) ≡ min (suc (length s)) (suc n) = omega arith in
    rw (room) (
      same_output _ _ _ _ _ _
        (ap (λ k. w ++ take k (c ∷ s)) e ∙ ap (λ u. w ++ u) (take-min (suc n) (c ∷ s)))
        (omega arith) (ground arith))

take-replicate : (j k c : ℕ) → j ≤ k → take j (replicate k c) ≡ replicate j c
take-replicate zero k c h = refl
take-replicate (suc j) zero c h = absurd (omega arith)
take-replicate (suc j) (suc k) c h = ap (◌∷◌ c) (take-replicate j k c (omega arith))

append_repeat-block : (o : Output) (c k : ℕ) → append_repeat o c k ≡ append_block o (replicate k c)
unfolding append_repeat append_block
append_repeat-block o c zero = refl
append_repeat-block o c (suc k) =
    let some_bytes : (suc k == 0) ≡ false = ground arith in
    let part = take-replicate (min (suc k) (o.rem - 1)) (suc k) c (omega arith) in
    rw (append_repeat, some_bytes, length-replicate k c, part) refl

append_strn-filled : (w s : List ℕ) (n : ℕ) → append_strn (roomy w n false) s ≡ filled w n false s
unfolding append_strn append_char
append_strn-filled w [] n =
    same_output w (w ++ take n []) (suc n) (suc (n - 0)) false (if ltb n 0 then true else false)
      (sym (rw (take-nil n) (append-nil w))) (omega arith) (ground arith)
append_strn-filled w (c ∷ s) zero =
    same_output w (w ++ []) 1 (suc (0 - suc (length s))) true
      (if ltb 0 (suc (length s)) then true else false) (sym (append-nil w)) (omega arith)
      (ground arith)
append_strn-filled w (c ∷ s) (suc n) =
    let room : ltb 1 (suc (suc n)) ≡ true = ground arith in
    let left : suc (suc n) - 1 ≡ suc n = omega arith in
    rw (append_strn, append_char, room, left)
      (append_strn-filled (w ++ c ∷ []) s n
        ∙ same_output _ _ _ _ _ _ (append_assoc w (c ∷ []) (take n s)) (omega arith) (ground arith))

-- On a buffer that has room for the NUL and whose flag is not set, writing byte for byte until the
-- flag is set leaves what the copy of a block leaves.
pub append_strn-append_block :
    (w s : List ℕ) (n : ℕ) → append_strn (roomy w n false) s ≡ append_block (roomy w n false) s
append_strn-append_block w s n = append_strn-filled w s n ∙ sym (append_block-filled w s n false)

-- A text behind another one.
take-append : (n : ℕ) (a b : List ℕ) → take n a ++ take (n - length a) b ≡ take n (a ++ b)
take-append zero a b = let e : 0 - length a ≡ 0 = omega arith in rw e refl
take-append (suc n) [] b = let e : suc n - 0 ≡ suc n = omega arith in rw e refl
take-append (suc n) (c ∷ a) b =
    let e : suc n - suc (length a) ≡ n - length a = omega arith in
    rw e (ap (◌∷◌ c) (take-append n a b))

filled-append :
    (w a b : List ℕ) (n : ℕ) (t : Bool)
    → filled (w ++ take n a) (n - length a) (if ltb n (length a) then true else t) b
      ≡ filled w n t (a ++ b)
filled-append w a b n t =
    same_output _ _ _ _ _ _ (append_assoc w (take n a) _ ∙ ap (λ u. w ++ u) (take-append n a b))
      (omega (arith, length-append a b)) (ground (arith, length-append a b))

abbrev pub spaces : ℕ → List ℕ
spaces k = replicate k b' '

-- What is written with `k` spaces, in front or behind.
emit_padded-filled :
    (w buf : List ℕ) (n : ℕ) (t : Bool) (width : ℤ) (flag_minus : Bool)
    → emit_padded (roomy w n t) buf width flag_minus
      ≡ filled w n t (
          if flag_minus
          then buf ++ spaces (padding width (length buf))
          else spaces (padding width (length buf)) ++ buf)
unfolding emit_padded
emit_padded-filled w buf n t width true =
    let pad = padding width (length buf) in
    append_repeat-block _ b' ' pad
    ∙ ap (λ o. append_block o (spaces pad)) (append_block-filled w buf n t)
    ∙ append_block-filled _ (spaces pad) _ _
    ∙ filled-append w buf (spaces pad) n t
emit_padded-filled w buf n t width false =
    let pad = padding width (length buf) in
    ap (λ o. append_block o buf)
      (append_repeat-block (roomy w n t) b' ' pad ∙ append_block-filled w (spaces pad) n t)
    ∙ append_block-filled _ buf _ _
    ∙ filled-append w (spaces pad) buf n t

padding_lem :
    (width : ℤ) (len : ℕ)
    → clamped width < 2 ^ 31
    → len < 2 ^ 31
    → padding width len + len ≡ max (clamped width) len
unfolding padding
padding_lem width len h k =
    let short : ltb len (2 ^ 31) ≡ true = ground (arith, k) in
    elim (Bool-cases (ltb len (clamped width))) [
      | inl wider ↦
          let below : len < clamped width = ground (arith, wider) in
          let pad : (clamped width + 2 ^ 32 - len) % 2 ^ 32 ≡ clamped width - len =
            omega (arith, h, below) in
          let small : ltb 2147483647 (clamped width - len) ≡ false = ground (arith, h) in
          rw (short, wider, pad, small) (omega (arith, below))
      | inr full ↦
          let above : clamped width ≤ len = ground (arith, full) in
          rw (short, full) (omega (arith, above))
    ]

-- The values of the type `int`.
abbrev pub IsInt : ℤ → Type 0
IsInt (pos width) = width < 2 ^ 31
IsInt (negsuc n) = n < 2 ^ 31

-- A text of `len` bytes and `k` spaces are as long as the width, or there are no spaces where the text is
-- that long or the width is negative.
abbrev pub FillsUp : ℤ → ℕ → ℕ → Type 0
FillsUp (pos width) len k = k + len ≡ max width len
FillsUp (negsuc n) len k = k ≡ 0

padding-FillsUp :
    (width : ℤ) (len : ℕ) → IsInt width → len < 2 ^ 31 → FillsUp width len (padding width len)
padding-FillsUp (pos width) len h k = padding_lem (pos width) len h k
padding-FillsUp (negsuc n) len h k = omega (arith, padding_lem (negsuc n) len (omega arith) k)

-- On a buffer with room for the NUL, for a text shorter than 2 ^ 31 and a width that is an `int`,
-- `emit_padded` writes the text and spaces, in front of it or behind it, that make it as long as the width,
-- or none where it is that long or the width is negative, as far as there is room; it sets the flag if that is not all.
pub emit_padded_lem :
    (w buf : List ℕ) (n : ℕ) (t : Bool) (width : ℤ) (flag_minus : Bool)
    → IsInt width
    → length buf < 2 ^ 31
    → (k : ℕ) × FillsUp width (length buf) k
      × (emit_padded (roomy w n t) buf width flag_minus
          ≡ filled w n t (if flag_minus then buf ++ spaces k else spaces k ++ buf))
emit_padded_lem w buf n t width flag_minus h k = (
  padding width (length buf),
  padding-FillsUp width (length buf) h k,
  emit_padded-filled w buf n t width flag_minus,
)
