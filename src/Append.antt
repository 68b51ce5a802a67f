-- ===== src/Append.antt =====
-- string/string.c, the functions that fill a buffer: append_char, append_strn, append_block,
-- append_repeat and emit_padded. The state is what is written before `*p`, the room `*rem` that is left,
-- with one byte of it for the NUL, and the flag. A text of `n` bytes is the list of them.
pub mod Room
mod Tests
use redlib.Prelude.{
  ℕ, zero, suc, ◌+◌, ◌-◌, ◌%◌, ◌^◌, min, Bool, true, false, not, ◌&&◌, List, [], ◌∷◌, ◌++◌,
  if◌then◌else◌, ltb, leb, ◌==◌, length, take, replicate,
}
use redlib.Prelude.Int.{ℤ, pos, negsuc}

pub record Output : Type 0 where
  pub written : List ℕ
  pub rem : ℕ
  pub truncated : Bool

unfoldable pub append_char : Output → ℕ → Output
append_char o c =
    if ltb 1 o.rem
    then record o { written = o.written ++ c ∷ []; rem = o.rem - 1 }
    else record o { truncated = true }

-- The loop ends when the flag is set.
pub append_strn : Output → List ℕ → Output
unfolding append_char
append_strn o [] = o
append_strn o (c ∷ s) =
    let next = append_char o c in
    let rest = append_strn next s in if next.truncated then next else rest

-- The copy of at most `rem - 1` bytes.
unfoldable pub append_block : Output → List ℕ → Output
append_block o [] = o
append_block o (c ∷ s) =
    if leb o.rem 1
    then record o { truncated = true }
    else (let w = min (length (c ∷ s)) (o.rem - 1) in
        record {
          written = o.written ++ take w (c ∷ s);
          rem = o.rem - w;
          truncated = if ltb w (length (c ∷ s)) then true else o.truncated;
        })

-- The blocks of 32 and 16 bytes and the rest write the same byte `w` times.
unfoldable pub append_repeat : Output → ℕ → ℕ → Output
append_repeat o c n =
    if n == 0
    then o
    else if leb o.rem 1
    then record o { truncated = true }
    else (let w = min n (o.rem - 1) in
        record {
          written = o.written ++ replicate w c;
          rem = o.rem - w;
          truncated = if ltb w n then true else o.truncated;
        })

-- `if (width < 0) width = 0`
abbrev pub clamped : ℤ → ℕ
clamped (negsuc n) = 0
clamped (pos width) = width

-- How many spaces a width asks for, of 32 bits: `(int)len` is negative from 2 ^ 31 on, and then below
-- every width.
unfoldable pub padding : ℤ → ℕ → ℕ
padding width len =
    let w = clamped width in
    let wider = if ltb len (2 ^ 31) then ltb len w else true in
    let pad = if wider then (w + 2 ^ 32 - len) % 2 ^ 32 else 0 in
    if ltb 2147483647 pad then 2147483647 else pad

unfoldable pub emit_padded : Output → List ℕ → ℤ → Bool → Output
unfolding append_block append_repeat padding
emit_padded o buf width flag_minus =
    let pad = padding width (length buf) in
    if flag_minus
    then append_repeat (append_block o buf) b' ' pad
    else append_block (append_repeat o b' ' pad) buf
