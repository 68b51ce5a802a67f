-- ===== src/Append/Tests.antt =====
-- Runs of the functions that fill a buffer, and their theorems at concrete buffers.
use redlib.Prelude.{ℕ, ◌+◌, max, length, arith, ◌≡◌, refl, true, false, List, [], ◌∷◌, ◌++◌}
use redlib.Prelude.Int.{pos}
use redlib.Append.{append_strn, append_block, append_repeat, padding, emit_padded}
use redlib.Append.Room.{roomy, filled, spaces, append_strn-append_block, emit_padded_lem}

abbrev ab : List ℕ
ab = b'a' ∷ b'b' ∷ []

-- Room for three of the five bytes.
emit_padded-cut :
    emit_padded (roomy [] 3 false) ab (pos 5) true
    ≡ record { written = b'a' ∷ b'b' ∷ b' ' ∷ []; rem = 1; truncated = true }
unfolding emit_padded append_block append_repeat padding
emit_padded-cut = refl

append_strn-append_block_example :
    append_strn (roomy ab 1 false) ab ≡ append_block (roomy ab 1 false) ab
append_strn-append_block_example = append_strn-append_block ab ab 1

emit_padded_lem_example :
    (k : ℕ) × (k + length ab ≡ max 5 (length ab))
    × (emit_padded (roomy [] 9 false) ab (pos 5) false ≡ filled [] 9 false (spaces k ++ ab))
emit_padded_lem_example = emit_padded_lem [] ab 9 false (pos 5) false (omega arith) (omega arith)
