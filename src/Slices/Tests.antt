-- ===== src/Slices/Tests.antt =====
-- Runs on slices, and the theorems about them at concrete slices.
use redlib.Prelude.{ℕ, ◌≡◌, refl, false, List, [], ◌∷◌, some, arith}
use redlib.Slices.{slice_trim_ws, piece_size, advance, pieces, make_string_slice}
use redlib.Slices.Split.{joined, kept, pieces-joined}

abbrev spaced : List ℕ
spaced = b' ' ∷ b'a' ∷ b' ' ∷ b'b' ∷ b' ' ∷ b' ' ∷ []

abbrev ab : List ℕ
ab = b'a' ∷ b'b' ∷ []

abbrev loud_ab : List ℕ
loud_ab = b'A' ∷ b'b' ∷ []

-- `a`, an empty piece and `b`.
abbrev three : List (List ℕ)
three = (b'a' ∷ []) ∷ [] ∷ (b'b' ∷ []) ∷ []

slice_trim_ws-spaced : slice_trim_ws spaced false ≡ b'a' ∷ b' ' ∷ b'b' ∷ []
unfolding slice_trim_ws
slice_trim_ws-spaced = refl

-- A text that ends in the separator keeps it in what `advance` leaves.
advance_at_end : advance false b';' (b'a' ∷ b';' ∷ []) ≡ some (b'a' ∷ b';' ∷ [], [])
unfolding advance piece_size
advance_at_end = refl

make_string_slice-past : make_string_slice ab 2 1 ≡ []
unfolding make_string_slice
make_string_slice-past = refl

pieces-joined_example : pieces 3 false b',' (joined b',' three) ≡ kept false three
pieces-joined_example =
    pieces-joined 3 false b',' three (omega arith) (omega arith)
      ((omega arith, tt), (tt, ((omega arith, tt), tt))) (cc)
