-- ===== src/BinarySerial/Tests.antt =====
-- Runs of the structure of a serializer.
use redlib.Prelude.{
  ltb, true, none, if◌then◌else◌, ℕ, ◌≡◌, refl, List, [], ◌∷◌, ◌++◌, some, arith, replicate,
}
use redlib.BinarySerial.{
  Structdef, overrun, bin_scan_create, bin_scan_string, bin_scan_ok, bin_scan_i32, scan_bytes,
  bin_ser_define_structure, bin_ser_emit_structure, copy_chunks, copy_second,
}
use redlib.BinarySerial.Structure.{all_granted, define_structure-emit_structure}

abbrev field : ℕ → ℕ → Structdef
field letter type = record { name = letter ∷ []; type = type }

abbrev two_fields : List Structdef
two_fields = field b'x' 2 ∷ field b'y' 7 ∷ []

-- The bytes of one field: its type, a reserved word, the length of its name, the name.
emit-x :
    bin_ser_emit_structure (field b'x' 2 ∷ [])
    ≡ 2 ∷ 0 ∷ 0 ∷ 0 ∷ 0 ∷ 0 ∷ 0 ∷ 0 ∷ 1 ∷ 0 ∷ 0 ∷ 0 ∷ b'x' ∷ []
unfolding bin_ser_emit_structure
emit-x = refl

-- The seventh field is the fourth again.
seventh :
    copy_chunks (
      field b'a' 1
      ∷ field b'b' 1
      ∷ field b'c' 1
      ∷ field b'd' 1
      ∷ field b'e' 1
      ∷ field b'f' 1
      ∷ field b'g' 1
      ∷ [])
    ≡ field b'a' 1
      ∷ field b'b' 1
      ∷ field b'c' 1
      ∷ field b'd' 1
      ∷ field b'e' 1
      ∷ field b'f' 1
      ∷ field b'd' 1
      ∷ []
unfolding copy_chunks copy_second
seventh = refl

-- A size of -1 passes the test of the bounds.
negative_size : bin_scan_string true (bin_scan_create (replicate 4 0 ++ replicate 4 255)) ≡ overrun
unfolding bin_scan_string bin_scan_create bin_scan_i32 scan_bytes bin_scan_ok
negative_size = refl

define_structure-emit_structure_example :
    bin_ser_define_structure (λ k. ltb k 2) (bin_ser_emit_structure two_fields)
    ≡ (if all_granted (λ k. ltb k 2) 0 2 then some two_fields else none)
unfolding bin_ser_emit_structure
define_structure-emit_structure_example =
    define_structure-emit_structure (λ k. ltb k 2) two_fields
      (
        record {
          named = omega arith;
          short = omega arith;
          text = (refl, tt);
          typed = omega arith;
          small = omega arith;
        },
        (
          record {
            named = omega arith;
            short = omega arith;
            text = (refl, tt);
            typed = omega arith;
            small = omega arith;
          },
          tt,
        ),
      )
      (omega arith) (omega arith)
