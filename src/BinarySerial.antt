-- ===== src/BinarySerial.antt =====
-- data/serialize: the list of fields that a serializer writes (binary_serial.c) and reads back through a
-- scanner over bytes (binary_scanner.c). A scanner is its cursor and the bytes from there on; the scanner
-- of a serializer does not swap bytes and has data, so that its pointer is not NULL. Memory is little-endian, `binary_types` has 32 bits.
pub mod Structure
mod Tests
use redlib.Prelude.{
  ℕ, zero, suc, ◌+◌, ◌-◌, ◌*◌, ◌/◌, ◌%◌, ◌^◌, Bool, true, false, not, ◌&&◌, ◌||◌, List, [], ◌∷◌,
  ◌++◌, Option, none, some, if◌then◌else◌, ltb, leb, ◌==◌, length, take, drop, u64_mod,
}

pub record BinaryScanner : Type 0 where
  pub cursor : ℕ
  pub rest : List ℕ

unfoldable pub bin_scan_create : List ℕ → BinaryScanner
bin_scan_create bytes = record { cursor = 0; rest = bytes }

-- The sum has 64 bits.
unfoldable pub bin_scan_ok : BinaryScanner → ℕ → Bool
bin_scan_ok s op_len = leb ((s.cursor + op_len) % u64_mod) (s.cursor + length s.rest)

-- The bytes that are copied out.
unfoldable pub bin_scan_size : BinaryScanner → ℕ → Option (List ℕ × BinaryScanner)
unfolding bin_scan_ok
bin_scan_size s size =
    if not (bin_scan_ok s size)
    then none
    else some (take size s.rest, record { cursor = s.cursor + size; rest = drop size s.rest })

-- The word of bytes in memory, the low one first.
abbrev pub word_of : List ℕ → ℕ
word_of [] = 0
word_of (b ∷ bytes) = b + 256 * word_of bytes

-- The bits of an `i32`.
unfoldable pub bin_scan_i32 : BinaryScanner → Option (ℕ × BinaryScanner)
unfolding bin_scan_size
bin_scan_i32 s = elim (bin_scan_size s 4) [
  | none ↦ none
  | some (bytes, s') ↦ some (word_of bytes, s')
]

-- An `i32` as a `size_t`.
abbrev pub widened : ℕ → ℕ
widened v = if ltb v (2 ^ 31) then v else v + 2 ^ 64 - 2 ^ 32

-- A string, nothing, or a string that runs out of the bytes: a negative size passes the test.
pub data StringScan : Type 0 where
  scanned : List ℕ → BinaryScanner → StringScan
  refused : StringScan
  overrun : StringScan

-- What `strlen_max` counts of `max_length` bytes, at least one: those before the first NUL.
unfoldable pub strlen_max : List ℕ → List ℕ
strlen_max [] = []
strlen_max (c ∷ bytes) = let later = strlen_max bytes in if c == 0 then [] else c ∷ later

-- The copy, or an empty string if the block for it is refused.
unfoldable pub string_from_literal_length : Bool → List ℕ → List ℕ
unfolding strlen_max
string_from_literal_length granted bytes = if granted then strlen_max bytes else []

-- `granted` is the answer to the allocation of the copy.
unfoldable pub scan_bytes : Bool → BinaryScanner → ℕ → StringScan
unfolding bin_scan_ok string_from_literal_length
scan_bytes granted s v =
    if v == 0
    then scanned [] s
    else if not (bin_scan_ok s (widened v))
    then refused
    else if ltb v (2 ^ 31)
    then scanned (string_from_literal_length granted (take v s.rest))
        (record { cursor = s.cursor + v; rest = drop v s.rest })
    else overrun

unfoldable pub bin_scan_string : Bool → BinaryScanner → StringScan
unfolding bin_scan_i32 scan_bytes
bin_scan_string granted s = elim (bin_scan_i32 s) [
  | none ↦ refused
  | some (signature, s1) ↦ elim (bin_scan_i32 s1) [
    | none ↦ refused
    | some (size, s2) ↦ scan_bytes granted s2 size
  ]
]

pub record Structdef : Type 0 where
  pub name : List ℕ
  pub type : ℕ

-- A field behind its type: `go_on` reads the fields behind it.
unfoldable pub define_field :
    (BinaryScanner → Option (List Structdef)) → ℕ → StringScan → Option (List Structdef)
define_field go_on type refused = none
define_field go_on type overrun = none
define_field go_on type (scanned [] s) = none
define_field go_on type (scanned (c ∷ name) s) = elim (go_on s) [
  | none ↦ none
  | some fields ↦ some (record { name = c ∷ name; type = type } ∷ fields)
]

-- The rounds of the loop: the fields pushed, or `none` where it fails. `grants` are the answers to the
-- allocations of names, in their order, and `k` the number of those made.
unfoldable pub define_rounds : (ℕ → Bool) → ℕ → ℕ → BinaryScanner → Option (List Structdef)
unfolding bin_scan_i32 bin_scan_string define_field
define_rounds grants k zero s = none
define_rounds grants k (suc rounds) s = elim (bin_scan_i32 s) [
  | none ↦ some []
  | some (type, s') ↦
      if type == 0
      then none
      else define_field (λ u. define_rounds grants (suc k) rounds u) type
          (bin_scan_string (grants k) s')
]

-- From the chunks of three of the stack: behind the first chunk it is always the second that is copied.
unfoldable pub copy_second : List Structdef → List Structdef → List Structdef
copy_second second [] = []
copy_second second (a ∷ []) = take 1 second
copy_second second (a ∷ b ∷ []) = take 2 second
copy_second second (a ∷ b ∷ c ∷ later) = take 3 second ++ copy_second second later

unfoldable pub copy_chunks : List Structdef → List Structdef
unfolding copy_second
copy_chunks fields = take 3 fields ++ copy_second (take 3 (drop 3 fields)) (drop 3 fields)

-- The structure defined, for a serializer that has none; the blocks of the stack and of the fields, at
-- whose allocation the code does not look, are granted. A field has 13 bytes at least, so there are fewer than bytes.
unfoldable pub bin_ser_define_structure : (ℕ → Bool) → List ℕ → Option (List Structdef)
unfolding bin_scan_create define_rounds copy_chunks
bin_ser_define_structure grants structure =
    elim (define_rounds grants 0 (suc (length structure)) (bin_scan_create structure)) [
      | none ↦ none
      | some fields ↦ some (copy_chunks fields)
    ]

-- Four bytes, the low one first.
abbrev pub i32_bytes : ℕ → List ℕ
i32_bytes v = v % 256 ∷ v / 256 % 256 ∷ v / 65536 % 256 ∷ v / 16777216 % 256 ∷ []

unfoldable pub bin_ser_emit_structure : List Structdef → List ℕ
bin_ser_emit_structure [] = []
bin_ser_emit_structure (item ∷ items) =
    i32_bytes item.type
    ++ (i32_bytes 0
        ++ (i32_bytes (length item.name % 2 ^ 32) ++ (item.name ++ bin_ser_emit_structure items)))
