-- ===== src/BinarySerial/Structure.antt =====
-- What is emitted is read back.
use redlib.Prelude.{
  ℕ, zero, suc, ◌+◌, ◌%◌, ◌^◌, ◌≡◌, ◌≤◌, ◌<◌, refl, ap, Bool, true, false, ◌&&◌, if◌then◌else◌,
  List, [], ◌∷◌, ◌++◌, Option, none, some, All, ltb, leb, ◌==◌, length, length-append, take, drop,
  u64_mod, arith,
}
use redlib.BinarySerial.{
  BinaryScanner, bin_scan_create, bin_scan_ok, bin_scan_size, word_of, bin_scan_i32, scanned,
  scan_bytes, strlen_max, string_from_literal_length, bin_scan_string, Structdef, define_field,
  define_rounds, copy_second, copy_chunks, bin_ser_define_structure, i32_bytes,
  bin_ser_emit_structure,
}

abbrev from : ℕ → List ℕ → BinaryScanner
from cursor rest = record { cursor = cursor; rest = rest }

ok_lem :
    (cursor n : ℕ) (rest : List ℕ)
    → n ≤ length rest
    → cursor + length rest < u64_mod
    → bin_scan_ok (from cursor rest) n ≡ true
unfolding bin_scan_ok
ok_lem cursor n rest h k =
    let e : (cursor + n) % u64_mod ≡ cursor + n = omega (arith, h, k) in rw e (ground (arith, h))

word_of-i32_bytes : (v : ℕ) → v < 2 ^ 32 → word_of (i32_bytes v) ≡ v
word_of-i32_bytes v h = omega (arith, h)

bin_scan_i32-i32_bytes :
    (cursor v : ℕ) (rest : List ℕ)
    → v < 2 ^ 32
    → cursor + 4 + length rest < u64_mod
    → bin_scan_i32 (from cursor (i32_bytes v ++ rest)) ≡ some (v, from (cursor + 4) rest)
unfolding bin_scan_i32 bin_scan_size
bin_scan_i32-i32_bytes cursor v rest h k =
    let ok = ok_lem cursor 4 (i32_bytes v ++ rest) (omega arith) (omega (arith, k)) in
    rw (ok, bin_scan_size, bin_scan_i32)
      (ap (λ w. some (w, from (cursor + 4) rest)) (word_of-i32_bytes v h))

take-prefix : (a b : List ℕ) → take (length a) (a ++ b) ≡ a
take-prefix [] b = refl
take-prefix (x ∷ a) b = ap (λ l. x ∷ l) (take-prefix a b)

drop-prefix : (a b : List ℕ) → drop (length a) (a ++ b) ≡ b
drop-prefix [] b = refl
drop-prefix (x ∷ a) b = drop-prefix a b

abbrev pub NotNul : ℕ → Type 0
NotNul c = (c == 0) ≡ false

no_nul : (name : List ℕ) → All NotNul name → strlen_max name ≡ name
unfolding strlen_max
no_nul [] h = refl
no_nul (c ∷ name) h = rw h.0 (ap (λ l. c ∷ l) (no_nul name h.1))

-- A name that is not empty, without NUL and shorter than 2 ^ 31; a type that is not invalid.
pub record IsField (item : Structdef) : Type 0 where
  pub named : 0 < length item.name
  pub short : length item.name < 2 ^ 31
  pub text : All NotNul item.name
  pub typed : 0 < item.type
  pub small : item.type < 2 ^ 32

scan_bytes-name :
    (granted : Bool) (cursor : ℕ) (name rest : List ℕ)
    → 0 < length name
    → length name < 2 ^ 31
    → All NotNul name
    → cursor + (length name + length rest) < u64_mod
    → scan_bytes granted (from cursor (name ++ rest)) (length name)
      ≡ scanned (if granted then name else []) (from (cursor + length name) rest)
unfolding scan_bytes string_from_literal_length
scan_bytes-name granted cursor name rest filled short text room =
    let n = length name in
    let some_ : (n == 0) ≡ false = ground (arith, filled) in
    let positive : ltb n (2 ^ 31) ≡ true = ground (arith, short) in
    let ok =
      ok_lem cursor n (name ++ rest) (omega (arith, length-append name rest))
        (omega (arith, length-append name rest, room)) in
    rw (some_, positive, ok, take-prefix name rest, no_nul name text, drop-prefix name rest) refl

bin_scan_string-emitted :
    (granted : Bool) (cursor : ℕ) (name rest : List ℕ)
    → 0 < length name
    → length name < 2 ^ 31
    → All NotNul name
    → cursor + (8 + (length name + length rest)) < u64_mod
    → bin_scan_string granted
        (from cursor (i32_bytes 0 ++ (i32_bytes (length name % 2 ^ 32) ++ (name ++ rest))))
      ≡ scanned (if granted then name else []) (from (cursor + 4 + 4 + length name) rest)
unfolding bin_scan_string
bin_scan_string-emitted granted cursor name rest filled short text room =
    let n : length name % 2 ^ 32 ≡ length name = omega (arith, short) in
    let l = length-append name rest in
    let signature =
      bin_scan_i32-i32_bytes cursor 0 (i32_bytes (length name % 2 ^ 32) ++ (name ++ rest))
        (omega arith) (omega (arith, room, l)) in
    let size =
      bin_scan_i32-i32_bytes (cursor + 4) (length name % 2 ^ 32) (name ++ rest) (omega arith)
        (omega (arith, room, l)) in
    rw (signature, size, n, bin_scan_string)
      (scan_bytes-name granted (cursor + 4 + 4) name rest filled short text (omega (arith, room)))

no_more : (cursor : ℕ) → cursor + 4 < u64_mod → bin_scan_i32 (from cursor []) ≡ none
unfolding bin_scan_i32 bin_scan_size bin_scan_ok
no_more cursor h =
    let e : (cursor + 4) % u64_mod ≡ cursor + 4 = omega (arith, h) in
    let stop : leb (cursor + 4) (cursor + 0) ≡ false = ground arith in
    rw (e, stop, bin_scan_i32) refl

-- Whether the allocations from `k` on, `n` of them, are granted.
abbrev pub all_granted : (ℕ → Bool) → ℕ → ℕ → Bool
all_granted grants k zero = true
all_granted grants k (suc n) = grants k && all_granted grants (suc k) n

define_field-scanned :
    (go_on : BinaryScanner → Option (List Structdef)) (item : Structdef) (items : List Structdef)
    (s : BinaryScanner) (granted later : Bool)
    → 0 < length item.name
    → go_on s ≡ (if later then some items else none)
    → define_field go_on item.type (scanned (if granted then item.name else []) s)
      ≡ (if granted && later then some (item ∷ items) else none)
unfolding define_field
define_field-scanned go_on item items s false later filled h = refl
define_field-scanned go_on item items s true later filled h = by_name item.name later filled h
  where
    by_name :
        (name : List ℕ) (later : Bool)
        → 0 < length name
        → go_on s ≡ (if later then some items else none)
        → define_field go_on item.type (scanned name s)
          ≡ (if later then some (record { name = name; type = item.type } ∷ items) else none)
    by_name [] later filled h = absurd (omega (arith, filled))
    by_name (c ∷ name) true filled h = rw (h, define_field) refl
    by_name (c ∷ name) false filled h = rw (h, define_field) refl

fields_read :
    (grants : ℕ → Bool) (items : List Structdef) (k rounds cursor : ℕ)
    → All IsField items
    → length items < rounds
    → cursor + length (bin_ser_emit_structure items) + 4 < u64_mod
    → define_rounds grants k rounds (from cursor (bin_ser_emit_structure items))
      ≡ (if all_granted grants k (length items) then some items else none)
unfolding define_rounds bin_ser_emit_structure
fields_read grants items k zero cursor fields h room = absurd (omega (arith, h))
fields_read grants [] k (suc rounds) cursor fields h room =
    rw (no_more cursor (omega (arith, room)), define_rounds) refl
fields_read grants (item ∷ items) k (suc rounds) cursor fields h room =
    let field = fields.0 in
    let later = bin_ser_emit_structure items in
    let l = length-append item.name later in
    let typed : (item.type == 0) ≡ false = ground (arith, field.typed) in
    let type =
      bin_scan_i32-i32_bytes cursor item.type
        (i32_bytes 0 ++ (i32_bytes (length item.name % 2 ^ 32) ++ (item.name ++ later))) field.small
        (omega (arith, room, l)) in
    let name =
      bin_scan_string-emitted (grants k) (cursor + 4) item.name later field.named field.short
        field.text (omega (arith, room, l)) in
    let ih =
      fields_read grants items (suc k) rounds (cursor + 4 + 4 + 4 + length item.name) fields.1
        (omega (arith, h)) (omega (arith, room, l)) in
    rw (type, typed, name, define_rounds)
      (define_field-scanned (λ u. define_rounds grants (suc k) rounds u) item items
        (from (cursor + 4 + 4 + 4 + length item.name) later) (grants k)
        (all_granted grants (suc k) (length items)) field.named ih)

copy_chunks-same : (items : List Structdef) → length items ≤ 6 → copy_chunks items ≡ items
unfolding copy_chunks copy_second
copy_chunks-same [] h = refl
copy_chunks-same (a ∷ []) h = refl
copy_chunks-same (a ∷ b ∷ []) h = refl
copy_chunks-same (a ∷ b ∷ c ∷ []) h = refl
copy_chunks-same (a ∷ b ∷ c ∷ d ∷ []) h = refl
copy_chunks-same (a ∷ b ∷ c ∷ d ∷ e ∷ []) h = refl
copy_chunks-same (a ∷ b ∷ c ∷ d ∷ e ∷ f ∷ []) h = refl
copy_chunks-same (a ∷ b ∷ c ∷ d ∷ e ∷ f ∷ g ∷ l) h = absurd (omega (arith, h))

items_below : (items : List Structdef) → length items ≤ length (bin_ser_emit_structure items)
unfolding bin_ser_emit_structure
items_below [] = omega arith
items_below (item ∷ items) =
    omega (arith, items_below items, length-append item.name (bin_ser_emit_structure items))

-- The structure that is emitted for at most six fields is defined again from its bytes, if the allocations
-- of their names are granted, and refused if one is not; every field has a type and a name that is not
-- empty, has no NUL and is shorter than 2 ^ 31, and the bytes are fewer than 2 ^ 64 - 4.
pub define_structure-emit_structure :
    (grants : ℕ → Bool) (items : List Structdef)
    → All IsField items
    → length items ≤ 6
    → length (bin_ser_emit_structure items) + 4 < u64_mod
    → bin_ser_define_structure grants (bin_ser_emit_structure items)
      ≡ (if all_granted grants 0 (length items) then some items else none)
unfolding bin_ser_define_structure bin_scan_create
define_structure-emit_structure grants items fields few room =
    let read =
      fields_read grants items 0 (suc (length (bin_ser_emit_structure items))) 0 fields
        (omega (arith, items_below items)) (omega (arith, room)) in
    rw (read, bin_ser_define_structure)
      (copied (all_granted grants 0 (length items)) items (copy_chunks-same items few))
  where
    copied :
        (granted : Bool) (items : List Structdef)
        → copy_chunks items ≡ items
        → (elim (if granted then some items else none) as (λ _. Option (List Structdef)) [
          | none ↦ none
          | some fields ↦ some (copy_chunks fields)
        ])
          ≡ (if granted then some items else none)
    copied true items e = ap some e
    copied false items e = refl
