-- ===== src/Formats.antt =====
-- data/format/percent.c, query_string.c and userinfo.c: texts of URLs. A pointer and a size are the
-- list of the bytes that they stand for. The allocations that a parser makes are granted.
pub mod Percent
pub mod Query
pub mod Userinfo
mod Tests
use redlib.Prelude.{
  ℕ, zero, suc, ◌+◌, ◌-◌, ◌*◌, ◌%◌, ◌^◌, length, take, Bool, true, false, ◌&&◌, List, [], ◌∷◌, ◌++◌,
  Option, none, some, if◌then◌else◌, leb, ◌==◌, bit_or,
}

-- `hex_val`; `none` for its -1.
unfoldable pub hex_val : ℕ → Option ℕ
hex_val c =
    if leb b'0' c && leb c b'9'
    then some (c - b'0')
    else if leb b'a' c && leb c b'f'
    then some (10 + (c - b'a'))
    else if leb b'A' c && leb c b'F'
    then some (10 + (c - b'A'))
    else none

-- A byte in front of what the rest of the loop appends.
abbrev pub append_byte : ℕ → Bool × List ℕ → Bool × List ℕ
append_byte c (ok, out) = (ok, c ∷ out)

-- A byte that starts no escape.
unfoldable pub plain : ℕ → ℕ
plain c = if c == b'+' then b' ' else c

-- The loop: the result, and the bytes appended to `out` until then.
pub decode_from : List ℕ → Bool × List ℕ
unfolding hex_val plain
decode_from [] = (true, [])
decode_from (c ∷ []) = append_byte (plain c) (true, [])
decode_from (c ∷ d ∷ []) = append_byte (plain c) (decode_from (d ∷ []))
decode_from (c ∷ d1 ∷ d2 ∷ s) =
    let escape : Bool × List ℕ = elim (hex_val d1) [
      | none ↦ (false, [])
      | some h1 ↦ elim (hex_val d2) [
        | none ↦ (false, [])
        | some h2 ↦ append_byte (bit_or (h1 * 16) h2) (decode_from s)
      ]
    ] in
    let next = append_byte (plain c) (decode_from (d1 ∷ d2 ∷ s)) in
    if c == b'%' then escape else next

-- `in.size` is narrowed to 32 bits. For 2 ^ 32 - 1 bytes the sum `i + 2` wraps at the last but one; such
-- texts are left out.
unfoldable pub percent_decode : List ℕ → Bool × List ℕ
unfolding decode_from
percent_decode buf = decode_from (take (length buf % 2 ^ 32) buf)

-- The search for the first separator: what stands before it and behind it.
pub cut_at : ℕ → List ℕ → Option (List ℕ × List ℕ)
cut_at sep [] = none
cut_at sep (c ∷ s) =
    if c == sep
    then some ([], s)
    else elim (cut_at sep s) [ none ↦ none | some (before, behind) ↦ some (c ∷ before, behind) ]

pub record QueryParam : Type 0 where
  pub key : List ℕ
  pub value : List ℕ

unfoldable pub param : List ℕ → QueryParam
unfolding cut_at
param seg = elim (cut_at b'=' seg) [
  | some (before, behind) ↦ record { key = before; value = behind }
  | none ↦ record { key = seg; value = [] }
]

-- A segment that is not empty is a parameter.
unfoldable pub end_segment : List ℕ → List QueryParam → List QueryParam
unfolding param
end_segment [] params = params
end_segment (c ∷ seg) params = param (c ∷ seg) ∷ params

-- The loop over the text, in a segment of which `seg` is read.
pub params_from : List ℕ → List ℕ → List QueryParam
unfolding end_segment
params_from seg [] = end_segment seg []
params_from seg (c ∷ s) =
    let ended = end_segment seg (params_from [] s) in
    let longer = params_from (seg ++ c ∷ []) s in if c == b'&' then ended else longer

-- The number of slots that are allocated.
pub max_params : List ℕ → ℕ
max_params [] = 1
max_params (c ∷ s) = (if c == b'&' then 1 else 0) + max_params s

unfoldable pub query_parse : List ℕ → List QueryParam
unfolding params_from
query_parse [] = []
query_parse (c ∷ s) = params_from [] (c ∷ s)

pub record ParsedUserinfo : Type 0 where
  pub username : List ℕ
  pub password : List ℕ
  pub ok : Bool

unfoldable pub parse_userinfo : List ℕ → ParsedUserinfo
unfolding cut_at
parse_userinfo u = elim (cut_at b':' u) [
  | none ↦ record { username = []; password = []; ok = false }
  | some (before, behind) ↦ record { username = before; password = behind; ok = true }
]
