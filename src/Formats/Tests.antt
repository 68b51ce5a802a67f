-- ===== src/Formats/Tests.antt =====
-- Runs of the parsers of URL texts, and their theorems at concrete texts.
use redlib.Prelude.{ℕ, ◌≡◌, refl, inl, inr, ◌+◌, ◌*◌, true, List, [], ◌∷◌, arith}
use redlib.Formats.{percent_decode, QueryParam, query_parse}
use redlib.Formats.Percent.{Encodes, percent_decode-Encodes}
use redlib.Formats.Query.{joined, query_parse-joined}

-- `a%2f+`
abbrev encoded : List ℕ
encoded = b'a' ∷ b'%' ∷ b'2' ∷ b'f' ∷ b'+' ∷ []

abbrev decoded : List ℕ
decoded = b'a' ∷ (2 * 16 + 15) ∷ b' ' ∷ []

encoded-Encodes : Encodes decoded encoded
encoded-Encodes = Encodes.literal b'a' (omega arith) (omega arith) (
    Encodes.escape b'2' b'f' 2 15 (inl (omega arith, omega arith))
      (inr (inl (omega arith, omega arith, omega arith))) (Encodes.blank Encodes.done))

-- A percent sign with one byte behind it stands for itself.
cut_off : percent_decode (b'%' ∷ b'2' ∷ []) ≡ (true, b'%' ∷ b'2' ∷ [])
unfolding percent_decode
cut_off = refl

-- `a=1&b` with a parameter that has no value.
no_value :
    query_parse (b'a' ∷ b'=' ∷ b'1' ∷ b'&' ∷ b'b' ∷ [])
    ≡ record { key = b'a' ∷ []; value = b'1' ∷ [] } ∷ record { key = b'b' ∷ []; value = [] } ∷ []
unfolding query_parse
no_value = refl

abbrev two_params : List QueryParam
two_params = record { key = b'a' ∷ []; value = b'1' ∷ [] } ∷ record { key = []; value = [] } ∷ []

percent_decode-Encodes_example : percent_decode encoded ≡ (true, decoded)
percent_decode-Encodes_example =
    percent_decode-Encodes decoded encoded encoded-Encodes (omega arith)

query_parse-joined_example : query_parse (joined two_params) ≡ two_params
query_parse-joined_example = query_parse-joined two_params (omega arith)
