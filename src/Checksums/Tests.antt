-- ===== src/Checksums/Tests.antt =====
-- Runs of the checksums.
use redlib.Prelude.{ℕ, ◌≡◌, refl, List, [], ◌∷◌, ◌++◌, length, replicate, arith}
use redlib.Checksums.{
  checksum16, checksum16_pipv4, checksum16_pipv6, sum_words, complement, fold_carry,
}
use redlib.Checksums.Verify.{checksum16-verifies}
use redlib.Checksums.Pseudo.{IsChecksum, header4, header6, pseudo_header-IsChecksum}

-- A sum with a carry.
checksum16-carry : checksum16 (65535 ∷ 2 ∷ []) ≡ 65533
unfolding checksum16 sum_words complement fold_carry
checksum16-carry = refl

abbrev text : List ℕ
text = b'a' ∷ b'b' ∷ b'c' ∷ []

checksum16-verifies_example : checksum16 ((65535 ∷ 2 ∷ []) ++ checksum16 (65535 ∷ 2 ∷ []) ∷ []) ≡ 0
checksum16-verifies_example = checksum16-verifies (65535 ∷ 2 ∷ []) (omega arith)

abbrev address : List ℕ
address = 32 ∷ 1 ∷ replicate 14 7

pseudo_header-IsChecksum_example :
    IsChecksum
      (header4 3232235777 3232235778 17 (length text) ++ text)
      (checksum16_pipv4 3232235777 3232235778 17 text)
    × IsChecksum
        (header6 address address 17 (length text) ++ text)
        (checksum16_pipv6 address address 17 text)
pseudo_header-IsChecksum_example =
    pseudo_header-IsChecksum 3232235777 3232235778 address address 17 text text (omega arith)
      (omega arith) (omega arith) refl refl (omega arith) (omega arith) (omega arith) (omega arith)
