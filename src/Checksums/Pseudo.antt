-- ===== src/Checksums/Pseudo.antt =====
-- The checksums with a pseudo header, against the bytes that a header and a payload consist of.
use mathlib.Core.Path.{subst}
use mathlib.Core.List.{append_assoc}
use redlib.Prelude.{
  ℕ, zero, suc, ◌+◌, ◌-◌, ◌*◌, ◌/◌, ◌%◌, ◌^◌, ◌≡◌, ◌≤◌, ◌<◌, refl, sym, ap, ◌∙◌, List, [], ◌∷◌,
  ◌++◌, All, length, arith, if◌then◌else◌, ◌==◌,
}
use redlib.Prelude.Bits.{bit_or-shifted}
use redlib.Checksums.{
  add32, big_endian, fold_carry, complement, sum_payload4, fold_carry4, checksum16_pipv4,
  sum_address, sum_payload6, fold_carry6, checksum16_pipv6,
}
use redlib.Checksums.Fold.{IsFolded, complement-IsFolded}
use redlib.Checksums.Verify.{total}

-- The words of a text of bytes, the high byte first, the last one filled up with 0.
abbrev pub words_of : List ℕ → List ℕ
words_of [] = []
words_of (b ∷ []) = b * 256 ∷ []
words_of (b ∷ d ∷ bytes) = (b * 256 + d) ∷ words_of bytes

-- The bytes of a number, the high one first.
abbrev pub two_bytes : ℕ → List ℕ
two_bytes x = x / 2 ^ 8 % 2 ^ 8 ∷ x % 2 ^ 8 ∷ []

abbrev pub four_bytes : ℕ → List ℕ
four_bytes x = x / 2 ^ 24 % 2 ^ 8 ∷ x / 2 ^ 16 % 2 ^ 8 ∷ x / 2 ^ 8 % 2 ^ 8 ∷ x % 2 ^ 8 ∷ []

-- The pseudo headers: addresses, a zero byte, the protocol and the length, or addresses, the length, three
-- zero bytes and the protocol.
abbrev pub header4 : ℕ → ℕ → ℕ → ℕ → List ℕ
header4 src_ip dst_ip protocol n =
    four_bytes src_ip ++ four_bytes dst_ip ++ (0 ∷ protocol ∷ two_bytes n)

abbrev pub header6 : List ℕ → List ℕ → ℕ → ℕ → List ℕ
header6 src_ip dst_ip protocol n =
    src_ip ++ (dst_ip ++ (four_bytes n ++ (0 ∷ 0 ∷ 0 ∷ protocol ∷ [])))

abbrev pub IsByte : ℕ → Type 0
IsByte b = b < 256

-- The checksum of bytes: the complement of the sum of their words, folded to 16 bits.
pub record IsChecksum (bytes : List ℕ) (r : ℕ) : Type 0 where
  pub folded : ℕ
  pub is_folded : IsFolded (total (words_of bytes)) folded
  pub complemented : r ≡ 65535 - folded

big_endian_lem : (b d : ℕ) → d < 256 → big_endian b d ≡ b * 256 + d
big_endian_lem b d h = bit_or-shifted 8 b d h

-- The copies of the loops.
fold_carry4-eq-fold_carry : (n sum : ℕ) → fold_carry4 n sum ≡ fold_carry n sum
unfolding fold_carry4 fold_carry
fold_carry4-eq-fold_carry zero sum = refl
fold_carry4-eq-fold_carry (suc n) sum =
    ap (λ r. if sum / 2 ^ 16 == 0 then sum else r) (fold_carry4-eq-fold_carry n _)

fold_carry6-eq-fold_carry : (n sum : ℕ) → fold_carry6 n sum ≡ fold_carry n sum
unfolding fold_carry6 fold_carry
fold_carry6-eq-fold_carry zero sum = refl
fold_carry6-eq-fold_carry (suc n) sum =
    ap (λ r. if sum / 2 ^ 16 == 0 then sum else r) (fold_carry6-eq-fold_carry n _)

sum_payload6-eq-sum_payload4 : (sum : ℕ) (l : List ℕ) → sum_payload6 sum l ≡ sum_payload4 sum l
unfolding sum_payload6 sum_payload4
sum_payload6-eq-sum_payload4 sum [] = refl
sum_payload6-eq-sum_payload4 sum (b ∷ []) = refl
sum_payload6-eq-sum_payload4 sum (b ∷ d ∷ l) =
    sum_payload6-eq-sum_payload4 (add32 sum (big_endian b d)) l

-- Of an even number of bytes.
sum_address-eq-sum_payload4 :
    (k sum : ℕ) (l : List ℕ) → length l ≡ k + k → sum_address sum l ≡ sum_payload4 sum l
unfolding sum_address sum_payload4
sum_address-eq-sum_payload4 k sum [] h = refl
sum_address-eq-sum_payload4 k sum (b ∷ []) h = absurd (omega (arith, h))
sum_address-eq-sum_payload4 zero sum (b ∷ d ∷ l) h = absurd (omega (arith, h))
sum_address-eq-sum_payload4 (suc k) sum (b ∷ d ∷ l) h =
    sum_address-eq-sum_payload4 k (add32 sum (big_endian b d)) l (omega (arith, h))

sum_payload4-total :
    (sum : ℕ) (l : List ℕ)
    → All IsByte l
    → sum + total (words_of l) < 2 ^ 32
    → sum_payload4 sum l ≡ sum + total (words_of l)
unfolding sum_payload4
sum_payload4-total sum [] bytes h = omega arith
sum_payload4-total sum (b ∷ []) bytes h = omega (arith, h)
sum_payload4-total sum (b ∷ d ∷ l) bytes h =
    let word = big_endian_lem b d bytes.1.0 in
    let e : add32 sum (b * 256 + d) ≡ sum + (b * 256 + d) = omega (arith, h) in
    rw (word, e)
      (sum_payload4-total (sum + (b * 256 + d)) l bytes.1.1 (omega (arith, h)) ∙ omega arith)

-- A word for each two bytes.
total_bound : (l : List ℕ) → All IsByte l → 2 * total (words_of l) ≤ 65535 * (length l + 1)
total_bound [] bytes = omega arith
total_bound (b ∷ []) bytes = omega (arith, bytes.0)
total_bound (b ∷ d ∷ l) bytes = omega (arith, bytes.0, bytes.1.0, total_bound l bytes.1.1)

total-append :
    (k : ℕ) (a b : List ℕ)
    → length a ≡ k + k
    → total (words_of (a ++ b)) ≡ total (words_of a) + total (words_of b)
total-append k [] b h = omega arith
total-append k (x ∷ []) b h = absurd (omega (arith, h))
total-append zero (x ∷ y ∷ a) b h = absurd (omega (arith, h))
total-append (suc k) (x ∷ y ∷ a) b h = omega (arith, total-append k a b (omega (arith, h)))

-- The end of both functions.
summed-IsChecksum :
    (bytes : List ℕ) (sum : ℕ)
    → sum ≡ total (words_of bytes)
    → sum < 2 ^ 32
    → IsChecksum bytes (complement sum)
summed-IsChecksum bytes sum e h =
    let (c, f) = complement-IsFolded sum h in
    record {
      folded = fold_carry 3 sum;
      is_folded = record {
        times = f.times;
        same = sym e ∙ f.same;
        small = f.small;
        kept = λ p. f.kept (omega (arith, p, e));
      };
      complemented = c;
    }

pipv4-IsChecksum :
    (src_ip dst_ip protocol : ℕ) (payload : List ℕ)
    → protocol < 2 ^ 8
    → length payload < 2 ^ 16
    → All IsByte payload
    → IsChecksum
        (header4 src_ip dst_ip protocol (length payload) ++ payload)
        (checksum16_pipv4 src_ip dst_ip protocol payload)
unfolding checksum16_pipv4 complement
pipv4-IsChecksum src_ip dst_ip protocol payload one_byte short bytes =
    let n = length payload in
    let bound = total_bound payload bytes in
    let h1 = src_ip / 2 ^ 16 % 2 ^ 16 in
    let h2 = src_ip % 2 ^ 16 in
    let h3 = dst_ip / 2 ^ 16 % 2 ^ 16 in
    let h4 = dst_ip % 2 ^ 16 in
    let header = h1 + h2 + h3 + h4 + protocol + n in
    let s6 : add32 (add32 (add32 (add32 (add32 (add32 0 h1) h2) h3) h4) protocol) n ≡ header =
      omega (arith, short, one_byte) in
    let sum = sum_payload4-total header payload bytes (omega (arith, bound, short, one_byte)) in
    let folded = λ (s : ℕ). (2 ^ 32 - 1 - s) % 2 ^ 16 in
    let result : checksum16_pipv4 src_ip dst_ip protocol payload
        ≡ complement (header + total (words_of payload)) =
      ap (λ s. folded (fold_carry4 3 (sum_payload4 s payload))) s6
      ∙ ap (λ s. folded (fold_carry4 3 s)) sum
      ∙ ap folded (fold_carry4-eq-fold_carry 3 (header + total (words_of payload))) in
    subst (IsChecksum (header4 src_ip dst_ip protocol n ++ payload)) (sym result) (
      summed-IsChecksum _ (header + total (words_of payload)) (omega (arith, short, one_byte))
        (omega (arith, bound, short, one_byte)))

pipv6-IsChecksum :
    (src_ip dst_ip : List ℕ) (protocol : ℕ) (payload : List ℕ)
    → length src_ip ≡ 16
    → length dst_ip ≡ 16
    → protocol < 2 ^ 8
    → length payload < 131000
    → All IsByte src_ip
    → All IsByte dst_ip
    → All IsByte payload
    → IsChecksum
        (header6 src_ip dst_ip protocol (length payload) ++ payload)
        (checksum16_pipv6 src_ip dst_ip protocol payload)
unfolding checksum16_pipv6 complement
pipv6-IsChecksum src_ip dst_ip protocol payload src16 dst16 one_byte short src_bytes dst_bytes
      bytes =
    let n = length payload in
    let bound = total_bound payload bytes in
    let src_bound = total_bound src_ip src_bytes in
    let dst_bound = total_bound dst_ip dst_bytes in
    let a = total (words_of src_ip) in
    let b = total (words_of dst_ip) in
    let src =
      sum_address-eq-sum_payload4 8 0 src_ip (omega (arith, src16))
      ∙ sum_payload4-total 0 src_ip src_bytes (omega (arith, src_bound, src16)) in
    let dst =
      sum_address-eq-sum_payload4 8 (0 + a) dst_ip (omega (arith, dst16))
      ∙ sum_payload4-total (0 + a) dst_ip dst_bytes
          (omega (arith, src_bound, dst_bound, src16, dst16)) in
    let header = a + b + n / 2 ^ 16 % 2 ^ 16 + n % 2 ^ 16 + protocol in
    let behind = λ (s : ℕ). add32 (add32 (add32 s (n / 2 ^ 16 % 2 ^ 16)) (n % 2 ^ 16)) protocol in
    let s4 : behind (0 + a + b) ≡ header =
      omega (arith, src_bound, dst_bound, src16, dst16, one_byte) in
    let sum =
      sum_payload6-eq-sum_payload4 header payload
      ∙ sum_payload4-total header payload bytes
          (omega (arith, bound, src_bound, dst_bound, src16, dst16, short, one_byte)) in
    let folded = λ (s : ℕ). (2 ^ 32 - 1 - s) % 2 ^ 16 in
    let result : checksum16_pipv6 src_ip dst_ip protocol payload
        ≡ complement (header + total (words_of payload)) =
      ap (λ s. folded (fold_carry6 3 (sum_payload6 (behind (sum_address s dst_ip)) payload))) src
      ∙ ap (λ s. folded (fold_carry6 3 (sum_payload6 (behind s) payload))) dst
      ∙ ap (λ s. folded (fold_carry6 3 (sum_payload6 s payload))) s4
      ∙ ap (λ s. folded (fold_carry6 3 s)) sum
      ∙ ap folded (fold_carry6-eq-fold_carry 3 (header + total (words_of payload))) in
    let whole : header6 src_ip dst_ip protocol n ++ payload
        ≡ src_ip ++ (dst_ip ++ (four_bytes n ++ (0 ∷ 0 ∷ 0 ∷ protocol ∷ payload))) =
      append_assoc src_ip _ payload ∙ ap (λ l. src_ip ++ l) (append_assoc dst_ip _ payload) in
    let parts =
      ap (λ l. total (words_of l)) whole
      ∙ total-append 8 src_ip (dst_ip ++ (four_bytes n ++ (0 ∷ 0 ∷ 0 ∷ protocol ∷ payload)))
          (omega (arith, src16))
      ∙ ap (λ r. a + r)
          (total-append 8 dst_ip (four_bytes n ++ (0 ∷ 0 ∷ 0 ∷ protocol ∷ payload))
            (omega (arith, dst16))) in
    subst (IsChecksum (header6 src_ip dst_ip protocol n ++ payload)) (sym result) (
      summed-IsChecksum _ (header + total (words_of payload))
        (omega (arith, short, one_byte, parts))
        (omega (arith, bound, src_bound, dst_bound, src16, dst16, short, one_byte)))

-- The checksums with a pseudo header are those of the bytes of the header and the payload: for version 4
-- with a payload shorter than 2 ^ 16, for version 6 with addresses of 16 bytes and a payload shorter than
-- 131000 bytes, so that the sum of the words fits 32 bits.
pub pseudo_header-IsChecksum :
    (src_ip dst_ip : ℕ) (src_ip6 dst_ip6 : List ℕ) (protocol : ℕ) (payload payload6 : List ℕ)
    → protocol < 2 ^ 8
    → length payload < 2 ^ 16
    → All IsByte payload
    → length src_ip6 ≡ 16
    → length dst_ip6 ≡ 16
    → length payload6 < 131000
    → All IsByte src_ip6
    → All IsByte dst_ip6
    → All IsByte payload6
    → IsChecksum
        (header4 src_ip dst_ip protocol (length payload) ++ payload)
        (checksum16_pipv4 src_ip dst_ip protocol payload)
      × IsChecksum
          (header6 src_ip6 dst_ip6 protocol (length payload6) ++ payload6)
          (checksum16_pipv6 src_ip6 dst_ip6 protocol payload6)
pseudo_header-IsChecksum src_ip dst_ip src6 dst6 protocol payload payload6 p short bytes s16 d16
      short6 sb db pb =
    (
      pipv4-IsChecksum src_ip dst_ip protocol payload p short bytes,
      pipv6-IsChecksum src6 dst6 protocol payload6 s16 d16 p short6 sb db pb,
    )
