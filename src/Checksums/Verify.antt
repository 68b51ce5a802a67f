-- ===== src/Checksums/Verify.antt =====
-- A receiver that sums up data with its checksum gets 0.
use redlib.Prelude.{ℕ, ◌+◌, ◌-◌, ◌^◌, ◌≡◌, ◌≤◌, ◌<◌, ap, ◌∙◌, List, [], ◌∷◌, ◌++◌, arith}
use redlib.Checksums.{add32, sum_words, fold_carry, complement, checksum16}
use redlib.Checksums.Fold.{complement-IsFolded}

-- The sum of the words, without a bound.
abbrev pub total : List ℕ → ℕ
total [] = 0
total (w ∷ words) = w + total words

sum_words-total :
    (sum : ℕ) (words : List ℕ)
    → sum + total words < 2 ^ 32
    → sum_words sum words ≡ sum + total words
unfolding sum_words
sum_words-total sum [] h = omega arith
sum_words-total sum (w ∷ words) h =
    let e : add32 sum w ≡ sum + w = omega (arith, h) in
    rw e (sum_words-total (sum + w) words (omega (arith, h)) ∙ omega arith)

total-append_one : (words : List ℕ) (w : ℕ) → total (words ++ w ∷ []) ≡ total words + w
total-append_one [] w = omega arith
total-append_one (x ∷ words) w = omega (arith, total-append_one words w)

-- For words whose sum leaves room for one more in 32 bits, the checksum of the words followed by their
-- checksum is 0.
pub checksum16-verifies :
    (words : List ℕ)
    → total words + 65536 ≤ 2 ^ 32
    → checksum16 (words ++ checksum16 words ∷ []) ≡ 0
unfolding checksum16
checksum16-verifies words room =
    let s : sum_words 0 words ≡ total words =
      sum_words-total 0 words (omega (arith, room)) ∙ omega arith in
    let (c, f) = complement-IsFolded (total words) (omega (arith, room)) in
    let sent : checksum16 words ≡ 65535 - fold_carry 3 (total words) = ap complement s ∙ c in
    let all = total-append_one words (checksum16 words) in
    let sum = words ++ checksum16 words ∷ [] in
    let t : sum_words 0 sum ≡ total sum =
      sum_words-total 0 sum (omega (arith, all, room, sent)) ∙ omega arith in
    let (d, g) =
      complement-IsFolded (total (words ++ checksum16 words ∷ []))
        (omega (arith, all, room, sent)) in
    let same = f.same in
    let same2 = g.same in
    let positive = g.kept (omega (arith, all, sent, same, f.small, f.kept)) in
    ap complement t ∙ d ∙ omega (arith, same, same2, all, sent, f.small, g.small, positive)
