-- ===== src/Tokenizer/Decimal.antt =====
-- The tokenizer on a number that `u64_to_dec` writes.
use mathlib.Core.Path.{subst}
use redlib.Prelude.{
  ℕ, suc, ◌+◌, ◌≡◌, refl, sym, ap, ◌∙◌, true, false, List, [], ◌∷◌, ◌++◌, none, All, length, arith,
}
use redlib.Scanner.{scan_eof, scan_peek}
use redlib.Numbers.{is_digit, u64_to_dec}
use redlib.Numbers.Decimal.{IsDigit, u64_to_dec-All, u64_to_dec-cons}
use redlib.Tokenizer.State.{
  Token, TokenKind, eof, invalid, identifier, number, string, operator, Tokenizer,
}
use redlib.Tokenizer.Skip.{skip_ws_and_comments}
use redlib.Tokenizer.Next.{Answer, check, try_checks, tokenizer_checks, read_token, tokenizer_next}
use redlib.Tokenizer.Advance.{at}
use redlib.Tokenizer.Progress.{after_skip, next-after_skip, after_skip_none}
use redlib.Tokenizer.Digits.{
  EndsNumber, skip-digit, read_operator-digit, valid_number-digits, identifier-digit, digits_token,
}

-- A check that reads nothing leaves the text to the next one.
read_next :
    (kind : TokenKind) (kinds : List TokenKind) (t : Tokenizer) (out : Token)
    → t.failed ≡ false
    → check kind false t out ≡ (t, out, false)
    → try_checks (kind ∷ kinds) false t out ≡ try_checks kinds false t out
unfolding try_checks
read_next kind kinds t out ok h = simp (h, ok, try_checks) refl

read_here :
    (kind : TokenKind) (kinds : List TokenKind) (t t' : Tokenizer) (out out' : Token)
    → check kind false t out ≡ (t', out', true)
    → try_checks (kind ∷ kinds) false t out ≡ (t', out', true)
unfolding try_checks
read_here kind kinds t t' out out' h = simp (h, try_checks) refl

check-identifier-digit :
    (t : Tokenizer) (pos c : ℕ) (rest : List ℕ) (out : Token)
    → t.custom_valid_identifier ≡ none
    → is_digit c ≡ true
    → check identifier false (record t { s = at pos (c ∷ rest) }) out
      ≡ (record t { s = at pos (c ∷ rest) }, out, false)
unfolding check scan_peek
check-identifier-digit t pos c rest out custom h =
    let e = identifier-digit (record t { s = at pos (c ∷ rest) }) c custom h in rw e refl

check-operator-digit :
    (t : Tokenizer) (pos c : ℕ) (rest : List ℕ) (out : Token)
    → is_digit c ≡ true
    → check operator false (record t { s = at pos (c ∷ rest) }) out
      ≡ (record t { s = at pos (c ∷ rest) }, out, false)
unfolding check
check-operator-digit t pos c rest out h = rw (read_operator-digit pos c rest h) refl

try_checks-digits :
    (t : Tokenizer) (pos c : ℕ) (ds rest : List ℕ) (out : Token)
    → t.custom_valid_identifier ≡ none
    → t.failed ≡ false
    → is_digit c ≡ true
    → All IsDigit ds
    → EndsNumber rest
    → try_checks tokenizer_checks false (record t { s = at pos (c ∷ ds ++ rest) }) out
      ≡ (record t { s = at (suc pos + length ds) rest }, digits_token t pos (suc (length ds)), true)
unfolding check
try_checks-digits t pos c ds rest out custom ok h all ends =
    let u = record t { s = at pos (c ∷ ds ++ rest) } in
    read_next identifier (operator ∷ number ∷ string ∷ invalid ∷ []) u out ok
      (check-identifier-digit t pos c (ds ++ rest) out custom h)
    ∙ read_next operator (number ∷ string ∷ invalid ∷ []) u out ok
        (check-operator-digit t pos c (ds ++ rest) out h)
    ∙ read_here number (string ∷ invalid ∷ []) u _ out _
        (valid_number-digits t pos c ds rest out h all ends)

no_checks : (t : Tokenizer) (out : Token) → try_checks [] true t out ≡ (t, out, false)
unfolding try_checks
no_checks t out = refl

read_token_by_checks :
    (t t' : Tokenizer) (out out' : Token)
    → t.failed ≡ false
    → try_checks tokenizer_checks false t out ≡ (t', out', true)
    → read_token t out eof ≡ (t', out', true)
unfolding read_token
read_token_by_checks t t' out out' ok h = simp (no_checks t out, ok, h, read_token) refl

next_by_read :
    (t : Tokenizer) (r : Answer) (out : Token)
    → t.failed ≡ false
    → skip_ws_and_comments t out ≡ (t, out, false)
    → scan_eof t.s ≡ false
    → read_token t out eof ≡ r
    → tokenizer_next t out ≡ r
unfolding tokenizer_next
next_by_read t r out ok skip more h =
    next-after_skip t out eof
    ∙ ap (λ k. after_skip t k (read_token k.0 k.1 eof)) skip
    ∙ after_skip_none t out (read_token t out eof) ok more
    ∙ h

next-digits :
    (t : Tokenizer) (pos c : ℕ) (ds rest : List ℕ) (out : Token)
    → t.custom_valid_identifier ≡ none
    → t.failed ≡ false
    → is_digit c ≡ true
    → All IsDigit ds
    → EndsNumber rest
    → tokenizer_next (record t { s = at pos (c ∷ ds ++ rest) }) out ≡ (
      record t { s = at (pos + length (c ∷ ds)) rest },
      digits_token t pos (length (c ∷ ds)),
      true,
    )
unfolding scan_eof
next-digits t pos c ds rest out custom ok h all ends =
    let u = record t { s = at pos (c ∷ ds ++ rest) } in
    let far : suc pos + length ds ≡ pos + length (c ∷ ds) = omega arith in
    next_by_read u _ out ok (skip-digit t pos c (ds ++ rest) out h) refl (
      read_token_by_checks u _ out _ ok (try_checks-digits t pos c ds rest out custom ok h all ends)
      ∙ ap (λ p. (record t { s = at p rest }, digits_token t pos (length (c ∷ ds)), true)) far)

-- A tokenizer with the usual identifiers that has not failed reads exactly the digits that
-- `u64_to_dec` writes, as one number token, where no digit, letter or point follows.
pub next-u64_to_dec :
    (t : Tokenizer) (pos v : ℕ) (rest : List ℕ) (out : Token)
    → t.custom_valid_identifier ≡ none
    → t.failed ≡ false
    → EndsNumber rest
    → tokenizer_next (record t { s = at pos (u64_to_dec v ++ rest) }) out ≡ (
      record t { s = at (pos + length (u64_to_dec v)) rest },
      digits_token t pos (length (u64_to_dec v)),
      true,
    )
next-u64_to_dec t pos v rest out custom ok ends =
    let (c, ds, e) = u64_to_dec-cons v in
    let all : All IsDigit (c ∷ ds) = subst (All IsDigit) e (u64_to_dec-All v) in
    subst
      (λ l.
        tokenizer_next (record t { s = at pos (l ++ rest) }) out
        ≡ (record t { s = at (pos + length l) rest }, digits_token t pos (length l), true))
      (sym e) (next-digits t pos c ds rest out custom ok all.0 all.1 ends)
