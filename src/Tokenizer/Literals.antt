-- ===== src/Tokenizer/Literals.antt =====
-- The answers of the checks for numbers and strings.
use redlib.Prelude.{
  ℕ, suc, ◌-◌, ◌≡◌, refl, Bool, true, false, not, ◌&&◌, List, [], ◌∷◌, some, arith, if◌then◌else◌,
  ◌==◌, Bool-cases, inl, inr, Option-cases,
}
use redlib.Scanner.{Scanner, scan_eof, scan_peek, scan_match}
use redlib.Scanner.Ahead.{IsAhead, ahead_refl, Moves, one-Moves, ahead_Moves}
use redlib.Tokenizer.State.{
  Token, TokenKind, number, string, const, Tokenizer, TokenizerError, tokenizer_fail,
  invalid_number, unterminated_string,
}
use redlib.Tokenizer.NumberToken.{
  radix_number, number_end, Prefix, plain_number, radix, number_token, starts_number, read_with,
  read_number,
}
use redlib.Tokenizer.Read.{
  between, StringEnd, closed_at, broken_at, end_scanner, end_string, string_from, read_string,
}
use redlib.Tokenizer.Next.{Answer, invalid_token, valid_number, valid_string}
use redlib.Tokenizer.Advance.{
  at, IsPrefix, number_end-Moves, prefix_of-IsPrefix, radix_number-Moves, string_from-IsAhead,
}
use redlib.Tokenizer.Answers.{
  is_read_kind, Covers, token_to-Covers, IsAnswer, nothing_read, failure,
}

read_or_const :
    (b : Bool) (kind : TokenKind)
    → is_read_kind kind ≡ true
    → is_read_kind (if b then const else kind) ≡ true
read_or_const true kind h = refl
read_or_const false kind h = h

number_token-Covers :
    (t : Tokenizer) (s' : Scanner) → Moves t.s s' → Covers t.s s' (number_token t s')
number_token-Covers t s' h = record {
  moves = h;
  start_at = refl;
  pos_at = refl;
  ends_at = omega (arith, h.more);
  read_kind = read_or_const t.skip_type_check number refl;
}

-- A reader whose answer the check still looks at: where it reads nothing the scanner may have moved.
pub record IsRead (t : Tokenizer) (r : Answer) : Type 0 where
  pub ahead : IsAhead t.s r.0.s
  pub token : r.2 ≡ true → Covers t.s r.0.s r.1
  pub clean : r.2 ≡ true → t.failed ≡ false → r.0.failed ≡ false

read_with-IsRead :
    (t : Tokenizer) (out : Token) (p : Prefix)
    → IsPrefix t.s p
    → Moves t.s (number_end t.s)
    → IsRead t (read_with t out p)
unfolding read_with
read_with-IsRead t out (radix digit s) h m = elim (Option-cases (radix_number digit s)) [
  | inl bad ↦
      rw (bad, read_with) (record { ahead = ahead_refl t.s; token = λ e. cc; clean = λ _ e. e })
  | inr (s', e) ↦
      let moves = ahead_Moves h (radix_number-Moves digit s.pos s.rest s' e) in
      rw (e, read_with)
        (record {
          ahead = moves.ahead;
          token = λ _. number_token-Covers t s' moves;
          clean = λ _ e. e;
        })
]
read_with-IsRead t out plain_number h m =
    elim (Bool-cases ((number_end t.s).pos - t.s.pos == 1 && scan_peek t.s == b'.')) [
      | inl point ↦ rw point (record { ahead = m.ahead; token = λ e. cc; clean = λ _ e. e })
      | inr full ↦ rw full (record {
        ahead = m.ahead;
        token = λ _. number_token-Covers t (number_end t.s) m;
        clean = λ _ e. e;
      })
    ]

read_number-IsRead :
    (t : Tokenizer) (pos : ℕ) (rest : List ℕ) (out : Token)
    → IsRead (record t { s = at pos rest }) (read_number (record t { s = at pos rest }) out)
unfolding read_number scan_eof scan_peek
read_number-IsRead t pos [] out = record { ahead = ahead_refl _; token = λ h. cc; clean = λ _ e. e }
read_number-IsRead t pos (c ∷ rest) out = elim (Bool-cases (starts_number c)) [
  | inl starts ↦ rw starts (
      read_with-IsRead (record t { s = at pos (c ∷ rest) }) out _
        (prefix_of-IsPrefix pos (c ∷ rest)) (number_end-Moves pos c rest starts))
  | inr other ↦ rw other (record { ahead = ahead_refl _; token = λ e. cc; clean = λ _ e. e })
]

-- The check behind a reader: `starts` is its own test, `stop` the one that makes it fail.
checked : Tokenizer → Token → Answer → Bool → Bool → TokenizerError → Answer
checked t out r starts stop err =
    if not starts
    then (t, out, false)
    else if r.2
    then (r.0, r.1, true)
    else if stop
    then (tokenizer_fail r.0 err, invalid_token (some t.s.pos) t.s.pos, false)
    else (record r.0 { s = t.s }, r.1, false)

checked-IsAnswer :
    (t : Tokenizer) (out : Token) (r : Answer) (starts stop : Bool) (err : TokenizerError)
    → IsRead t r
    → IsAnswer t (checked t out r starts stop err)
unfolding checked
checked-IsAnswer t out r false stop err h = nothing_read t out
checked-IsAnswer t out r true stop err h = elim (Bool-cases r.2) [
  | inl done ↦
      rw (done, checked)
        (record {
          ahead = h.ahead;
          token = λ _. h.token done;
          clean = λ _. h.clean done;
          back = λ e. cc;
        })
  | inr none_read ↦ by_stop stop none_read
]
  where
    by_stop : (stop : Bool) → r.2 ≡ false → IsAnswer t (checked t out r true stop err)
    by_stop true e = rw (e, checked) (failure t r.0 err _ h.ahead)
    by_stop false e =
        rw (e, checked)
          (record {
            ahead = ahead_refl t.s;
            token = λ f. cc;
            clean = λ f _. cc;
            back = λ _ _. refl;
          })

pub valid_number-IsAnswer : (t : Tokenizer) (out : Token) → IsAnswer t (valid_number t out)
unfolding valid_number checked
valid_number-IsAnswer t out =
    checked-IsAnswer t out (read_number t out) (starts_number (scan_peek t.s))
      (not (scan_peek t.s == b'-') && not (scan_peek t.s == b'.')) invalid_number
      (read_number-IsRead t t.s.pos t.s.rest out)

end_string-IsRead :
    (t : Tokenizer) (out : Token) (end : StringEnd)
    → Moves t.s (end_scanner end)
    → IsRead t (end_string t out end)
unfolding end_string
end_string-IsRead t out (closed_at s') h = record {
  ahead = h.ahead;
  token = λ _.
      token_to-Covers (if t.skip_type_check then const else string) t.s s'
        (read_or_const t.skip_type_check string refl) h;
  clean = λ _ e. e;
}
end_string-IsRead t out (broken_at s') h =
    let a = failure t (record t { s = s' }) unterminated_string out h.ahead in
    record { ahead = a.ahead; token = a.token; clean = a.clean }

read_string-IsRead :
    (t : Tokenizer) (pos : ℕ) (rest : List ℕ) (out : Token)
    → IsRead (record t { s = at pos rest }) (read_string (record t { s = at pos rest }) out)
unfolding read_string scan_match
read_string-IsRead t pos [] out = record { ahead = ahead_refl _; token = λ h. cc; clean = λ _ e. e }
read_string-IsRead t pos (c ∷ rest) out = elim (Bool-cases (c == b'"')) [
  | inl quote ↦ rw quote (
      end_string-IsRead (record t { s = at pos (c ∷ rest) }) out
        (string_from between (suc pos) rest)
        (one-Moves pos c rest _ (string_from-IsAhead between (suc pos) rest)))
  | inr other ↦ rw other (record { ahead = ahead_refl _; token = λ h. cc; clean = λ _ e. e })
]

pub valid_string-IsAnswer : (t : Tokenizer) (out : Token) → IsAnswer t (valid_string t out)
unfolding valid_string checked
valid_string-IsAnswer t out =
    checked-IsAnswer t out (read_string t out) (scan_peek t.s == b'"') true unterminated_string
      (read_string-IsRead t t.s.pos t.s.rest out)
