-- ===== src/Tokenizer/Progress.antt =====
-- Every call of `tokenizer_next_expecting` reads on, ends or fails, and so does a client that calls it
-- until then.
use mathlib.Core.Path.{subst}
use redlib.Prelude.{
  ℕ, suc, ◌≡◌, refl, sym, Bool, true, false, ◌||◌, List, [], ◌∷◌, none, some, length, arith,
  if◌then◌else◌, ◌==◌, Bool-cases, inl, inr,
}
use redlib.Scanner.{Scanner, scan_eof}
use redlib.Scanner.Ahead.{IsAhead, ahead_refl, ahead_trans, Moves, one-Moves}
use redlib.Tokenizer.State.{Token, TokenKind, eof, invalid, Tokenizer, kind_code}
use redlib.Tokenizer.Skip.{Skipped, skip_ws_and_comments}
use redlib.Tokenizer.Next.{
  Answer, invalid_token, check, try_checks, tokenizer_checks, expected_checks, read_symbol,
  read_token, tokenizer_next_expecting,
}
use redlib.Tokenizer.Advance.{at}
use redlib.Tokenizer.Answers.{Covers, IsAnswer, HasMore}
use redlib.Tokenizer.Checks.{try_checks-IsAnswer}
use redlib.Tokenizer.Comments.{IsNewline, IsSkipped, skip_rounds-IsSkipped}

-- A token, or a failure with an invalid one.
pub record IsTokenRead (t : Tokenizer) (r : Answer) : Type 0 where
  pub ahead : IsAhead t.s r.0.s
  pub on_success : r.2 ≡ true → Covers t.s r.0.s r.1 × (r.0.failed ≡ false)
  pub on_failure : r.2 ≡ false → (r.0.failed ≡ true) × (r.1.kind ≡ invalid)

try_checks_invalid :
    (kinds : List TokenKind) (expected : Bool) (t : Tokenizer) (out : Token)
    → t.failed ≡ false
    → (try_checks kinds expected t out).2 ≡ false
    → (try_checks kinds expected t out).0.failed ≡ true
    → (try_checks kinds expected t out).1.kind ≡ invalid
unfolding try_checks
try_checks_invalid [] expected t out ok e f = absurd (cc (ok, f))
try_checks_invalid (kind ∷ kinds) expected t out ok e f =
    let r = check kind expected t out in
    elim (Bool-cases r.2) [
      | inl done ↦ absurd (cc (rw (done, try_checks) at e))
      | inr not_read ↦ elim (Bool-cases r.0.failed) [
        | inl failed ↦ rw (not_read, failed, try_checks) refl
        | inr going ↦
            rw (not_read, going, try_checks)
              (try_checks_invalid kinds expected r.0 r.1 going
                (rw (not_read, going, try_checks) at e) (rw (not_read, going, try_checks) at f))
      ]
    ]

read_symbol-IsTokenRead :
    (t : Tokenizer) (pos : ℕ) (rest : List ℕ) (out : Token)
    → HasMore (at pos rest)
    → t.failed ≡ false
    → IsTokenRead (record t { s = at pos rest }) (read_symbol (record t { s = at pos rest }) out)
unfolding read_symbol
read_symbol-IsTokenRead t pos [] out more ok = absurd (more refl)
read_symbol-IsTokenRead t pos (c ∷ rest) out more ok =
    let m = one-Moves pos c rest _ (ahead_refl _) in
    record {
      ahead = m.ahead;
      on_success = λ _. (
        record {
          moves = m;
          start_at = refl;
          pos_at = refl;
          ends_at = omega arith;
          read_kind = refl;
        },
        ok,
      );
      on_failure = λ e. absurd (cc e);
    }

-- What a list of checks leaves is the answer, unless they all leave the text to what comes then.
after_checks :
    (t : Tokenizer) (r next : Answer)
    → IsAnswer t r
    → t.failed ≡ false
    → (r.2 ≡ false → r.0.failed ≡ true → r.1.kind ≡ invalid)
    → (r.0.s ≡ t.s → r.0.failed ≡ false → IsTokenRead r.0 next)
    → IsTokenRead t (if r.2 || r.0.failed then r else next)
after_checks t r next a ok bad later = elim (Bool-cases r.2) [
  | inl done ↦
      let test : (r.2 || r.0.failed) ≡ true = ground (arith, done) in
      subst chosen (sym test) (record {
        ahead = a.ahead;
        on_success = λ _. (a.token done, a.clean done ok);
        on_failure = λ e. absurd (cc (e, done));
      })
  | inr not_read ↦ elim (Bool-cases r.0.failed) [
    | inl failed ↦
        let test : (r.2 || r.0.failed) ≡ true = ground (arith, failed) in
        subst chosen (sym test) (record {
          ahead = a.ahead;
          on_success = λ e. absurd (cc (e, not_read));
          on_failure = λ _. (failed, bad not_read failed);
        })
    | inr going ↦
        let test : (r.2 || r.0.failed) ≡ false = ground (arith, not_read, going) in
        let same = a.back not_read going in
        let l = later same going in
        subst chosen (sym test) (record {
          ahead = subst (λ s. IsAhead s next.0.s) same l.ahead;
          on_success = λ e.
              (subst (λ s. Covers s next.0.s next.1) same (l.on_success e).0, (l.on_success e).1);
          on_failure = l.on_failure;
        })
  ]
]
  where
    chosen : Bool → Type 0
    chosen b = IsTokenRead t (if b then r else next)

read_token-IsTokenRead :
    (t : Tokenizer) (out : Token) (expect : TokenKind)
    → HasMore t.s
    → t.failed ≡ false
    → IsTokenRead t (read_token t out expect)
unfolding read_token
read_token-IsTokenRead t out expect more ok =
    let kinds = if kind_code expect == 0 then [] else expected_checks expect tokenizer_checks in
    let r1 = try_checks kinds true t out in
    let r2 = try_checks tokenizer_checks false r1.0 r1.1 in
    after_checks t r1 _ (try_checks-IsAnswer kinds true t out more) ok
      (try_checks_invalid kinds true t out ok)
      (λ same going.
        let more1 : HasMore r1.0.s = rw same more in
        after_checks r1.0 r2 _ (try_checks-IsAnswer tokenizer_checks false r1.0 r1.1 more1) going
          (try_checks_invalid tokenizer_checks false r1.0 r1.1 going)
          (λ same2 going2.
            let more2 : HasMore r2.0.s = rw same2 more1 in
            read_symbol-IsTokenRead r2.0 r2.0.s.pos r2.0.s.rest r2.1 more2 going2))

-- How a call ends: at the end of the text, at a newline, with a token that covers bytes, or failed.
pub data IsCallEnd (t : Tokenizer) (r : Answer) : Type 0 where
  at_eof :
      r.2 ≡ true
      → r.1.kind ≡ eof
      → r.1.start ≡ some r.0.s.pos
      → r.1.length ≡ 0
      → r.1.pos ≡ r.0.s.pos
      → r.0.s.rest ≡ []
      → r.0.failed ≡ false
      → IsAhead t.s r.0.s
      → IsCallEnd t r
  at_newline :
      r.2 ≡ true → IsNewline r.0.s r.1 → r.0.failed ≡ false → Moves t.s r.0.s → IsCallEnd t r
  at_token :
      (s : Scanner)
      → r.2 ≡ true
      → r.0.failed ≡ false
      → IsAhead t.s s
      → Covers s r.0.s r.1
      → IsCallEnd t r
  gives_up :
      r.2 ≡ false → r.0.failed ≡ true → r.1.kind ≡ invalid → IsAhead t.s r.0.s → IsCallEnd t r

-- What a call makes of what skipping leaves; `next` is what is read behind it.
pub after_skip : Tokenizer → Skipped → Answer → Answer
after_skip t r next =
    if t.failed
    then (t, invalid_token none t.s.pos, false)
    else if r.2
    then (r.0, r.1, true)
    else if r.0.failed
    then (r.0, invalid_token none r.0.err_pos, false)
    else if scan_eof r.0.s
    then (r.0, record { kind = eof; start = some r.0.s.pos; length = 0; pos = r.0.s.pos }, true)
    else next

pub after_skip_none :
    (t : Tokenizer) (out : Token) (next : Answer)
    → t.failed ≡ false
    → scan_eof t.s ≡ false
    → after_skip t (t, out, false) next ≡ next
unfolding after_skip
after_skip_none t out next ok more = rw (ok, more, after_skip) refl

pub next-after_skip :
    (t : Tokenizer) (out : Token) (expect : TokenKind)
    → tokenizer_next_expecting t out expect
      ≡ after_skip t
          (skip_ws_and_comments t out)
          (read_token (skip_ws_and_comments t out).0 (skip_ws_and_comments t out).1 expect)
unfolding tokenizer_next_expecting after_skip
next-after_skip t out expect = refl

eof-rest : (s : Scanner) → scan_eof s ≡ true → s.rest ≡ []
unfolding scan_eof
eof-rest s h = ground (arith, h)

more-HasMore : (s : Scanner) → scan_eof s ≡ false → HasMore s
unfolding scan_eof
more-HasMore s h e = absurd (cc (rw e at h))

read-IsCallEnd :
    (t : Tokenizer) (r next : Answer) → IsAhead t.s r.0.s → IsTokenRead r.0 next → IsCallEnd t next
read-IsCallEnd t r next a h = elim (Bool-cases next.2) [
  | inl done ↦ let (covers, ok) = h.on_success done in at_token r.0.s done ok a covers
  | inr none_read ↦
      let (failed, kind) = h.on_failure none_read in
      gives_up none_read failed kind (ahead_trans a h.ahead)
]

after_skip-IsCallEnd :
    (t : Tokenizer) (r next : Answer)
    → t.failed ≡ false
    → IsSkipped t r
    → (r.0.failed ≡ false → HasMore r.0.s → IsTokenRead r.0 next)
    → IsCallEnd t (after_skip t r next)
unfolding after_skip
after_skip-IsCallEnd t r next ok skipped later = elim (Bool-cases r.2) [
  | inl found ↦
      let (line, more) = skipped.at_newline found in
      rw (ok, found, after_skip)
        (at_newline refl line (skipped.clean found ok)
          (record { ahead = skipped.ahead; more = more }))
  | inr none_found ↦ elim (Bool-cases r.0.failed) [
    | inl failed ↦
        simp (ok, none_found, failed, after_skip) (gives_up refl failed refl skipped.ahead)
    | inr going ↦ elim (Bool-cases (scan_eof r.0.s)) [
      | inl ended ↦
          simp (ok, none_found, going, ended, after_skip)
            (at_eof refl refl refl refl refl (eof-rest r.0.s ended) going skipped.ahead)
      | inr more ↦
          simp (ok, none_found, going, more, after_skip)
            (read-IsCallEnd t r next skipped.ahead (later going (more-HasMore r.0.s more)))
    ]
  ]
]

skip_ws-IsSkipped : (t : Tokenizer) (out : Token) → IsSkipped t (skip_ws_and_comments t out)
unfolding skip_ws_and_comments
skip_ws-IsSkipped t out = skip_rounds-IsSkipped (suc (length t.s.rest)) t out

-- Every call on a tokenizer that has not failed ends at the end of the text, at a newline that is read
-- over (its token starts behind it), with a token that covers at least one byte behind what is skipped,
-- or it fails with an invalid token; the scanner never moves back.
pub next-IsCallEnd :
    (t : Tokenizer) (out : Token) (expect : TokenKind)
    → t.failed ≡ false
    → IsCallEnd t (tokenizer_next_expecting t out expect)
next-IsCallEnd t out expect ok =
    let r = skip_ws_and_comments t out in
    subst (IsCallEnd t) (sym (next-after_skip t out expect)) (
      after_skip-IsCallEnd t r (read_token r.0 r.1 expect) ok (skip_ws-IsSkipped t out)
        (λ going more. read_token-IsTokenRead r.0 r.1 expect more going))
