-- ===== src/Tokenizer/Checks.antt =====
-- The answers of all checks, and of a list of them.
use mathlib.Core.Path.{subst}
use redlib.Prelude.{
  ℕ, suc, ◌≡◌, refl, sym, ◌∙◌, Bool, true, false, List, [], ◌∷◌, Bool-cases, inl, inr,
}
use redlib.Scanner.{scan_peek, scan_next, while_from}
use redlib.Scanner.Ahead.{IsAhead, while_from-IsAhead, one-Moves}
use redlib.Tokenizer.State.{
  Token, TokenKind, invalid, identifier, number, string, operator, Tokenizer, valid_identifier,
}
use redlib.Tokenizer.Read.{read_identifier, token_to}
use redlib.Tokenizer.Next.{Answer, check, try_checks}
use redlib.Tokenizer.Advance.{at}
use redlib.Tokenizer.Answers.{
  Covers, token_to-Covers, IsAnswer, nothing_read, token_read, answer_of-IsAnswer,
  read_operator-Covers, read_delim-Covers, HasMore, rest_cases,
}
use redlib.Tokenizer.Literals.{valid_number-IsAnswer, valid_string-IsAnswer}

check_identifier-IsAnswer :
    (expected : Bool) (t : Tokenizer) (pos c : ℕ) (rest : List ℕ) (out : Token)
    → IsAnswer
        (record t { s = at pos (c ∷ rest) })
        (check identifier expected (record t { s = at pos (c ∷ rest) }) out)
unfolding check read_identifier scan_peek scan_next
check_identifier-IsAnswer expected t pos c rest out =
    let u = record t { s = at pos (c ∷ rest) } in
    let s' = while_from (valid_identifier u false) (suc pos) rest in
    elim (Bool-cases (valid_identifier u true c)) [
      | inl good ↦
          rw (good, check)
            (token_read u s' (token_to identifier u.s s') (
              token_to-Covers identifier u.s s' refl (
                one-Moves pos c rest s'
                  (while_from-IsAhead (valid_identifier u false) (suc pos) rest))))
      | inr bad ↦ rw (bad, check) (nothing_read u out)
    ]

check-IsAnswer :
    (kind : TokenKind) (expected : Bool) (t : Tokenizer) (out : Token)
    → HasMore t.s
    → IsAnswer t (check kind expected t out)
unfolding check
check-IsAnswer identifier expected t out h =
    let (c, rest, e) = rest_cases t.s.rest h in
    subst
      (λ l.
        IsAnswer (record t { s = at t.s.pos l })
          (check identifier expected (record t { s = at t.s.pos l }) out))
      (sym e) (check_identifier-IsAnswer expected t t.s.pos c rest out)
check-IsAnswer operator expected t out h =
    answer_of-IsAnswer t out _ (λ s' out' e. read_operator-Covers expected t.s s' out' e)
check-IsAnswer number expected t out h = valid_number-IsAnswer t out
check-IsAnswer string expected t out h = valid_string-IsAnswer t out
check-IsAnswer invalid expected t out h =
    answer_of-IsAnswer t out _ (λ s' out' e. read_delim-Covers t.s.pos t.s.rest s' out' e)
check-IsAnswer _ expected t out h = nothing_read t out

-- What is answered after a check that leaves the scanner where it was.
later_answer :
    (t t' : Tokenizer) (r : Answer) → t'.s ≡ t.s → t'.failed ≡ false → IsAnswer t' r → IsAnswer t r
later_answer t t' r same ok a = record {
  ahead = subst (λ s. IsAhead s r.0.s) same a.ahead;
  token = λ e. subst (λ s. Covers s r.0.s r.1) same (a.token e);
  clean = λ e _. a.clean e ok;
  back = λ e f. a.back e f ∙ same;
}

pub try_checks-IsAnswer :
    (kinds : List TokenKind) (expected : Bool) (t : Tokenizer) (out : Token)
    → HasMore t.s
    → IsAnswer t (try_checks kinds expected t out)
unfolding try_checks
try_checks-IsAnswer [] expected t out more = nothing_read t out
try_checks-IsAnswer (kind ∷ kinds) expected t out more =
    let r = check kind expected t out in
    let a = check-IsAnswer kind expected t out more in
    elim (Bool-cases r.2) [
      | inl done ↦
          rw (done, try_checks)
            (record {
              ahead = a.ahead;
              token = λ _. a.token done;
              clean = λ _. a.clean done;
              back = λ e. cc;
            })
      | inr not_read ↦ elim (Bool-cases r.0.failed) [
        | inl failed ↦
            rw (not_read, failed, try_checks)
              (record {
                ahead = a.ahead;
                token = λ e. cc;
                clean = λ e _. cc;
                back = λ _ e. absurd (cc (e, failed));
              })
        | inr going ↦
            let same = a.back not_read going in
            rw (not_read, going, try_checks)
              (later_answer t r.0 _ same going
                (try_checks-IsAnswer kinds expected r.0 r.1 (rw same more)))
      ]
    ]
