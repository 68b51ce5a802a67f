-- ===== src/Tokenizer/Comments.antt =====
-- Comments move the scanner forward, so the loop over them ends.
use mathlib.Core.Path.{subst}
use redlib.Prelude.{
  ℕ, zero, suc, ◌≡◌, ◌<◌, refl, sym, Bool, true, false, not, ◌&&◌, List, [], ◌∷◌, some, length,
  arith, ◌==◌, Bool-cases, inl, inr, Option-cases,
}
use redlib.Scanner.{Scanner, behind, scan_eof, scan_match, scan_skip_ws}
use redlib.Scanner.Ahead.{
  IsAhead, ahead_refl, ahead_trans, ahead_one, through_from-IsAhead, while_from-IsAhead, Moves,
  one-Moves, ahead_Moves,
}
use redlib.Slices.{is_ws}
use redlib.Tokenizer.State.{
  Token, newline, Tokenizer, unterminated_comment, TokenizerComment, no_comments, slash, hash, semi,
}
use redlib.Tokenizer.Skip.{
  block_comment, Comment, absent, closed, unclosed, at_end, block_end, line_comment, after_slash,
  slash_comment, comment_at, Skipped, by_comment, skip_rounds, ends_line,
}
use redlib.Tokenizer.Advance.{at}
use redlib.Tokenizer.Answers.{fail_scanner}

-- A comment has at least one byte.
abbrev pub IsComment : Scanner → Comment → Type 0
IsComment s absent = Unit
IsComment s (closed s') = Moves s s'
IsComment s (unclosed s') = Moves s s'

at_end-IsAhead : (pos : ℕ) (rest : List ℕ) → IsAhead (at pos rest) (at_end pos rest)
unfolding at_end
at_end-IsAhead pos [] = ahead_refl _
at_end-IsAhead pos (c ∷ rest) = ahead_trans (ahead_one pos c rest) (at_end-IsAhead (suc pos) rest)

block_comment-IsAhead :
    (pos : ℕ) (rest : List ℕ) (s' : Scanner)
    → block_comment pos rest ≡ some s'
    → IsAhead (at pos rest) s'
unfolding block_comment
block_comment-IsAhead pos [] s' h = absurd (cc h)
block_comment-IsAhead pos (c ∷ []) s' h = absurd (cc h)
block_comment-IsAhead pos (c ∷ d ∷ rest) s' h = elim (Bool-cases (c == b'*' && d == b'/')) [
  | inl ends ↦
      let e : behind (suc pos) rest ≡ s' = cc (rw (ends, block_comment) at h) in
      subst (IsAhead (at pos (c ∷ d ∷ rest))) e
        (ahead_trans (ahead_one pos c (d ∷ rest)) (ahead_one (suc pos) d rest))
  | inr goes ↦
      ahead_trans (ahead_one pos c (d ∷ rest))
        (block_comment-IsAhead (suc pos) (d ∷ rest) s' (rw (goes, block_comment) at h))
]

line_comment-IsComment :
    (pos : ℕ) (rest : List ℕ) (c : ℕ) → IsComment (at pos rest) (line_comment (at pos rest) c)
unfolding line_comment scan_match
line_comment-IsComment pos [] c = tt
line_comment-IsComment pos (d ∷ rest) c = elim (Bool-cases (d == c)) [
  | inl here ↦ rw here (one-Moves pos d rest _ (through_from-IsAhead ends_line (suc pos) rest))
  | inr other ↦ rw other tt
]

later_comment : {s s1 : Scanner} → IsAhead s s1 → (c : Comment) → IsComment s1 c → IsComment s c
later_comment h absent k = tt
later_comment h (closed s') k = ahead_Moves h k
later_comment h (unclosed s') k = ahead_Moves h k

block_end-IsComment :
    (pos c : ℕ) (rest : List ℕ) → IsComment (at pos (c ∷ rest)) (block_end (suc pos) rest)
unfolding block_end
block_end-IsComment pos c rest = elim (Option-cases (block_comment (suc pos) rest)) [
  | inl open_end ↦ rw (open_end, block_end) (one-Moves pos c rest _ (at_end-IsAhead (suc pos) rest))
  | inr (s', e) ↦
      rw (e, block_end) (one-Moves pos c rest s' (block_comment-IsAhead (suc pos) rest s' e))
]

after_slash-IsComment :
    (pos : ℕ) (rest : List ℕ) → IsComment (at pos rest) (after_slash (at pos rest))
unfolding after_slash scan_match
after_slash-IsComment pos [] = tt
after_slash-IsComment pos (c ∷ rest) = elim (Bool-cases (c == b'/')) [
  | inl line ↦ rw line (one-Moves pos c rest _ (through_from-IsAhead ends_line (suc pos) rest))
  | inr other ↦ elim (Bool-cases (c == b'*')) [
    | inl block ↦ rw (other, block) (block_end-IsComment pos c rest)
    | inr plain ↦ rw (other, plain) tt
  ]
]

slash_comment-IsComment :
    (pos : ℕ) (rest : List ℕ) → IsComment (at pos rest) (slash_comment (at pos rest))
unfolding slash_comment scan_match
slash_comment-IsComment pos [] = tt
slash_comment-IsComment pos (c ∷ rest) = elim (Bool-cases (c == b'/')) [
  | inl here ↦ rw here (
      later_comment (ahead_one pos c rest) (after_slash (behind pos rest))
        (after_slash-IsComment (suc pos) rest))
  | inr other ↦ rw other tt
]

comment_at-IsComment : (kind : TokenizerComment) (s : Scanner) → IsComment s (comment_at kind s)
unfolding comment_at
comment_at-IsComment no_comments s = tt
comment_at-IsComment slash s = slash_comment-IsComment s.pos s.rest
comment_at-IsComment hash s = line_comment-IsComment s.pos s.rest b'#'
comment_at-IsComment semi s = line_comment-IsComment s.pos s.rest b';'

-- The token of a newline that has been read: its start and its position are behind the newline.
pub record IsNewline (s : Scanner) (out : Token) : Type 0 where
  pub is_kind : out.kind ≡ newline
  pub start_at : out.start ≡ some s.pos
  pub long : out.length ≡ 1
  pub pos_at : out.pos ≡ s.pos

-- What skipping leaves: a newline token, or a scanner further on.
pub record IsSkipped (t : Tokenizer) (r : Tokenizer × Token × Bool) : Type 0 where
  pub ahead : IsAhead t.s r.0.s
  pub at_newline : r.2 ≡ true → IsNewline r.0.s r.1 × (t.s.pos < r.0.s.pos)
  pub clean : r.2 ≡ true → t.failed ≡ false → r.0.failed ≡ false

none-IsSkipped :
    (t : Tokenizer) (s' : Scanner) (out : Token)
    → IsAhead t.s s'
    → IsSkipped t (record t { s = s' }, out, false)
none-IsSkipped t s' out h = record { ahead = h; at_newline = λ e. absurd (cc e); clean = λ e _. cc }

scan_match-Moves :
    (pos : ℕ) (rest : List ℕ) (c : ℕ)
    → (scan_match (at pos rest) c).0 ≡ true
    → Moves (at pos rest) (scan_match (at pos rest) c).1
unfolding scan_match
scan_match-Moves pos [] c h = absurd (cc h)
scan_match-Moves pos (d ∷ rest) c h = elim (Bool-cases (d == c)) [
  | inl here ↦ rw here (one-Moves pos d rest _ (ahead_refl _))
  | inr other ↦ absurd (cc (rw other at h))
]

by_comment-IsSkipped :
    (go_on : Tokenizer → Skipped) (t : Tokenizer) (out : Token) (s : Scanner) (c : Comment)
    → ((t' : Tokenizer) → IsSkipped t' (go_on t'))
    → IsAhead t.s s
    → IsComment s c
    → IsSkipped t (by_comment go_on t out s c)
unfolding by_comment
by_comment-IsSkipped go_on t out s absent ih h k = none-IsSkipped t s out h
by_comment-IsSkipped go_on t out s (closed s') ih h k =
    let r = ih (record t { s = s' }) in
    record {
      ahead = ahead_trans h (ahead_trans k.ahead r.ahead);
      at_newline = λ e.
          let (line, more) = r.at_newline e in (line, omega (arith, (ahead_Moves h k).more, more));
      clean = λ e ok. r.clean e ok;
    }
by_comment-IsSkipped go_on t out s (unclosed s') ih h k =
    let t' = record t { s = s' } in
    record {
      ahead =
          subst (IsAhead t.s) (sym (fail_scanner t' unterminated_comment)) (ahead_trans h k.ahead);
      at_newline = λ e. absurd (cc e);
      clean = λ e _. cc;
    }

pub skip_rounds-IsSkipped :
    (rounds : ℕ) (t : Tokenizer) (out : Token) → IsSkipped t (skip_rounds rounds t out)
unfolding skip_rounds scan_skip_ws
skip_rounds-IsSkipped zero t out = none-IsSkipped t t.s out (ahead_refl t.s)
skip_rounds-IsSkipped (suc rounds) t out =
    let s = scan_skip_ws t.s (not t.parse_newline) in
    let a = while_from-IsAhead (is_ws (not t.parse_newline)) t.s.pos t.s.rest in
    elim (Bool-cases (scan_eof s)) [
      | inl ended ↦ rw (ended, skip_rounds) (none-IsSkipped t s out a)
      | inr more ↦ elim (Bool-cases (scan_match s b'\n').0) [
        | inl found ↦
            let m = ahead_Moves a (scan_match-Moves s.pos s.rest b'\n' found) in
            rw (more, found, skip_rounds)
              (record {
                ahead = m.ahead;
                at_newline = λ _. (
                  record { is_kind = refl; start_at = refl; long = refl; pos_at = refl },
                  m.more,
                );
                clean = λ _ ok. ok;
              })
        | inr other ↦
            rw (more, other, skip_rounds)
              (by_comment-IsSkipped (λ t'. skip_rounds rounds t' out) t out s
                (comment_at t.comment_type s) (λ t'. skip_rounds-IsSkipped rounds t' out) a
                (comment_at-IsComment t.comment_type s))
      ]
    ]
