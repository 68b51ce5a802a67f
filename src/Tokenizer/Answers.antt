-- ===== src/Tokenizer/Answers.antt =====
-- What the checks answer: a token that covers the bytes read, a failure, or nothing; operators and
-- delimiters.
use mathlib.Core.Path.{subst}
use redlib.Prelude.{
  ℕ, ◌+◌, ◌≡◌, ◌≢◌, refl, sym, Bool, true, false, List, [], ◌∷◌, Option, none, some, arith, inl,
  inr, Option-cases,
}
use redlib.Scanner.{Scanner, behind}
use redlib.Scanner.Ahead.{IsAhead, ahead_refl, Moves, one-Moves}
use redlib.Tokenizer.State.{
  Token, TokenKind, eof, invalid, identifier, number, string, const, operator, lparen, rparen,
  lbrace, rbrace, lbracket, rbracket, comma, colon, semicolon, dot, symbol, newline, Tokenizer,
  TokenizerError, tokenizer_fail,
}
use redlib.Tokenizer.Read.{
  first_op, short_op, ops2, ops3, read_operator, read_delim, delim_kind, token_to,
}
use redlib.Tokenizer.Next.{Answer, answer_of}
use redlib.Tokenizer.Advance.{at, first_op-Moves, short_op-Moves}

-- The kinds of tokens that are read from bytes, but for newlines.
abbrev pub is_read_kind : TokenKind → Bool
is_read_kind eof = false
is_read_kind invalid = false
is_read_kind newline = false
is_read_kind _ = true

-- The token covers the bytes from one scanner to the other, at least one.
pub record Covers (s s' : Scanner) (out : Token) : Type 0 where
  pub moves : Moves s s'
  pub start_at : out.start ≡ some s.pos
  pub pos_at : out.pos ≡ s.pos
  pub ends_at : s.pos + out.length ≡ s'.pos
  pub read_kind : is_read_kind out.kind ≡ true

pub token_to-Covers :
    (kind : TokenKind) (s s' : Scanner)
    → is_read_kind kind ≡ true
    → Moves s s'
    → Covers s s' (token_to kind s s')
token_to-Covers kind s s' k h = record {
  moves = h;
  start_at = refl;
  pos_at = refl;
  ends_at = omega (arith, h.more);
  read_kind = k;
}

-- A check reads a token, or fails, or leaves the scanner where it was.
pub record IsAnswer (t : Tokenizer) (r : Answer) : Type 0 where
  pub ahead : IsAhead t.s r.0.s
  pub token : r.2 ≡ true → Covers t.s r.0.s r.1
  pub clean : r.2 ≡ true → t.failed ≡ false → r.0.failed ≡ false
  pub back : r.2 ≡ false → r.0.failed ≡ false → r.0.s ≡ t.s

pub nothing_read : (t : Tokenizer) (out : Token) → IsAnswer t (t, out, false)
nothing_read t out = record {
  ahead = ahead_refl t.s;
  token = λ h. cc;
  clean = λ h _. cc;
  back = λ _ _. refl;
}

pub token_read :
    (t : Tokenizer) (s' : Scanner) (out : Token)
    → Covers t.s s' out
    → IsAnswer t (record t { s = s' }, out, true)
token_read t s' out h = record {
  ahead = h.moves.ahead;
  token = λ _. h;
  clean = λ _ e. e;
  back = λ e. cc e;
}

pub fail_failed : (t : Tokenizer) (err : TokenizerError) → (tokenizer_fail t err).failed ≡ true
unfolding tokenizer_fail
fail_failed t err = ground arith

pub fail_scanner : (t : Tokenizer) (err : TokenizerError) → (tokenizer_fail t err).s ≡ t.s
unfolding tokenizer_fail
fail_scanner t err = ground arith

-- A check that fails further on.
pub failure :
    (t t' : Tokenizer) (err : TokenizerError) (out : Token)
    → IsAhead t.s t'.s
    → IsAnswer t (tokenizer_fail t' err, out, false)
failure t t' err out h =
    let failed = fail_failed t' err in
    record {
      ahead = subst (IsAhead t.s) (sym (fail_scanner t' err)) h;
      token = λ e. cc;
      clean = λ e _. cc;
      back = λ _ e. absurd (cc (e, failed));
    }

pub answer_of-IsAnswer :
    (t : Tokenizer) (out : Token) (r : Option (Scanner × Token))
    → ((s' : Scanner) (out' : Token) → r ≡ some (s', out') → Covers t.s s' out')
    → IsAnswer t (answer_of t out r)
answer_of-IsAnswer t out none h = nothing_read t out
answer_of-IsAnswer t out (some (s', out')) h = token_read t s' out' (h s' out' refl)

pub read_operator-Covers :
    (expected : Bool) (s s' : Scanner) (out : Token)
    → read_operator expected s ≡ some (s', out)
    → Covers s s' out
unfolding read_operator
read_operator-Covers expected s s' out h = elim (Option-cases (first_op ops3 s)) [
  | inr (u, e) ↦ taken u (first_op-Moves ops3 s u (omega arith) e) (rw (e, read_operator) at h)
  | inl no3 ↦ elim (Option-cases (first_op ops2 s)) [
    | inr (u, e) ↦
        taken u (first_op-Moves ops2 s u (omega arith) e) (rw (no3, e, read_operator) at h)
    | inl no2 ↦ elim (Option-cases (short_op expected s)) [
      | inr (u, e) ↦
          taken u (short_op-Moves expected s.pos s.rest u e) (rw (no3, no2, e, read_operator) at h)
      | inl no1 ↦ absurd (cc (rw (no3, no2, no1, read_operator) at h))
    ]
  ]
]
  where
    taken :
        (u : Scanner)
        → Moves s u
        → ◌≡◌ {A = Option (Scanner × Token)} (some (u, token_to operator s u)) (some (s', out))
        → Covers s s' out
    taken u m e =
        let same : u ≡ s' = cc e in
        let token : token_to operator s u ≡ out = cc e in
        subst (λ o. Covers s s' o) token
          (subst (λ v. Covers s v (token_to operator s u)) same
            (token_to-Covers operator s u refl m))

delim_kind-read : (c : ℕ) (kind : TokenKind) → delim_kind c ≡ some kind → is_read_kind kind ≡ true
unfolding delim_kind
delim_kind-read c kind h = by_kind kind h
  where
    by_kind : (kind : TokenKind) → delim_kind c ≡ some kind → is_read_kind kind ≡ true
    by_kind eof h = ground (arith, h)
    by_kind invalid h = ground (arith, h)
    by_kind newline h = ground (arith, h)
    by_kind identifier h = refl
    by_kind number h = refl
    by_kind string h = refl
    by_kind const h = refl
    by_kind operator h = refl
    by_kind lparen h = refl
    by_kind rparen h = refl
    by_kind lbrace h = refl
    by_kind rbrace h = refl
    by_kind lbracket h = refl
    by_kind rbracket h = refl
    by_kind comma h = refl
    by_kind colon h = refl
    by_kind semicolon h = refl
    by_kind dot h = refl
    by_kind symbol h = refl

pub read_delim-Covers :
    (pos : ℕ) (rest : List ℕ) (s' : Scanner) (out : Token)
    → read_delim (at pos rest) ≡ some (s', out)
    → Covers (at pos rest) s' out
unfolding read_delim
read_delim-Covers pos [] s' out h = absurd (cc h)
read_delim-Covers pos (c ∷ rest) s' out h = elim (Option-cases (delim_kind c)) [
  | inl other ↦ absurd (cc (rw (other, read_delim) at h))
  | inr (kind, e) ↦
      let e' : ◌≡◌ {A = Option (Scanner × Token)}
          (some (behind pos rest, token_to kind (at pos (c ∷ rest)) (behind pos rest)))
          (some (s', out)) =
        rw (e, read_delim) at h in
      let same : behind pos rest ≡ s' = cc e' in
      let token : token_to kind (at pos (c ∷ rest)) (behind pos rest) ≡ out = cc e' in
      subst (λ o. Covers (at pos (c ∷ rest)) s' o) token
        (subst
          (λ v. Covers (at pos (c ∷ rest)) v (token_to kind (at pos (c ∷ rest)) (behind pos rest)))
          same
          (token_to-Covers kind _ _ (delim_kind-read c kind e)
            (one-Moves pos c rest _ (ahead_refl _))))
]

-- A scanner that is not at the end.
abbrev pub HasMore : Scanner → Type 0
HasMore s = s.rest ≢ []

pub rest_cases : (l : List ℕ) → l ≢ [] → (c : ℕ) × (r : List ℕ) × (l ≡ c ∷ r)
rest_cases [] h = absurd (h refl)
rest_cases (c ∷ r) h = (c, r, refl)
