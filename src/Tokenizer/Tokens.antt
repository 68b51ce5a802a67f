-- ===== src/Tokenizer/Tokens.antt =====
-- The calls of a client that reads to the end: they end, and their tokens lie one behind the other.
use mathlib.Core.Path.{subst}
use redlib.Prelude.{
  ℕ, zero, suc, ◌+◌, ◌≡◌, ◌≤◌, ◌<◌, refl, sym, ap, ◌∙◌, true, false, not, ◌||◌, List, [], ◌∷◌, some,
  length, arith, if◌then◌else◌, ◌==◌, Bool-cases, inl, inr, ◌⊎◌,
}
use redlib.Scanner.Ahead.{pos_of_ahead}
use redlib.Tokenizer.Answers.{is_read_kind}
use redlib.Tokenizer.State.{Token, TokenKind, eof, invalid, newline, Tokenizer, kind_code}
use redlib.Tokenizer.Next.{Answer, tokenizer_next, tokens}
use redlib.Tokenizer.Progress.{IsCallEnd, at_eof, at_newline, at_token, gives_up, next-IsCallEnd}

-- The last token is the end of the text or an invalid one.
abbrev pub Ends : List Token → Type 0
Ends [] = ⊥
Ends (x ∷ []) = (x.kind ≡ eof) ⊎ (x.kind ≡ invalid)
Ends (x ∷ y ∷ l) = Ends (y ∷ l)

-- What a call leaves: the last token, or a tokenizer that has not failed and has fewer bytes left.
data Left (t : Tokenizer) (r : Answer) : Type 0 where
  last :
      (not r.2 || kind_code r.1.kind == 0) ≡ true
      → (r.1.kind ≡ eof) ⊎ (r.1.kind ≡ invalid)
      → Left t r
  later :
      (not r.2 || kind_code r.1.kind == 0) ≡ false
      → r.0.failed ≡ false
      → length r.0.s.rest < length t.s.rest
      → Left t r

kind_eof : (kind : TokenKind) → kind_code kind ≡ 0 → kind ≡ eof
kind_eof eof h = refl
kind_eof _ h = cc h

goes_on :
    (t : Tokenizer) (r : Answer)
    → r.2 ≡ true
    → r.0.failed ≡ false
    → length r.0.s.rest < length t.s.rest
    → Left t r
goes_on t r done ok less = elim (Bool-cases (kind_code r.1.kind == 0)) [
  | inl ended ↦ last (ground (arith, done, ended)) (inl (kind_eof r.1.kind (ground (arith, ended))))
  | inr more ↦ later (ground (arith, done, more)) ok less
]

left_by : (t : Tokenizer) (r : Answer) → IsCallEnd t r → Left t r
left_by t r (at_eof done kind start long pos rest ok ahead) = last (rw (done, kind) refl) (inl kind)
left_by t r (at_newline done line ok moves) =
    goes_on t r done ok (omega (arith, pos_of_ahead moves.ahead, moves.more))
left_by t r (at_token s done ok ahead covers) = goes_on t r done ok (
    omega
      (arith, pos_of_ahead ahead, pos_of_ahead covers.moves.ahead, covers.moves.more, ahead.far))
left_by t r (gives_up failed why kind ahead) = last (rw failed refl) (inr kind)

later-Ends : (x : Token) (l : List Token) → Ends l → Ends (x ∷ l)
later-Ends x [] h = absurd h
later-Ends x (y ∷ l) h = h

-- A client that may make more calls than bytes are left reads the end of the text or an invalid token,
-- in at most one more token than there are bytes.
pub tokens_end :
    (calls : ℕ) (t : Tokenizer) (out : Token)
    → t.failed ≡ false
    → length t.s.rest < calls
    → Ends (tokens calls t out) × (length (tokens calls t out) ≤ length t.s.rest + 1)
unfolding tokens tokenizer_next
tokens_end zero t out ok h = absurd (omega arith)
tokens_end (suc calls) t out ok h =
    let r = tokenizer_next t out in
    elim (left_by t r (next-IsCallEnd t out eof ok)) [
      | last test kind ↦ rw (test, tokens) (kind, omega arith)
      | later test going less ↦
          let (ends, few) = tokens_end calls r.0 r.1 going (omega (arith, h, less)) in
          rw (test, tokens) (later-Ends r.1 (tokens calls r.0 r.1) ends, omega (arith, few, less))
    ]

-- Tokens behind a position, each behind the one before it, in a text that ends at `stop`. The token of
-- a newline has the length 1 and starts behind its newline: where the token that follows it may start,
-- and at a newline that ends the text, at `stop`. An invalid token is the last, and so is the end.
pub data InOrder (stop : ℕ) : ℕ → List Token → Type 0 where
  nothing : (from : ℕ) → InOrder stop from []
  no_token : (from : ℕ) (x : Token) → x.kind ≡ invalid → InOrder stop from (x ∷ [])
  text_end :
      (from : ℕ) (x : Token)
      → x.kind ≡ eof
      → x.start ≡ some stop
      → x.length ≡ 0
      → x.pos ≡ stop
      → from ≤ stop
      → InOrder stop from (x ∷ [])
  line_end :
      (from : ℕ) (x : Token) (l : List Token)
      → x.kind ≡ newline
      → x.start ≡ some x.pos
      → x.length ≡ 1
      → from < x.pos
      → x.pos ≤ stop
      → InOrder stop x.pos l
      → InOrder stop from (x ∷ l)
  bytes :
      (from : ℕ) (x : Token) (l : List Token)
      → is_read_kind x.kind ≡ true
      → x.start ≡ some x.pos
      → from ≤ x.pos
      → 0 < x.length
      → x.pos + x.length ≤ stop
      → InOrder stop (x.pos + x.length) l
      → InOrder stop from (x ∷ l)

-- The position of the tokenizer and the bytes behind it.
abbrev text_stop : Tokenizer → ℕ
text_stop t = t.s.pos + length t.s.rest

one_call :
    (stop : ℕ) (t : Tokenizer) (r : Answer) (more : List Token)
    → text_stop t ≡ stop
    → IsCallEnd t r
    → (r.0.failed ≡ false → text_stop r.0 ≡ stop → InOrder stop r.0.s.pos more)
    → InOrder stop t.s.pos (if not r.2 || kind_code r.1.kind == 0 then r.1 ∷ [] else r.1 ∷ more)
one_call stop t r more here (at_eof done kind start long pos rest ok ahead) go_on =
    let stopped : r.0.s.pos ≡ stop = omega (arith, pos_of_ahead ahead, ap length rest, here) in
    simp (done, kind)
      (text_end t.s.pos r.1 kind (start ∙ ap some stopped) long (pos ∙ stopped)
        (omega (arith, ahead.far, stopped)))
one_call stop t r more here (at_newline done line ok moves) go_on =
    let pos = line.pos_at in
    let left = pos_of_ahead moves.ahead in
    let behind_it =
      line_end t.s.pos r.1 more line.is_kind (line.start_at ∙ ap some (sym pos)) line.long
        (omega (arith, moves.more, pos)) (omega (arith, left, here, pos))
        (subst (λ from. InOrder stop from more) (sym pos) (go_on ok (omega (arith, left, here)))) in
    simp (done, line.is_kind) behind_it
one_call stop t r more here (at_token s done ok ahead covers) go_on =
    let left = pos_of_ahead ahead in
    let left2 = pos_of_ahead covers.moves.ahead in
    let token_end : r.1.pos + r.1.length ≡ r.0.s.pos =
      omega (arith, covers.pos_at, covers.ends_at) in
    let start : r.1.start ≡ some r.1.pos = covers.start_at ∙ ap some (sym covers.pos_at) in
    let token = λ (l : List Token). λ (h : InOrder stop (r.1.pos + r.1.length) l).
      bytes t.s.pos r.1 l covers.read_kind start (omega (arith, covers.pos_at, ahead.far))
        (omega (arith, covers.ends_at, covers.moves.more))
        (omega (arith, token_end, left2, left, here)) h in
    elim (Bool-cases (kind_code r.1.kind == 0)) [
      | inl ended ↦ rw (done, ended) (token [] (nothing (r.1.pos + r.1.length)))
      | inr goes ↦
          rw (done, goes)
            (token more (
              subst (λ from. InOrder stop from more) (sym token_end)
                (go_on ok (omega (arith, left, left2, here)))))
    ]
one_call stop t r more here (gives_up failed why kind ahead) go_on =
    rw failed (no_token t.s.pos r.1 kind)

tokens_behind :
    (stop calls : ℕ) (t : Tokenizer) (out : Token)
    → t.failed ≡ false
    → text_stop t ≡ stop
    → InOrder stop t.s.pos (tokens calls t out)
unfolding tokens tokenizer_next
tokens_behind stop zero t out ok here = nothing t.s.pos
tokens_behind stop (suc calls) t out ok here =
    let r = tokenizer_next t out in
    one_call stop t r (tokens calls r.0 r.1) here (next-IsCallEnd t out eof ok)
      (λ going there. tokens_behind stop calls r.0 r.1 going there)

-- On a tokenizer that has not failed the tokens of a client that are neither newlines nor invalid lie in
-- the text, in its order, without overlap, and none is empty but the end of the text. The token of a
-- newline has the length 1 and starts at least one byte behind the end of the token before it, where the
-- next token may start too, and at most at the end of the text. Only the last token can be invalid or
-- the end of the text.
pub tokens-InOrder :
    (calls : ℕ) (t : Tokenizer) (out : Token)
    → t.failed ≡ false
    → InOrder (t.s.pos + length t.s.rest) t.s.pos (tokens calls t out)
tokens-InOrder calls t out ok = tokens_behind (text_stop t) calls t out ok refl
