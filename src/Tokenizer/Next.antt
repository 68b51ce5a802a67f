-- ===== src/Tokenizer/Next.antt =====
-- `tokenizer_next_expecting` with its checks, and the calls of a client that reads to the end.
use redlib.Prelude.{
  ℕ, zero, suc, Bool, true, false, not, ◌&&◌, ◌||◌, List, [], ◌∷◌, Option, none, some,
  if◌then◌else◌, ◌==◌,
}
use redlib.Scanner.{Scanner, behind, scan_eof, scan_peek}
use redlib.Tokenizer.State.{
  Token, TokenKind, eof, invalid, identifier, number, string, operator, symbol, Tokenizer,
  tokenizer_fail, invalid_number, unterminated_string, valid_identifier, kind_code,
}
use redlib.Tokenizer.Skip.{skip_ws_and_comments}
use redlib.Tokenizer.NumberToken.{starts_number, read_number}
use redlib.Tokenizer.Read.{read_identifier, read_string, read_operator, read_delim}

abbrev pub Answer : Type 0
Answer = Tokenizer × Token × Bool

-- An invalid token without text at a position.
abbrev pub invalid_token : Option ℕ → ℕ → Token
invalid_token start pos = record { kind = invalid; start = start; length = 0; pos = pos }

unfoldable pub valid_number : Tokenizer → Token → Answer
unfolding starts_number
valid_number t out =
    let c = scan_peek t.s in
    let (t', out', done) = read_number t out in
    if not (starts_number c)
    then (t, out, false)
    else if done
    then (t', out', true)
    else if not (c == b'-') && not (c == b'.')
    then (tokenizer_fail t' invalid_number, invalid_token (some t.s.pos) t.s.pos, false)
    else (record t' { s = t.s }, out', false)

unfoldable pub valid_string : Tokenizer → Token → Answer
valid_string t out =
    let (t', out', done) = read_string t out in
    if not (scan_peek t.s == b'"')
    then (t, out, false)
    else if done
    then (t', out', true)
    else (tokenizer_fail t' unterminated_string, invalid_token (some t.s.pos) t.s.pos, false)

-- The answer of a reader that leaves all as it was if it fails.
abbrev pub answer_of : Tokenizer → Token → Option (Scanner × Token) → Answer
answer_of t out none = (t, out, false)
answer_of t out (some (s', out')) = (record t { s = s' }, out', true)

-- The entry of `tokenizer_checks` with the given kind; the delimiters are listed as `invalid`.
unfoldable pub check : TokenKind → Bool → Tokenizer → Token → Answer
unfolding valid_number valid_string
check identifier expected t out =
    if valid_identifier t true (scan_peek t.s)
    then (let (t', out') = read_identifier t in (t', out', true))
    else (t, out, false)
check operator expected t out = answer_of t out (read_operator expected t.s)
check number expected t out = valid_number t out
check string expected t out = valid_string t out
check invalid expected t out = answer_of t out (read_delim t.s)
check _ expected t out = (t, out, false)

-- The checks up to the first that reads a token or fails.
unfoldable pub try_checks : List TokenKind → Bool → Tokenizer → Token → Answer
unfolding check
try_checks [] expected t out = (t, out, false)
try_checks (kind ∷ kinds) expected t out =
    let (t', out', done) = check kind expected t out in
    if done
    then (t', out', true)
    else if t'.failed
    then (t', invalid_token none t'.err_pos, false)
    else try_checks kinds expected t' out'

abbrev pub tokenizer_checks : List TokenKind
tokenizer_checks = identifier ∷ operator ∷ number ∷ string ∷ invalid ∷ []

-- The check for an expected kind, if there is one.
unfoldable pub expected_checks : TokenKind → List TokenKind → List TokenKind
expected_checks expect [] = []
expected_checks expect (kind ∷ kinds) =
    if kind_code kind == kind_code expect then kind ∷ [] else expected_checks expect kinds

unfoldable pub read_symbol : Tokenizer → Token → Answer
read_symbol t out = elim t.s.rest [
  | [] ↦ (t, out, false)
  | c ∷ rest ↦ (
    record t { s = behind t.s.pos rest },
    record { kind = symbol; start = some t.s.pos; length = 1; pos = t.s.pos },
    true,
  )
]

-- What follows where white space and comments are skipped and the text goes on.
unfoldable pub read_token : Tokenizer → Token → TokenKind → Answer
unfolding try_checks expected_checks read_symbol
read_token t out expect =
    let kinds = if kind_code expect == 0 then [] else expected_checks expect tokenizer_checks in
    let (t1, out1, done1) = try_checks kinds true t out in
    let (t2, out2, done2) = try_checks tokenizer_checks false t1 out1 in
    if done1 || t1.failed
    then (t1, out1, done1)
    else if done2 || t2.failed
    then (t2, out2, done2)
    else read_symbol t2 out2

unfoldable pub tokenizer_next_expecting : Tokenizer → Token → TokenKind → Answer
unfolding read_token
tokenizer_next_expecting t out expect =
    let (t', out', found) = skip_ws_and_comments t out in
    if t.failed
    then (t, invalid_token none t.s.pos, false)
    else if found
    then (t', out', true)
    else if t'.failed
    then (t', invalid_token none t'.err_pos, false)
    else if scan_eof t'.s
    then (t', record { kind = eof; start = some t'.s.pos; length = 0; pos = t'.s.pos }, true)
    else read_token t' out' expect

unfoldable pub tokenizer_next : Tokenizer → Token → Answer
unfolding tokenizer_next_expecting
tokenizer_next t out = tokenizer_next_expecting t out eof

-- The tokens that a client gets that reads until the end of the text or a failure.
unfoldable pub tokens : ℕ → Tokenizer → Token → List Token
unfolding tokenizer_next
tokens zero t out = []
tokens (suc calls) t out =
    let (t', out', ok) = tokenizer_next t out in
    let rest = tokens calls t' out' in
    if not ok || kind_code out'.kind == 0 then out' ∷ [] else out' ∷ rest
