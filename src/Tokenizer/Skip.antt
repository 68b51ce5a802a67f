-- ===== src/Tokenizer/Skip.antt =====
-- `skip_ws_and_comments`.
use redlib.Prelude.{
  ℕ, zero, suc, Bool, true, false, not, ◌&&◌, ◌||◌, List, [], ◌∷◌, Option, none, some,
  if◌then◌else◌, ◌==◌, length,
}
use redlib.Scanner.{Scanner, behind, scan_eof, scan_match, scan_skip_ws, scan_through}
use redlib.Tokenizer.State.{
  Token, newline, Tokenizer, tokenizer_fail, unterminated_comment, TokenizerComment, no_comments,
  slash, hash, semi,
}

abbrev pub ends_line : ℕ → Bool
ends_line c = c == b'\n' || c == b'\r'

-- The loop behind `/*`: the scanner behind `*/`, or `none` at the end of the text.
unfoldable pub block_comment : ℕ → List ℕ → Option Scanner
block_comment pos [] = none
block_comment pos (c ∷ []) = none
block_comment pos (c ∷ d ∷ rest) =
    if c == b'*' && d == b'/'
    then some (behind (suc pos) rest)
    else block_comment (suc pos) (d ∷ rest)

-- What stands at the scanner: no comment, one that is read up to a scanner, or one that does not end.
pub data Comment : Type 0 where
  absent : Comment
  closed : Scanner → Comment
  unclosed : Scanner → Comment

-- The scanner at the end of the text.
unfoldable pub at_end : ℕ → List ℕ → Scanner
at_end pos [] = record { pos = pos; rest = [] }
at_end pos (c ∷ rest) = at_end (suc pos) rest

-- A comment to the end of the line, behind the byte that starts it.
unfoldable pub line_comment : Scanner → ℕ → Comment
line_comment s c =
    let (found, s') = scan_match s c in if found then closed (scan_through ends_line s') else absent

unfoldable pub block_end : ℕ → List ℕ → Comment
unfolding block_comment at_end
block_end pos rest = elim (block_comment pos rest) [
  | none ↦ unclosed (at_end pos rest)
  | some s' ↦ closed s'
]

-- Behind the first slash.
unfoldable pub after_slash : Scanner → Comment
unfolding block_end
after_slash s =
    let (line, s1) = scan_match s b'/' in
    let (block, s2) = scan_match s b'*' in
    if line
    then closed (scan_through ends_line s1)
    else if block
    then block_end s2.pos s2.rest
    else absent

unfoldable pub slash_comment : Scanner → Comment
unfolding after_slash
slash_comment s = let (first, s1) = scan_match s b'/' in if first then after_slash s1 else absent

unfoldable pub comment_at : TokenizerComment → Scanner → Comment
unfolding slash_comment line_comment
comment_at no_comments s = absent
comment_at slash s = slash_comment s
comment_at hash s = line_comment s b'#'
comment_at semi s = line_comment s b';'

abbrev pub Skipped : Type 0
Skipped = Tokenizer × Token × Bool

-- The end of a round, at a scanner behind white space: `go_on` is the next round.
unfoldable pub by_comment : (Tokenizer → Skipped) → Tokenizer → Token → Scanner → Comment → Skipped
by_comment go_on t out s absent = (record t { s = s }, out, false)
by_comment go_on t out s (closed s') = go_on (record t { s = s' })
by_comment go_on t out s (unclosed s') =
    (tokenizer_fail (record t { s = s' }) unterminated_comment, out, false)

-- The rounds of the loop: the tokenizer, the token, and whether a newline is found.
unfoldable pub skip_rounds : ℕ → Tokenizer → Token → Skipped
unfolding comment_at by_comment
skip_rounds zero t out = (t, out, false)
skip_rounds (suc rounds) t out =
    let s = scan_skip_ws t.s (not t.parse_newline) in
    let (found, s') = scan_match s b'\n' in
    if scan_eof s
    then (record t { s = s }, out, false)
    else if found
    then (
      record t { s = s' },
      record { kind = newline; start = some s'.pos; length = 1; pos = s'.pos },
      true,
    )
    else by_comment (λ t'. skip_rounds rounds t' out) t out s (comment_at t.comment_type s)

-- A comment is at least one byte long, so there are fewer than the rest is long.
unfoldable pub skip_ws_and_comments : Tokenizer → Token → Skipped
unfolding skip_rounds
skip_ws_and_comments t out = skip_rounds (suc (length t.s.rest)) t out
