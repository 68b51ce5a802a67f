-- ===== src/Tokenizer/Read.antt =====
-- The other readers: `read_identifier`, `read_string`, `read_operator` and `read_delim`.
use redlib.Prelude.{
  ℕ, zero, suc, ◌-◌, Bool, true, false, not, ◌&&◌, ◌||◌, List, [], ◌∷◌, Option, none, some,
  if◌then◌else◌, ◌==◌,
}
use redlib.Scanner.{
  Scanner, behind, scan_eof, scan_peek, scan_next, scan_match, match_from, scan_while,
}
use redlib.Numbers.{is_digit}
use redlib.Tokenizer.State.{
  Token, TokenKind, identifier, string, const, operator, lparen, rparen, lbrace, rbrace, lbracket,
  rbracket, comma, colon, semicolon, dot, Tokenizer, tokenizer_fail, unterminated_string,
  valid_identifier,
}
use redlib.Tokenizer.NumberToken.{is_hex_digit}

-- A token from one scanner to another.
abbrev pub token_to : TokenKind → Scanner → Scanner → Token
token_to kind s s' = record {
  kind = kind;
  start = some s.pos;
  length = s'.pos - s.pos;
  pos = s.pos;
}

-- The first byte is read without a test.
unfoldable pub read_identifier : Tokenizer → Tokenizer × Token
unfolding scan_next
read_identifier t =
    let (_, s1) = scan_next t.s in
    let s' = scan_while (valid_identifier t false) s1 in
    (record t { s = s' }, token_to identifier t.s s')

abbrev pub is_escape : ℕ → Bool
is_escape e =
    e == b'"'
    || e == b'\\'
    || e == b'/'
    || e == b'b'
    || e == b'f'
    || e == b'n'
    || e == b'r'
    || e == b't'

-- Where the loop of `read_string` stands: between characters, behind a backslash, or before some
-- more hexadecimal digits.
pub data StringMode : Type 0 where
  between : StringMode
  escaped : StringMode
  digits : ℕ → StringMode

-- The scanner behind the closing quote, or where the loop gives up.
pub data StringEnd : Type 0 where
  closed_at : Scanner → StringEnd
  broken_at : Scanner → StringEnd

-- How the loop goes on after a byte: `none` where it gives up.
unfoldable pub string_step : StringMode → ℕ → Option StringMode
string_step between c = if c == b'\\' then some escaped else some between
string_step escaped c =
    if c == b'u' then some (digits 3) else if is_escape c then some between else none
string_step (digits zero) c = if is_hex_digit c then some between else none
string_step (digits (suc n)) c = if is_hex_digit c then some (digits n) else none

abbrev pub is_between : StringMode → Bool
is_between between = true
is_between _ = false

unfoldable pub string_from : StringMode → ℕ → List ℕ → StringEnd
unfolding string_step
string_from mode pos [] = broken_at (record { pos = pos; rest = [] })
string_from mode pos (c ∷ rest) =
    if is_between mode && c == b'"'
    then closed_at (behind pos rest)
    else elim (string_step mode c) [
      | none ↦ broken_at (behind pos rest)
      | some mode' ↦ string_from mode' (suc pos) rest
    ]

abbrev pub end_scanner : StringEnd → Scanner
end_scanner (closed_at s') = s'
end_scanner (broken_at s') = s'

unfoldable pub end_string : Tokenizer → Token → StringEnd → Tokenizer × Token × Bool
end_string t out (closed_at s') =
    (record t { s = s' }, token_to (if t.skip_type_check then const else string) t.s s', true)
end_string t out (broken_at s') =
    (tokenizer_fail (record t { s = s' }) unterminated_string, out, false)

unfoldable pub read_string : Tokenizer → Token → Tokenizer × Token × Bool
unfolding string_from end_string
read_string t out =
    let (found, s) = scan_match t.s b'"' in
    if not found then (t, out, false) else end_string t out (string_from between s.pos s.rest)

abbrev pub ops3 : List (List ℕ)
ops3 =
    (b'>' ∷ b'>' ∷ b'>' ∷ [])
    ∷ (b'<' ∷ b'<' ∷ b'=' ∷ [])
    ∷ (b'>' ∷ b'>' ∷ b'=' ∷ [])
    ∷ (b'=' ∷ b'=' ∷ b'=' ∷ [])
    ∷ []

abbrev pub ops2 : List (List ℕ)
ops2 =
    (b'=' ∷ b'=' ∷ [])
    ∷ (b'!' ∷ b'=' ∷ [])
    ∷ (b'<' ∷ b'=' ∷ [])
    ∷ (b'>' ∷ b'=' ∷ [])
    ∷ (b'&' ∷ b'&' ∷ [])
    ∷ (b'|' ∷ b'|' ∷ [])
    ∷ (b'<' ∷ b'<' ∷ [])
    ∷ (b'>' ∷ b'>' ∷ [])
    ∷ (b'+' ∷ b'=' ∷ [])
    ∷ (b'-' ∷ b'=' ∷ [])
    ∷ (b'*' ∷ b'=' ∷ [])
    ∷ (b'/' ∷ b'=' ∷ [])
    ∷ (b'%' ∷ b'=' ∷ [])
    ∷ (b'&' ∷ b'=' ∷ [])
    ∷ (b'|' ∷ b'=' ∷ [])
    ∷ (b'^' ∷ b'=' ∷ [])
    ∷ (b':' ∷ b':' ∷ [])
    ∷ (b'-' ∷ b'>' ∷ [])
    ∷ []

abbrev pub ops1 : List ℕ
ops1 =
    b'+' ∷ b'-' ∷ b'*' ∷ b'/' ∷ b'%' ∷ b'=' ∷ b'<' ∷ b'>' ∷ b'!' ∷ b'&' ∷ b'|' ∷ b'^' ∷ b'~' ∷ b'?'
    ∷ []

-- The first operator of a list that stands at the scanner.
unfoldable pub first_op : List (List ℕ) → Scanner → Option Scanner
first_op [] s = none
first_op (op ∷ ops) s = elim (match_from op s.pos s.rest) [
  | none ↦ first_op ops s
  | some s' ↦ some s'
]

unfoldable pub contains : List ℕ → ℕ → Bool
contains [] c = false
contains (x ∷ xs) c = c == x || contains xs c

-- An operator of one byte; a minus in front of a number is left to it, unless an operator is expected.
unfoldable pub short_op : Bool → Scanner → Option Scanner
unfolding contains is_digit
short_op expected s = elim s.rest [
  | [] ↦ none
  | c ∷ rest ↦
      let next = behind s.pos rest in
      let number_next =
        not (scan_eof next) && (is_digit (scan_peek next) || scan_peek next == b'.') in
      if contains ops1 c
      then if not expected && c == b'-' && number_next then none else some next
      else none
]

-- `none` for false, with the scanner and the token as they were.
unfoldable pub read_operator : Bool → Scanner → Option (Scanner × Token)
unfolding first_op short_op
read_operator expected s =
    let token = λ (s' : Scanner). some (s', token_to operator s s') in
    elim (first_op ops3 s) [
      | some s' ↦ token s'
      | none ↦ elim (first_op ops2 s) [
        | some s' ↦ token s'
        | none ↦ elim (short_op expected s) [ some s' ↦ token s' | none ↦ none ]
      ]
    ]

unfoldable pub delim_kind : ℕ → Option TokenKind
delim_kind c =
    if c == b'('
    then some lparen
    else if c == b')'
    then some rparen
    else if c == b'{'
    then some lbrace
    else if c == b'}'
    then some rbrace
    else if c == b'['
    then some lbracket
    else if c == b']'
    then some rbracket
    else if c == b','
    then some comma
    else if c == b':'
    then some colon
    else if c == b';'
    then some semicolon
    else if c == b'.'
    then some dot
    else none

unfoldable pub read_delim : Scanner → Option (Scanner × Token)
unfolding delim_kind
read_delim s = elim s.rest [
  | [] ↦ none
  | c ∷ rest ↦ elim (delim_kind c) [
    | none ↦ none
    | some kind ↦ some (behind s.pos rest, token_to kind s (behind s.pos rest))
  ]
]
