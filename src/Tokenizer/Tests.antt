-- ===== src/Tokenizer/Tests.antt =====
-- Runs of the tokenizer.
use redlib.Prelude.{ℕ, ◌≡◌, ◌≤◌, ◌+◌, refl, true, false, [], ◌∷◌, ◌++◌, none, some, length, arith}
use redlib.Scanner.{
  scanner_make, scan_eof, scan_peek, scan_match, scan_skip_ws, scan_match_string, scan_to,
  while_from, through_from, match_from,
}
use redlib.Numbers.{u64_to_dec, is_digit}
use redlib.Tokenizer.Digits.{digits_token}
use redlib.Tokenizer.Decimal.{next-u64_to_dec}
use redlib.Tokenizer.State.{
  is_alpha, Token, TokenKind, eof, invalid, identifier, number, operator, newline, Tokenizer,
  tokenizer_make, tokenizer_fail, valid_identifier, slash,
}
use redlib.Tokenizer.Skip.{skip_ws_and_comments}
use redlib.Tokenizer.NumberToken.{read_number}
use redlib.Tokenizer.Read.{read_identifier, read_operator, read_string}
use redlib.Tokenizer.Next.{tokenizer_next, tokenizer_next_expecting, tokens}
use redlib.Tokenizer.Progress.{IsCallEnd, next-IsCallEnd}
use redlib.Tokenizer.Tokens.{Ends, tokens_end, InOrder, tokens-InOrder}

abbrev blank : Token
blank = record { kind = invalid; start = none; length = 0; pos = 0 }

-- The text `a=-1 //`, with comments behind two slashes.
abbrev assignment : Tokenizer
assignment =
    record (tokenizer_make (scanner_make (b'a' ∷ b'=' ∷ b'-' ∷ b'1' ∷ b' ' ∷ b'/' ∷ b'/' ∷ []))) {
      comment_type = slash;
    }

abbrev tokenizer : Tokenizer
tokenizer = tokenizer_make (scanner_make [])

abbrev lines : Tokenizer
lines = record (tokenizer_make (scanner_make (b'a' ∷ b'\n' ∷ b'b' ∷ []))) { parse_newline = true }

abbrev open_string : Tokenizer
open_string = tokenizer_make (scanner_make (b'"' ∷ b'a' ∷ b'\\' ∷ b'x' ∷ b'"' ∷ []))

abbrev token : TokenKind → ℕ → ℕ → Token
token kind pos length = record { kind = kind; start = some pos; length = length; pos = pos }

tokens-assignment :
    tokens 9 assignment blank
    ≡ token identifier 0 1 ∷ token operator 1 1 ∷ token number 2 2 ∷ token eof 7 0 ∷ []
unfolding tokens tokenizer_make skip_ws_and_comments scan_eof scan_skip_ws while_from scanner_make
    scan_match valid_identifier scan_peek read_identifier read_operator match_from read_number
    through_from read_string tokenizer_fail
tokens-assignment = refl

-- The position of a newline token is behind the newline.
tokens-lines :
    tokens 9 lines blank
    ≡ token identifier 0 1 ∷ token newline 2 1 ∷ token identifier 2 1 ∷ token eof 3 0 ∷ []
unfolding tokens tokenizer_make skip_ws_and_comments scan_eof scan_skip_ws while_from scanner_make
    scan_match valid_identifier scan_peek read_identifier read_operator match_from read_number
    through_from read_string tokenizer_fail
tokens-lines = refl

tokens-open_string :
    tokens 9 open_string blank ≡ record { kind = invalid; start = none; length = 0; pos = 4 } ∷ []
unfolding tokens tokenizer_make skip_ws_and_comments scan_eof scan_skip_ws while_from scanner_make
    scan_match valid_identifier scan_peek read_identifier read_operator match_from read_number
    through_from read_string tokenizer_fail
tokens-open_string = refl

-- An operator that is expected is read also in front of a digit.
expecting_operator :
    (tokenizer_next_expecting (tokenizer_make (scanner_make (b'-' ∷ b'1' ∷ []))) blank operator).1
    ≡ token operator 0 1
unfolding tokenizer_next_expecting tokenizer_make skip_ws_and_comments scan_eof scan_skip_ws
    while_from scanner_make scan_match read_operator match_from
expecting_operator = refl

scan_to-comma :
    scan_to (scanner_make (b'a' ∷ b',' ∷ b'b' ∷ [])) b','
    ≡ ((0, 2), record { pos = 2; rest = b'b' ∷ [] })
unfolding scan_to scanner_make scan_eof
scan_to-comma = refl

scan_match_string-short :
    scan_match_string (scanner_make (b'a' ∷ [])) (b'a' ∷ b'b' ∷ [])
    ≡ (false, scanner_make (b'a' ∷ []))
unfolding scan_match_string scanner_make
scan_match_string-short = refl

next-IsCallEnd_example : IsCallEnd assignment (tokenizer_next_expecting assignment blank identifier)
unfolding tokenizer_make
next-IsCallEnd_example = next-IsCallEnd assignment blank identifier refl

tokens_end_example :
    Ends (tokens 8 assignment blank)
    × (length (tokens 8 assignment blank) ≤ length assignment.s.rest + 1)
unfolding tokenizer_make scanner_make
tokens_end_example = tokens_end 8 assignment blank refl (omega arith)

tokens-InOrder_example :
    InOrder
      (assignment.s.pos + length assignment.s.rest)
      assignment.s.pos
      (tokens 8 assignment blank)
unfolding tokenizer_make
tokens-InOrder_example = tokens-InOrder 8 assignment blank refl

next-u64_to_dec_example :
    tokenizer_next
      (record tokenizer { s = record { pos = 4; rest = u64_to_dec 7000000012 ++ b',' ∷ [] } })
      blank
    ≡ (
      record tokenizer {
        s = record { pos = 4 + length (u64_to_dec 7000000012); rest = b',' ∷ [] };
      },
      digits_token tokenizer 4 (length (u64_to_dec 7000000012)),
      true,
    )
unfolding tokenizer_make is_digit is_alpha
next-u64_to_dec_example = next-u64_to_dec tokenizer 4 7000000012 (b',' ∷ []) blank refl refl refl
