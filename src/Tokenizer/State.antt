-- ===== src/Tokenizer/State.antt =====
-- data/format/tokenizer/tokenizer.h: tokens and the state of a tokenizer, which holds its scanner.
use redlib.Prelude.{
  ℕ, Bool, true, false, not, ◌&&◌, ◌||◌, Option, none, some, if◌then◌else◌, leb, ◌==◌,
}
use redlib.Scanner.{Scanner}
use redlib.Numbers.{is_digit}

pub data TokenKind : Type 0 where
  eof : TokenKind
  invalid : TokenKind
  identifier : TokenKind
  number : TokenKind
  string : TokenKind
  const : TokenKind
  operator : TokenKind
  lparen : TokenKind
  rparen : TokenKind
  lbrace : TokenKind
  rbrace : TokenKind
  lbracket : TokenKind
  rbracket : TokenKind
  comma : TokenKind
  colon : TokenKind
  semicolon : TokenKind
  dot : TokenKind
  symbol : TokenKind
  newline : TokenKind

-- `start` is where in the text, `none` for the pointer NULL.
pub record Token : Type 0 where
  pub kind : TokenKind
  pub start : Option ℕ
  pub length : ℕ
  pub pos : ℕ

pub data TokenizerError : Type 0 where
  no_error : TokenizerError
  invalid_char : TokenizerError
  invalid_number : TokenizerError
  unterminated_string : TokenizerError
  unterminated_comment : TokenizerError

pub data TokenizerComment : Type 0 where
  no_comments : TokenizerComment
  slash : TokenizerComment
  hash : TokenizerComment
  semi : TokenizerComment

pub record Tokenizer : Type 0 where
  pub s : Scanner
  pub failed : Bool
  pub err : TokenizerError
  pub err_pos : ℕ
  pub skip_type_check : Bool
  pub custom_valid_identifier : Option (Bool → ℕ → Bool)
  pub parse_newline : Bool
  pub comment_type : TokenizerComment

unfoldable pub tokenizer_make : Scanner → Tokenizer
tokenizer_make s = record {
  s = s;
  failed = false;
  err = no_error;
  err_pos = 0;
  skip_type_check = false;
  custom_valid_identifier = none;
  parse_newline = false;
  comment_type = no_comments;
}

-- Only the first error is kept.
unfoldable pub tokenizer_fail : Tokenizer → TokenizerError → Tokenizer
tokenizer_fail t err =
    if t.failed then t else record t { failed = true; err = err; err_pos = t.s.pos }

unfoldable pub is_alpha : ℕ → Bool
is_alpha c = leb b'a' c && leb c b'z' || leb b'A' c && leb c b'Z'

unfoldable pub default_valid_identifier : Bool → ℕ → Bool
unfolding is_alpha is_digit
default_valid_identifier is_first c = is_alpha c || c == b'_' || not is_first && is_digit c

-- The test that the tokenizer uses.
unfoldable pub valid_identifier : Tokenizer → Bool → ℕ → Bool
unfolding default_valid_identifier
valid_identifier t is_first c = elim t.custom_valid_identifier [
  | none ↦ default_valid_identifier is_first c
  | some valid ↦ valid is_first c
]

-- The kinds in the order of the enumeration.
abbrev pub kind_code : TokenKind → ℕ
kind_code eof = 0
kind_code invalid = 1
kind_code identifier = 2
kind_code number = 3
kind_code string = 4
kind_code const = 5
kind_code operator = 6
kind_code lparen = 7
kind_code rparen = 8
kind_code lbrace = 9
kind_code rbrace = 10
kind_code lbracket = 11
kind_code rbracket = 12
kind_code comma = 13
kind_code colon = 14
kind_code semicolon = 15
kind_code dot = 16
kind_code symbol = 17
kind_code newline = 18
