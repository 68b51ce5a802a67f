-- ===== src/Tokenizer.antt =====
-- data/format/tokenizer/tokenizer.c.
pub mod State
pub mod Skip
pub mod NumberToken
pub mod Read
pub mod Next
pub mod Advance
pub mod Answers
pub mod Literals
pub mod Checks
pub mod Comments
pub mod Progress
pub mod Tokens
pub mod Digits
pub mod Decimal
mod Tests
