-- ===== src/Scanner.antt =====
-- data/format/scanner/scanner.c: a position in a text. A scanner is the position with the bytes from
-- there to the end, so that `pos >= len` is the empty rest; texts are shorter than 2 ^ 32.
pub mod Ahead
use redlib.Prelude.{
  ℕ, zero, suc, ◌+◌, ◌-◌, Bool, true, false, not, ◌&&◌, ◌||◌, List, [], ◌∷◌, Option, none, some,
  if◌then◌else◌, ◌==◌,
}
use redlib.Slices.{is_ws}

pub record Scanner : Type 0 where
  pub pos : ℕ
  pub rest : List ℕ

unfoldable pub scanner_make : List ℕ → Scanner
scanner_make buf = record { pos = 0; rest = buf }

-- One byte further.
abbrev pub behind : ℕ → List ℕ → Scanner
behind pos rest = record { pos = suc pos; rest = rest }

unfoldable pub scan_eof : Scanner → Bool
scan_eof s = elim s.rest [ [] ↦ true | c ∷ rest ↦ false ]

unfoldable pub scan_peek : Scanner → ℕ
scan_peek s = elim s.rest [ [] ↦ 0 | c ∷ rest ↦ c ]

unfoldable pub scan_next : Scanner → ℕ × Scanner
scan_next s = elim s.rest [ [] ↦ (0, s) | c ∷ rest ↦ (c, behind s.pos rest) ]

unfoldable pub scan_match : Scanner → ℕ → Bool × Scanner
scan_match s c = elim s.rest [
  | [] ↦ (false, s)
  | d ∷ rest ↦ if not (d == c) then (false, s) else (true, behind s.pos rest)
]

-- The loop of `scan_match_string` at a position: `none` for false.
unfoldable pub match_from : List ℕ → ℕ → List ℕ → Option Scanner
match_from [] pos rest = some (record { pos = pos; rest = rest })
match_from (x ∷ str) pos [] = none
match_from (x ∷ str) pos (c ∷ rest) = if c == x then match_from str (suc pos) rest else none

unfoldable pub scan_match_string : Scanner → List ℕ → Bool × Scanner
unfolding match_from
scan_match_string s str = elim (match_from str s.pos s.rest) [
  | none ↦ (false, s)
  | some s' ↦ (true, s')
]

-- A loop that moves on while the next byte passes a test.
unfoldable pub while_from : (ℕ → Bool) → ℕ → List ℕ → Scanner
while_from test pos [] = record { pos = pos; rest = [] }
while_from test pos (c ∷ rest) =
    if test c then while_from test (suc pos) rest else record { pos = pos; rest = c ∷ rest }

abbrev pub scan_while : (ℕ → Bool) → Scanner → Scanner
scan_while test s = while_from test s.pos s.rest

unfoldable pub scan_skip_ws : Scanner → Bool → Scanner
unfolding is_ws
scan_skip_ws s skip_nl = scan_while (is_ws skip_nl) s

-- A loop that reads bytes until one passes a test, that one too.
unfoldable pub through_from : (ℕ → Bool) → ℕ → List ℕ → Scanner
through_from test pos [] = record { pos = pos; rest = [] }
through_from test pos (c ∷ rest) =
    if test c then behind pos rest else through_from test (suc pos) rest

abbrev pub scan_through : (ℕ → Bool) → Scanner → Scanner
scan_through test s = through_from test s.pos s.rest

-- The slice, as its start and its length, runs through the byte sought, or to the end.
unfoldable pub scan_to : Scanner → ℕ → (ℕ × ℕ) × Scanner
unfolding through_from
scan_to s seek =
    let s' = scan_through (λ c. c == seek) s in
    if scan_eof s' && s.pos == s'.pos then ((s.pos, 0), s') else ((s.pos, s'.pos - s.pos), s')
