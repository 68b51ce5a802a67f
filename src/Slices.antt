-- ===== src/Slices.antt =====
-- string/slice.c and string/slice.h: a slice, a pointer and a length, is the list of its bytes, shorter
-- than 2 ^ 31. `none` is the slice with the pointer NULL and the length 0. What `string_splitter`
-- walks over is a text of known length.
pub mod Trim
pub mod Match
pub mod Split
mod Tests
use mathlib.Core.List.{reverse}
use redlib.Prelude.{
  ℕ, zero, suc, ◌+◌, ◌-◌, min, Bool, true, false, not, ◌&&◌, ◌||◌, List, [], ◌∷◌, ◌++◌, Option,
  none, some, length, take, drop, if◌then◌else◌, ltb, leb, ◌==◌,
}
use redlib.Strings.{tolower, begins}

unfoldable pub make_string_slice : List ℕ → ℕ → ℕ → List ℕ
make_string_slice buf start len =
    if leb (length buf) start then [] else take (min (length (drop start buf)) len) (drop start buf)

unfoldable pub is_ws : Bool → ℕ → Bool
is_ws include_newline c = c == b' ' || include_newline && c == b'\n' || c == b'\t' || c == b'\r'

-- The first loop of `slice_trim_ws`.
pub drop_ws : Bool → List ℕ → List ℕ
unfolding is_ws
drop_ws nl [] = []
drop_ws nl (c ∷ s) = if is_ws nl c then drop_ws nl s else c ∷ s

-- The second loop, from the last byte back to the one behind the first that is kept.
pub drop_back : Bool → List ℕ → List ℕ
unfolding drop_ws
drop_back nl [] = []
drop_back nl (c ∷ s) = c ∷ reverse (drop_ws nl (reverse s))

unfoldable pub slice_trim_ws : List ℕ → Bool → List ℕ
unfolding drop_back
slice_trim_ws s nl = drop_back nl (drop_ws nl s)

pub slice_seek_to : List ℕ → ℕ → Option (List ℕ)
slice_seek_to [] character = none
slice_seek_to (c ∷ s) character = if c == character then some s else slice_seek_to s character

-- The loop of both tests, over the bytes of `seek`; past the end of the slice it is not taken.
pub all_match : List ℕ → List ℕ → Bool
all_match s [] = true
all_match [] (y ∷ seek) = false
all_match (x ∷ s) (y ∷ seek) = if x == y then all_match s seek else false

unfoldable pub slice_ends_with : List ℕ → List ℕ → Bool
unfolding all_match
slice_ends_with s seek =
    if ltb (length s) (length seek) then false else all_match (drop (length s - length seek) s) seek

unfoldable pub slice_starts_with : List ℕ → List ℕ → Bool
unfolding all_match
slice_starts_with s seek = if ltb (length s) (length seek) then false else all_match s seek

pub same_bytes : Bool → List ℕ → List ℕ → Bool
unfolding tolower
same_bytes ci [] b = true
same_bytes ci (x ∷ a) [] = true
same_bytes ci (x ∷ a) (y ∷ b) =
    if not (x == y) && (not ci || not (tolower x == tolower y)) then false else same_bytes ci a b

unfoldable pub slices_equal : List ℕ → List ℕ → Bool → Bool
unfolding same_bytes
slices_equal a b ci = if length a == length b then same_bytes ci a b else false

-- The size of the next piece of a text that is not empty: up to the separator, or the whole rest if
-- no byte stands behind a separator.
unfoldable pub piece_size : ℕ → List ℕ → ℕ
unfolding slice_seek_to
piece_size seek current = elim (slice_seek_to current seek) [
  | none ↦ length current
  | some [] ↦ length current
  | some (c ∷ behind) ↦ length current - length (c ∷ behind) - 1
]

-- `string_splitter_advance` on the text from the pointer on: `none` for false, or the current piece
-- and the text from the new pointer on. An empty piece has its separator in front of other bytes.
pub advance : Bool → ℕ → List ℕ → Option (List ℕ × List ℕ)
advance allow_empty seek [] = none
advance allow_empty seek (c ∷ s) =
    let size = piece_size seek (c ∷ s) in
    let skipped = advance allow_empty seek s in
    if seek == 0
    then none
    else if size == 0 && not allow_empty
    then skipped
    else some (take size (c ∷ s), drop (size + 1) (c ∷ s))

-- `string_splitter_get_current`: without a separator at its end.
pub get_current : ℕ → List ℕ → List ℕ
get_current seek [] = []
get_current seek (c ∷ []) = if c == seek then [] else c ∷ []
get_current seek (c ∷ d ∷ s) = c ∷ get_current seek (d ∷ s)

-- The pieces that a loop over the splitter gets.
pub pieces : ℕ → Bool → ℕ → List ℕ → List (List ℕ)
unfolding advance get_current
pieces zero allow_empty seek s = []
pieces (suc rounds) allow_empty seek s = elim (advance allow_empty seek s) [
  | none ↦ []
  | some (current, rest) ↦ get_current seek current ∷ pieces rounds allow_empty seek rest
]
