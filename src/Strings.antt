-- ===== src/Strings.antt =====
-- string/string.c, the comparisons and searches. A C string is the list of its bytes before the NUL;
-- none of them is 0. A pointer into a string is the list of what follows it. A plain `char` is
-- unsigned, as on the AArch64 that the build is for. Arguments are not NULL but for `strcmp_case`,
-- `strncmp_case` and `strcasestr`, whose option is `none` for NULL.
pub mod Compare
pub mod Find
pub mod Suffix
mod Tests
use redlib.Prelude.{
  ℕ, zero, suc, ◌+◌, ◌-◌, Bool, true, false, not, ◌&&◌, List, [], ◌∷◌, Option, none, some,
  if◌then◌else◌, leb, ◌==◌,
}
use redlib.Prelude.Int.{ℤ, pos, negsuc, sub_ℕ}

unfoldable pub tolower : ℕ → ℕ
tolower c = if leb b'A' c && leb c b'Z' then c + b'a' - b'A' else c

unfoldable pub toupper : ℕ → ℕ
toupper c = if leb b'a' c && leb c b'z' then c - (b'a' - b'A') else c

-- `case_insensitive ? tolower(c) : c`
unfoldable pub fold : Bool → ℕ → ℕ
unfolding tolower
fold true c = tolower c
fold false c = c

-- `*p`: the NUL at the end of the string.
abbrev pub first : List ℕ → ℕ
first [] = 0
first (c ∷ s) = c

pub compare_from : Bool → List ℕ → List ℕ → ℤ
compare_from ci [] b = sub_ℕ (fold ci 0) (fold ci (first b))
compare_from ci (x ∷ a) [] = sub_ℕ (fold ci x) (fold ci 0)
compare_from ci (x ∷ a) (y ∷ b) =
    if fold ci x == fold ci y then compare_from ci a b else sub_ℕ (fold ci x) (fold ci y)

unfoldable pub strcmp_case : Option (List ℕ) → Option (List ℕ) → Bool → ℤ
unfolding compare_from
strcmp_case none none ci = pos 0
strcmp_case none (some b) ci = negsuc 0
strcmp_case (some a) none ci = pos 1
strcmp_case (some a) (some b) ci = compare_from ci a b

-- The loop with `max - i` rounds left.
pub compare_max : Bool → ℕ → List ℕ → List ℕ → ℤ
compare_max ci zero a b = sub_ℕ (fold ci (first a)) (fold ci (first b))
compare_max ci (suc left) [] b = sub_ℕ (fold ci 0) (fold ci (first b))
compare_max ci (suc left) (x ∷ a) [] = sub_ℕ (fold ci x) (fold ci 0)
compare_max ci (suc left) (x ∷ a) (y ∷ b) =
    if (fold ci x == fold ci y) && not (left == 0)
    then compare_max ci left a b
    else sub_ℕ (fold ci x) (fold ci y)

unfoldable pub strncmp_case : Option (List ℕ) → Option (List ℕ) → Bool → ℕ → ℤ
unfolding compare_max
strncmp_case none none ci max = pos 0
strncmp_case none (some b) ci max = negsuc 0
strncmp_case (some a) none ci max = pos 1
strncmp_case (some a) (some b) ci max = compare_max ci max a b

pub strstart_case : List ℕ → List ℕ → Bool → ℕ
strstart_case [] b ci = 0
strstart_case (x ∷ a) [] ci = 0
strstart_case (x ∷ a) (y ∷ b) ci = if fold ci x == fold ci y then suc (strstart_case a b ci) else 0

-- The inner loops of `strindex`, `strcont` and `strcasestr`: whether all of `b` is read.
pub begins : Bool → List ℕ → List ℕ → Bool
begins ci a [] = true
begins ci [] (y ∷ b) = false
begins ci (x ∷ a) (y ∷ b) = if fold ci x == fold ci y then begins ci a b else false

-- `i` is an `int`: strings are shorter than 2 ^ 31.
pub index_from : ℕ → List ℕ → List ℕ → ℤ
unfolding begins
index_from i [] b = negsuc 0
index_from i (x ∷ a) b = if begins false (x ∷ a) b then pos i else index_from (suc i) a b

unfoldable pub strindex : List ℕ → List ℕ → ℤ
unfolding index_from
strindex a b = index_from 0 a b

pub strcont : List ℕ → List ℕ → Bool
unfolding begins
strcont [] b = false
strcont (x ∷ a) b = if begins false (x ∷ a) b then true else strcont a b

pub case_from : List ℕ → List ℕ → Option (List ℕ)
unfolding begins
case_from [] needle = none
case_from (x ∷ h) needle = if begins true (x ∷ h) needle then some (x ∷ h) else case_from h needle

unfoldable pub strcasestr : Option (List ℕ) → Option (List ℕ) → Option (List ℕ)
unfolding case_from
strcasestr none needle = none
strcasestr (some h) none = some h
strcasestr (some h) (some []) = some h
strcasestr (some h) (some (y ∷ n)) = case_from h (y ∷ n)

-- The inner loop of `strend_case`; `none` for its `break`.
pub rest_match : Bool → List ℕ → List ℕ → Option ℕ
rest_match ci [] pb = some (fold ci (first pb))
rest_match ci (x ∷ pa) [] = none
rest_match ci (x ∷ pa) (y ∷ pb) = if fold ci x == fold ci y then rest_match ci pa pb else none

pub strend_case : List ℕ → List ℕ → Bool → ℕ
unfolding rest_match
strend_case [] b ci = 1
strend_case (x ∷ a) [] ci = 1
strend_case (x ∷ a) (y ∷ b) ci =
    let later = strend_case a (y ∷ b) ci in
    if fold ci x == fold ci y
    then elim (rest_match ci (x ∷ a) (y ∷ b)) [ some r ↦ r | none ↦ later ]
    else later

pub count_occurrences : List ℕ → ℕ → ℕ
count_occurrences [] c = 0
count_occurrences (x ∷ s) c = (if x == c then 1 else 0) + count_occurrences s c

-- The pointer behind the first `character`, or to the end.
pub seek_to : List ℕ → ℕ → List ℕ
seek_to [] character = []
seek_to (x ∷ s) character = if x == character then s else seek_to s character

-- The bytes before the NUL of `dst`, for `cap` above 0.
pub strncpy : ℕ → List ℕ → List ℕ
strncpy zero src = []
strncpy (suc zero) src = []
strncpy (suc (suc cap)) [] = []
strncpy (suc (suc cap)) (x ∷ src) = x ∷ strncpy (suc cap) src

unfoldable pub strcat_buf : List ℕ → List ℕ → List ℕ
strcat_buf [] b = b
strcat_buf (x ∷ a) b = x ∷ strcat_buf a b
