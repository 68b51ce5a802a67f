-- ===== src/Strings/Tests.antt =====
-- Runs of the comparisons and searches, and their theorems at concrete strings.
use redlib.Prelude.{ℕ, ◌≡◌, refl, true, false, List, [], ◌∷◌, some, arith}
use redlib.Prelude.Int.{pos, negsuc}
use redlib.Strings.{fold, strcmp_case, strncmp_case, strindex, strncpy}
use redlib.Strings.Find.{IsIndex, strindex-IsIndex}

abbrev banana : List ℕ
banana = b'b' ∷ b'a' ∷ b'n' ∷ b'a' ∷ b'n' ∷ b'a' ∷ []

abbrev ana : List ℕ
ana = b'a' ∷ b'n' ∷ b'a' ∷ []

abbrev loud : List ℕ
loud = b'A' ∷ b'N' ∷ b'A' ∷ []

strindex-banana : strindex banana ana ≡ pos 1
unfolding strindex fold
strindex-banana = refl

strindex-missing : strindex ana banana ≡ negsuc 0
unfolding strindex fold
strindex-missing = refl

strcmp_case-loud : strcmp_case (some ana) (some loud) true ≡ pos 0
unfolding strcmp_case fold
strcmp_case-loud = refl

strncmp_case-nothing : strncmp_case (some banana) (some ana) false 0 ≡ pos 1
unfolding strncmp_case fold
strncmp_case-nothing = refl

strncpy-cut : strncpy 4 banana ≡ b'b' ∷ b'a' ∷ b'n' ∷ []
unfolding strncpy
strncpy-cut = refl

strindex-IsIndex_example : IsIndex banana ana (strindex banana ana)
strindex-IsIndex_example = strindex-IsIndex banana ana (omega arith)
