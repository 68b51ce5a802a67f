-- ===== src/PageIndex/Sizes.antt =====
-- The entries of all pages, and what is found among them.
use redlib.Prelude.{
  ℕ, ◌≡◌, refl, [], ◌∷◌, ◌++◌, Option, none, some, if◌then◌else◌, ◌==◌, Bool-cases, Option-cases,
  inl, inr,
}
use redlib.PageIndex.{Page, PageIndex, size_in_page, size_in, get_alloc_size}

abbrev pub entries : PageIndex → Page
entries [] = []
entries (page ∷ index) = page ++ entries index

abbrev pub size_or_zero : Option ℕ → ℕ
size_or_zero none = 0
size_or_zero (some size) = size

-- No pointer is registered twice.
abbrev pub IsDistinct : Page → Type 0
IsDistinct [] = Unit
IsDistinct (e ∷ l) = (size_in_page e.ptr l ≡ none) × IsDistinct l

abbrev pub or_else : Option ℕ → Option ℕ → Option ℕ
or_else none o = o
or_else (some size) o = some size

pub size_in_page-append :
    (q : ℕ) (a b : Page) → size_in_page q (a ++ b) ≡ or_else (size_in_page q a) (size_in_page q b)
unfolding size_in_page
size_in_page-append q [] b = refl
size_in_page-append q (e ∷ a) b = elim (Bool-cases (e.ptr == q)) [
  | inl here ↦ rw here refl
  | inr other ↦ rw other (size_in_page-append q a b)
]

size_in-entries :
    (q : ℕ) (index : PageIndex) → size_in q index ≡ size_or_zero (size_in_page q (entries index))
unfolding size_in size_in_page
size_in-entries q [] = refl
size_in-entries q (page ∷ index) = elim (Option-cases (size_in_page q page)) [
  | inl missing ↦
      rw (size_in_page-append q page (entries index), missing, size_in) (size_in-entries q index)
  | inr (size, e) ↦ rw (size_in_page-append q page (entries index), e, size_in) refl
]

-- `get_alloc_size` looks among the entries of all pages, for a pointer that is not NULL.
pub get_alloc_size-entries :
    (index : PageIndex) (q : ℕ)
    → get_alloc_size index q ≡ (if q == 0 then 0 else size_or_zero (size_in_page q (entries index)))
unfolding get_alloc_size
get_alloc_size-entries index q = rw (size_in-entries q index, get_alloc_size) refl
