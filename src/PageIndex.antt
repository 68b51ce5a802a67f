-- ===== src/PageIndex.antt =====
-- alloc/page_index.c: which pages are allocated, and how large they are. An index is a chain of pages; a
-- page is the list of its entries, as many as `header.size`. Pointers are addresses, 0 is NULL.
pub mod Sizes
pub mod Register
pub mod Unregister
mod Tests
use redlib.Prelude.{
  ℕ, zero, suc, Bool, true, false, not, ◌||◌, List, [], ◌∷◌, ◌++◌, Option, none, some, length,
  if◌then◌else◌, leb, ◌==◌,
}

pub record PageIndexEntry : Type 0 where
  pub ptr : ℕ
  pub size : ℕ

abbrev pub Page : Type 0
Page = List PageIndexEntry

-- The pages from a pointer on; no page is the pointer NULL.
abbrev pub PageIndex : Type 0
PageIndex = List Page

-- `(PAGE_SIZE - sizeof(page_index_hdr)) / sizeof(page_index_entry)`
abbrev pub page_index_limit : ℕ
page_index_limit = 255

-- The entry is written behind those of the page that the loop over `next` ends at; a full page gets a
-- next one, if `fallback` grants it (the pages from the block that it answers on).
unfoldable pub register_last : PageIndexEntry → PageIndex → Page → PageIndex
register_last e fallback page =
    if leb page_index_limit (length page)
    then elim fallback [ [] ↦ page ∷ [] | next ∷ more ↦ page ∷ (next ++ e ∷ []) ∷ more ]
    else (page ++ e ∷ []) ∷ []

unfoldable pub register_in : PageIndexEntry → PageIndex → PageIndex → PageIndex
unfolding register_last
register_in e fallback [] = []
register_in e fallback (page ∷ []) = register_last e fallback page
register_in e fallback (page ∷ next ∷ index) = page ∷ register_in e fallback (next ∷ index)

unfoldable pub register_page_alloc : PageIndex → ℕ → ℕ → PageIndex → PageIndex
unfolding register_in
register_page_alloc index ptr size fallback =
    if ptr == 0 || size == 0
    then index
    else register_in (record { ptr = ptr; size = size }) fallback index

-- The last entry of the page takes the place of the one that is taken out: `e` and `page` are what stands
-- behind it.
unfoldable pub last_first : PageIndexEntry → Page → Page
last_first e [] = e ∷ []
last_first e (x ∷ page) = elim (last_first x page) [ [] ↦ [] | z ∷ rest ↦ z ∷ e ∷ rest ]

unfoldable pub swap_last : Page → Page
unfolding last_first
swap_last [] = []
swap_last (e ∷ page) = last_first e page

-- The loop over the entries of a page: `none` where it does not find the pointer.
unfoldable pub take_from_page : ℕ → Page → Option Page
unfolding swap_last
take_from_page ptr [] = none
take_from_page ptr (e ∷ page) =
    if e.ptr == ptr
    then some (swap_last page)
    else elim (take_from_page ptr page) [ none ↦ none | some page' ↦ some (e ∷ page') ]

unfoldable pub take_from : ℕ → PageIndex → PageIndex
unfolding take_from_page
take_from ptr [] = []
take_from ptr (page ∷ index) = elim (take_from_page ptr page) [
  | none ↦ page ∷ take_from ptr index
  | some page' ↦ page' ∷ index
]

unfoldable pub unregister_page_alloc : PageIndex → ℕ → PageIndex
unfolding take_from
unregister_page_alloc index ptr = if ptr == 0 then index else take_from ptr index

-- The size of the first entry with the pointer.
unfoldable pub size_in_page : ℕ → Page → Option ℕ
size_in_page ptr [] = none
size_in_page ptr (e ∷ page) = if e.ptr == ptr then some e.size else size_in_page ptr page

unfoldable pub size_in : ℕ → PageIndex → ℕ
unfolding size_in_page
size_in ptr [] = 0
size_in ptr (page ∷ index) = elim (size_in_page ptr page) [
  | none ↦ size_in ptr index
  | some size ↦ size
]

unfoldable pub get_alloc_size : PageIndex → ℕ → ℕ
unfolding size_in
get_alloc_size index ptr = if ptr == 0 then 0 else size_in ptr index
