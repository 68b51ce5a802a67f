-- ===== src/PageIndex/Tests.antt =====
-- Runs of the index of pages.
use redlib.Prelude.{ℕ, ◌≡◌, refl, [], ◌∷◌, arith, if◌then◌else◌, ◌==◌}
use redlib.PageIndex.{
  PageIndexEntry, Page, register_page_alloc, unregister_page_alloc, get_alloc_size, size_in_page,
  last_first, take_from_page, take_from,
}
use redlib.PageIndex.Sizes.{entries, IsDistinct}
use redlib.PageIndex.Register.{get_alloc_size-register_page_alloc}
use redlib.PageIndex.Unregister.{get_alloc_size-unregister_page_alloc}

abbrev entry : ℕ → ℕ → PageIndexEntry
entry ptr size = record { ptr = ptr; size = size }

abbrev three_pages : Page
three_pages = entry 4096 10 ∷ entry 8192 20 ∷ entry 12288 30 ∷ []

-- The last entry takes the place of the first.
unregister-first :
    unregister_page_alloc (three_pages ∷ []) 4096 ≡ (entry 12288 30 ∷ entry 8192 20 ∷ []) ∷ []
unfolding unregister_page_alloc take_from take_from_page last_first
unregister-first = refl

get_alloc_size-register_page_alloc_example :
    (get_alloc_size (register_page_alloc (three_pages ∷ []) 16384 40 ([] ∷ [])) 8192
      ≡ (if 8192 == 16384 then 40 else get_alloc_size (three_pages ∷ []) 8192))
    × IsDistinct (entries (register_page_alloc (three_pages ∷ []) 16384 40 ([] ∷ [])))
unfolding size_in_page
get_alloc_size-register_page_alloc_example =
    get_alloc_size-register_page_alloc three_pages [] 16384 40 8192 (omega arith) (omega arith)
      (refl, (refl, (refl, tt))) refl

get_alloc_size-unregister_page_alloc_example :
    (get_alloc_size (unregister_page_alloc (three_pages ∷ []) 4096) 12288
      ≡ (if 12288 == 4096 then 0 else get_alloc_size (three_pages ∷ []) 12288))
    × IsDistinct (entries (unregister_page_alloc (three_pages ∷ []) 4096))
unfolding size_in_page
get_alloc_size-unregister_page_alloc_example =
    get_alloc_size-unregister_page_alloc (three_pages ∷ []) 4096 12288 (omega arith)
      (refl, (refl, (refl, tt)))
