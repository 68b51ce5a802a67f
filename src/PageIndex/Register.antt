-- ===== src/PageIndex/Register.antt =====
-- `register_page_alloc` adds one entry.
use mathlib.Core.List.{append_assoc, append-nil}
use redlib.Prelude.{
  ℕ, ◌≡◌, ◌≢◌, refl, sym, ap, ◌∙◌, true, false, ◌||◌, [], ◌∷◌, ◌++◌, none, arith, length,
  if◌then◌else◌, ◌==◌, leb, Bool-cases, Option-cases, inl, inr,
}
use redlib.PageIndex.{
  PageIndexEntry, Page, PageIndex, page_index_limit, register_last, register_in,
  register_page_alloc, size_in_page, get_alloc_size,
}
use redlib.PageIndex.Sizes.{
  entries, size_or_zero, IsDistinct, size_in_page-append, get_alloc_size-entries,
}

entries-register_last :
    (e : PageIndexEntry) (page : Page) → entries (register_last e ([] ∷ []) page) ≡ page ++ e ∷ []
unfolding register_last
entries-register_last e page = elim (Bool-cases (leb page_index_limit (length page))) [
  | inl full ↦ rw (full, register_last) refl
  | inr room ↦ rw (room, register_last) (append-nil (page ++ e ∷ []))
]

entries-register_in :
    (e : PageIndexEntry) (page : Page) (index : PageIndex)
    → entries (register_in e ([] ∷ []) (page ∷ index)) ≡ entries (page ∷ index) ++ e ∷ []
unfolding register_in
entries-register_in e page [] =
    entries-register_last e page ∙ ap (λ l. l ++ e ∷ []) (sym (append-nil page))
entries-register_in e page (next ∷ index) =
    ap (λ l. page ++ l) (entries-register_in e next index)
    ∙ sym (append_assoc page (entries (next ∷ index)) (e ∷ []))

found_at_end :
    (ptr size q : ℕ) (l : Page)
    → size_in_page ptr l ≡ none
    → size_or_zero (size_in_page q (l ++ record { ptr = ptr; size = size } ∷ []))
      ≡ (if q == ptr then size else size_or_zero (size_in_page q l))
unfolding size_in_page
found_at_end ptr size q l fresh = elim (Bool-cases (q == ptr)) [
  | inl same ↦
      let e : q ≡ ptr = ground (arith, same) in
      let back : (ptr == q) ≡ true = ground (arith, same) in
      let missing : size_in_page q l ≡ none = ap (λ p. size_in_page p l) e ∙ fresh in
      rw (size_in_page-append q l (record { ptr = ptr; size = size } ∷ []), missing, same, back)
        refl
  | inr other ↦
      let back : (ptr == q) ≡ false = ground (arith, other) in
      elim (Option-cases (size_in_page q l)) [
        | inl missing ↦
            rw
              (
                size_in_page-append q l (record { ptr = ptr; size = size } ∷ []),
                missing,
                other,
                back,
              )
              refl
        | inr (found, e) ↦
            rw (size_in_page-append q l (record { ptr = ptr; size = size } ∷ []), e, other) refl
      ]
]

IsDistinct-append_one :
    (l : Page) (e : PageIndexEntry)
    → IsDistinct l
    → size_in_page e.ptr l ≡ none
    → IsDistinct (l ++ e ∷ [])
unfolding size_in_page
IsDistinct-append_one [] e d fresh = (refl, tt)
IsDistinct-append_one (x ∷ l) e d fresh =
    let apart : (x.ptr == e.ptr) ≡ false = ground (arith, fresh) in
    let later : size_in_page e.ptr l ≡ none = rw apart at fresh in
    let back : (e.ptr == x.ptr) ≡ false = ground (arith, apart) in
    (
      size_in_page-append x.ptr l (e ∷ []) ∙ rw (d.0, back) refl,
      IsDistinct-append_one l e d.1 later,
    )

entries-register_page_alloc :
    (page : Page) (index : PageIndex) (ptr size : ℕ)
    → ptr ≢ 0
    → size ≢ 0
    → entries (register_page_alloc (page ∷ index) ptr size ([] ∷ []))
      ≡ entries (page ∷ index) ++ record { ptr = ptr; size = size } ∷ []
unfolding register_page_alloc
entries-register_page_alloc page index ptr size pointer filled =
    let good : (ptr == 0 || size == 0) ≡ false = ground (arith, pointer, filled) in
    rw (good, register_page_alloc)
      (entries-register_in (record { ptr = ptr; size = size }) page index)

register_page_alloc-IsDistinct :
    (page : Page) (index : PageIndex) (ptr size : ℕ)
    → ptr ≢ 0
    → size ≢ 0
    → IsDistinct (entries (page ∷ index))
    → size_in_page ptr (entries (page ∷ index)) ≡ none
    → IsDistinct (entries (register_page_alloc (page ∷ index) ptr size ([] ∷ [])))
register_page_alloc-IsDistinct page index ptr size pointer filled d fresh =
    rw (entries-register_page_alloc page index ptr size pointer filled)
      (IsDistinct-append_one (entries (page ∷ index)) (record { ptr = ptr; size = size }) d fresh)

-- In an index of at least one page where no pointer is registered twice, with a next page granted empty
-- if it is needed, an allocation that is not NULL, not empty and not registered yet is found with its
-- size afterwards, every other pointer as before, and still no pointer is registered twice.
pub get_alloc_size-register_page_alloc :
    (page : Page) (index : PageIndex) (ptr size q : ℕ)
    → ptr ≢ 0
    → size ≢ 0
    → IsDistinct (entries (page ∷ index))
    → size_in_page ptr (entries (page ∷ index)) ≡ none
    → (get_alloc_size (register_page_alloc (page ∷ index) ptr size ([] ∷ [])) q
        ≡ (if q == ptr then size else get_alloc_size (page ∷ index) q))
      × IsDistinct (entries (register_page_alloc (page ∷ index) ptr size ([] ∷ [])))
get_alloc_size-register_page_alloc page index ptr size q pointer filled d fresh =
    let l = entries (page ∷ index) in
    let new : PageIndexEntry = record { ptr = ptr; size = size } in
    let all = entries-register_page_alloc page index ptr size pointer filled in
    let before = get_alloc_size-entries (page ∷ index) q in
    let after = get_alloc_size-entries (register_page_alloc (page ∷ index) ptr size ([] ∷ [])) q in
    let found = found_at_end ptr size q l fresh in
    (
      after
          ∙ ap (λ p. if q == 0 then 0 else size_or_zero (size_in_page q p)) all
          ∙ ap (λ r. if q == 0 then 0 else r) found
          ∙ by_null q (size_or_zero (size_in_page q l))
          ∙ ap (λ r. if q == ptr then size else r) (sym before),
      register_page_alloc-IsDistinct page index ptr size pointer filled d fresh,
    )
  where
    by_null :
        (q old : ℕ)
        → (if q == 0 then 0 else (if q == ptr then size else old))
          ≡ (if q == ptr then size else (if q == 0 then 0 else old))
    by_null q old = ground (arith, pointer)
