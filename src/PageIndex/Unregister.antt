-- ===== src/PageIndex/Unregister.antt =====
-- `unregister_page_alloc` takes out one entry; the last of its page takes the place.
use mathlib.Core.Path.{subst}
use redlib.Prelude.{
  ℕ, ◌≡◌, ◌≢◌, refl, sym, ap, ◌∙◌, true, false, [], ◌∷◌, ◌++◌, Option, none, some, arith,
  if◌then◌else◌, ◌==◌, Bool-cases, Option-cases, inl, inr,
}
use redlib.PageIndex.{
  PageIndexEntry, Page, PageIndex, last_first, swap_last, take_from_page, take_from,
  unregister_page_alloc, size_in_page, get_alloc_size,
}
use redlib.PageIndex.Sizes.{entries, size_or_zero, IsDistinct, get_alloc_size-entries}

-- The same entries in another order.
record IsSame (l l' : Page) : Type 0 where
  found : (q : ℕ) → size_in_page q l' ≡ size_in_page q l
  distinct : IsDistinct l'

-- One step of a search.
found_cons :
    (q : ℕ) (e : PageIndexEntry) (l l' : Page)
    → size_in_page q l' ≡ size_in_page q l
    → size_in_page q (e ∷ l') ≡ size_in_page q (e ∷ l)
unfolding size_in_page
found_cons q e l l' h = ap (λ o. if e.ptr == q then some e.size else o) h

cons-IsSame :
    (e : PageIndexEntry) (l l' : Page) → IsDistinct (e ∷ l) → IsSame l l' → IsSame (e ∷ l) (e ∷ l')
cons-IsSame e l l' d h = record {
  found = λ q. found_cons q e l l' (h.found q);
  distinct = (h.found e.ptr ∙ d.0, h.distinct);
}

swap-IsSame :
    (e z : PageIndexEntry) (l : Page) → IsDistinct (e ∷ z ∷ l) → IsSame (e ∷ z ∷ l) (z ∷ e ∷ l)
unfolding size_in_page
swap-IsSame e z l d =
    let apart : (z.ptr == e.ptr) ≡ false = ground (arith, d.0) in
    let apart2 : (e.ptr == z.ptr) ≡ false = ground (arith, apart) in
    record { found = λ q. swapped q; distinct = (rw apart2 d.1.0, (rw apart at d.0, d.1.1)) }
  where
    swapped : (q : ℕ) → size_in_page q (z ∷ e ∷ l) ≡ size_in_page q (e ∷ z ∷ l)
    swapped q = ground (arith, d.0)

last_first-cons :
    (e : PageIndexEntry) (page : Page)
    → (z : PageIndexEntry) × (r : Page) × (last_first e page ≡ z ∷ r)
unfolding last_first
last_first-cons e [] = (e, [], refl)
last_first-cons e (x ∷ page) =
    let (z, r, h) = last_first-cons x page in (z, e ∷ r, rw (h, last_first) refl)

last_first-IsSame :
    (e : PageIndexEntry) (page rest : Page)
    → IsDistinct (e ∷ page ++ rest)
    → IsSame (e ∷ page ++ rest) (last_first e page ++ rest)
unfolding last_first
last_first-IsSame e [] rest d = record { found = λ q. refl; distinct = d }
last_first-IsSame e (x ∷ page) rest d =
    let (z, r, h) = last_first-cons x page in
    let ih : IsSame (x ∷ page ++ rest) (z ∷ r ++ rest) =
      subst (λ l. IsSame (x ∷ page ++ rest) (l ++ rest)) h (last_first-IsSame x page rest d.1) in
    let front = cons-IsSame e (x ∷ page ++ rest) (z ∷ r ++ rest) d ih in
    let swapped = swap-IsSame e z (r ++ rest) front.distinct in
    rw (h, last_first)
      (record { found = λ q. swapped.found q ∙ front.found q; distinct = swapped.distinct })

swap_last-IsSame :
    (page rest : Page) → IsDistinct (page ++ rest) → IsSame (page ++ rest) (swap_last page ++ rest)
unfolding swap_last
swap_last-IsSame [] rest d = record { found = λ q. refl; distinct = d }
swap_last-IsSame (e ∷ page) rest d = last_first-IsSame e page rest d

-- What is found where an entry is taken out.
record IsWithout (ptr : ℕ) (l l' : Page) : Type 0 where
  found : (q : ℕ) → size_in_page q l' ≡ (if q == ptr then none else size_in_page q l)
  distinct : IsDistinct l'

head-IsWithout :
    (ptr : ℕ) (e : PageIndexEntry) (l l' : Page)
    → (e.ptr == ptr) ≡ true
    → IsDistinct (e ∷ l)
    → IsSame l l'
    → IsWithout ptr (e ∷ l) l'
unfolding size_in_page
head-IsWithout ptr e l l' here d h = record {
  found = λ q. without q (h.found q);
  distinct = h.distinct;
}
  where
    without :
        (q : ℕ)
        → size_in_page q l' ≡ size_in_page q l
        → size_in_page q l' ≡ (if q == ptr then none else size_in_page q (e ∷ l))
    without q same =
        let at_ptr : e.ptr ≡ ptr = ground (arith, here) in
        let gone : size_in_page ptr l ≡ none = ap (λ p. size_in_page p l) (sym at_ptr) ∙ d.0 in
        elim (Bool-cases (q == ptr)) [
          | inl hit ↦
              let e' : q ≡ ptr = ground (arith, hit) in
              rw hit (same ∙ ap (λ p. size_in_page p l) e' ∙ gone)
          | inr other ↦
              let miss : (e.ptr == q) ≡ false = ground (arith, other, at_ptr) in
              rw (other, miss) same
        ]

cons-IsWithout :
    (ptr : ℕ) (e : PageIndexEntry) (l l' : Page)
    → (e.ptr == ptr) ≡ false
    → IsDistinct (e ∷ l)
    → IsWithout ptr l l'
    → IsWithout ptr (e ∷ l) (e ∷ l')
unfolding size_in_page
cons-IsWithout ptr e l l' apart d h = record {
  found = λ q. without q (h.found q);
  distinct = (h.found e.ptr ∙ rw apart d.0, h.distinct);
}
  where
    without :
        (q : ℕ)
        → size_in_page q l' ≡ (if q == ptr then none else size_in_page q l)
        → size_in_page q (e ∷ l') ≡ (if q == ptr then none else size_in_page q (e ∷ l))
    without q same = ground (arith, same, apart)

-- In one page, whatever pages follow.
page-IsWithout :
    (ptr : ℕ) (page page' rest : Page)
    → IsDistinct (page ++ rest)
    → take_from_page ptr page ≡ some page'
    → IsWithout ptr (page ++ rest) (page' ++ rest)
unfolding take_from_page
page-IsWithout ptr [] page' rest d h = absurd (cc h)
page-IsWithout ptr (e ∷ page) page' rest d h = elim (Bool-cases (e.ptr == ptr)) [
  | inl here ↦
      let same : swap_last page ≡ page' = cc (rw (here, take_from_page) at h) in
      subst (λ l. IsWithout ptr (e ∷ page ++ rest) (l ++ rest)) same
        (head-IsWithout ptr e (page ++ rest) (swap_last page ++ rest) here d
          (swap_last-IsSame page rest d.1))
  | inr other ↦ elim (Option-cases (take_from_page ptr page)) [
    | inl missing ↦ absurd (cc (rw (other, missing, take_from_page) at h))
    | inr (l, found) ↦
        let same : e ∷ l ≡ page' = cc (rw (other, found, take_from_page) at h) in
        subst (λ k. IsWithout ptr (e ∷ page ++ rest) (k ++ rest)) same
          (cons-IsWithout ptr e (page ++ rest) (l ++ rest) other d
            (page-IsWithout ptr page l rest d.1 found))
  ]
]

-- A page without the pointer.
kept-IsWithout :
    (ptr : ℕ) (page l l' : Page)
    → IsDistinct (page ++ l)
    → take_from_page ptr page ≡ none
    → IsWithout ptr l l'
    → IsWithout ptr (page ++ l) (page ++ l')
unfolding take_from_page
kept-IsWithout ptr [] l l' d h w = w
kept-IsWithout ptr (e ∷ page) l l' d h w = elim (Bool-cases (e.ptr == ptr)) [
  | inl here ↦ absurd (cc (rw (here, take_from_page) at h))
  | inr other ↦ elim (Option-cases (take_from_page ptr page)) [
    | inl missing ↦
        cons-IsWithout ptr e (page ++ l) (page ++ l') other d
          (kept-IsWithout ptr page l l' d.1 missing w)
    | inr (l, found) ↦ absurd (cc (rw (other, found, take_from_page) at h))
  ]
]

IsDistinct-append : (a b : Page) → IsDistinct (a ++ b) → IsDistinct b
IsDistinct-append [] b d = d
IsDistinct-append (e ∷ a) b d = IsDistinct-append a b d.1

take_from-IsWithout :
    (ptr : ℕ) (index : PageIndex)
    → IsDistinct (entries index)
    → IsWithout ptr (entries index) (entries (take_from ptr index))
unfolding take_from size_in_page
take_from-IsWithout ptr [] d = record { found = λ q. ground arith; distinct = tt }
take_from-IsWithout ptr (page ∷ index) d = elim (Option-cases (take_from_page ptr page)) [
  | inl missing ↦
      rw (missing, take_from)
        (kept-IsWithout ptr page (entries index) (entries (take_from ptr index)) d missing
          (take_from-IsWithout ptr index (IsDistinct-append page (entries index) d)))
  | inr (page', found) ↦
      rw (found, take_from) (page-IsWithout ptr page page' (entries index) d found)
]

-- In an index where no pointer is registered twice, a pointer other than NULL is not found any more after
-- it is unregistered, every other pointer is found with its size as before, and still none twice.
pub get_alloc_size-unregister_page_alloc :
    (index : PageIndex) (ptr q : ℕ)
    → ptr ≢ 0
    → IsDistinct (entries index)
    → (get_alloc_size (unregister_page_alloc index ptr) q
        ≡ (if q == ptr then 0 else get_alloc_size index q))
      × IsDistinct (entries (unregister_page_alloc index ptr))
unfolding unregister_page_alloc
get_alloc_size-unregister_page_alloc index ptr q pointer d =
    let good : (ptr == 0) ≡ false = ground (arith, pointer) in
    let w = take_from-IsWithout ptr index d in
    let before = get_alloc_size-entries index q in
    let after = get_alloc_size-entries (take_from ptr index) q in
    rw (good, unregister_page_alloc)
      (
        after
            ∙ ap (λ o. if q == 0 then 0 else size_or_zero o) (w.found q)
            ∙ by_null q (size_in_page q (entries index))
            ∙ ap (λ r. if q == ptr then 0 else r) (sym before),
        w.distinct,
      )
  where
    by_null :
        (q : ℕ) (old : Option ℕ)
        → (if q == 0 then 0 else size_or_zero (if q == ptr then none else old))
          ≡ (if q == ptr then 0 else (if q == 0 then 0 else size_or_zero old))
    by_null q old = ground (arith, pointer)
