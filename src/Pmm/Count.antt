-- ===== src/Pmm/Count.antt =====
-- kernel/mm/pmm.c: `pmm_free_page_count` against the operations that change one page.
use hydrogen_os.Prelude.{
  ℕ, zero, suc, ◌+◌, ◌/◌, ◌≤◌, ◌<◌, ◌≡◌, refl, ◌≢◌, true, false, arith, inl, inr, nat_cases, ◌⊎◌,
  sym,
}
use hydrogen_os.Pmm.{
  Pmm, max_pages, page_size, test_bit, count_scan, free_page_count, alloc_page, free_page,
}
use hydrogen_os.Pmm.Bits.{IsValid}
use hydrogen_os.Pmm.Alloc.{Taken, Exhausted, alloc_page-lowest, free_page-IsValid}

module _ (p q : Pmm) (k : ℕ) where
  count_scan-same :
      (n i : ℕ)
      → ((j : ℕ) → i ≤ j → j < i + n → test_bit j q ≡ test_bit j p)
      → count_scan n i q ≡ count_scan n i p
  unfolding count_scan
  count_scan-same zero i same = refl
  count_scan-same (suc n) i same = ground (
    arith,
    same i (omega arith) (omega arith),
    count_scan-same n (i + 1) (λ j a b. same j (omega arith) (omega arith)),
  )

  -- `q` has page `k` in use, which is free in `p`, and no other difference in the range.
  count_scan-one :
      (n i : ℕ)
      → test_bit k p ≡ false
      → test_bit k q ≡ true
      → ((j : ℕ) → i ≤ j → j < i + n → k ≢ j → test_bit j q ≡ test_bit j p)
      → i ≤ k
      → k < i + n
      → count_scan n i q + 1 ≡ count_scan n i p
  unfolding count_scan
  count_scan-one zero i was now same lo hi = absurd (omega arith)
  count_scan-one (suc n) i was now same lo hi = elim (nat_cases k i) [
    | inl e ↦
        let rest : count_scan n (i + 1) q ≡ count_scan n (i + 1) p =
          count_scan-same n (i + 1) (λ j a b. same j (omega arith) (omega arith) (omega arith)) in
        ground (arith, rest, e)
    | inr ne ↦ ground (
      arith,
      ne,
      same i (omega arith) (omega arith) ne,
      count_scan-one n (i + 1) was now (λ j a b. same j (omega arith) (omega arith)),
    )
  ]

-- Each successful `pmm_alloc_page` takes one from `pmm_free_page_count`; a refused one means that
-- the count is and stays what it was.
pub free_page_count-alloc_page :
    (p : Pmm)
    → IsValid p
    → (((i : ℕ) × Taken p i (alloc_page p))
        × (free_page_count (alloc_page p).1 + 1 ≡ free_page_count p))
      ⊎ (Exhausted p (alloc_page p) × (free_page_count (alloc_page p).1 ≡ free_page_count p))
unfolding free_page_count
free_page_count-alloc_page p v = elim (alloc_page-lowest p v) [
  | inl (i, t) ↦ inl (
    (i, t),
    count_scan-one p (alloc_page p).1 i max_pages 0 t.was_free (ground (arith, t.bits i))
        (λ j a b ne. ground (arith, t.bits j)) (omega arith) t.in_range,
  )
  | inr x ↦ inr (x, count_scan-same p (alloc_page p).1 0 max_pages 0 (λ j a b. x.bits j))
]

-- Freeing a page in use adds one to `pmm_free_page_count`.
pub free_page_count-free_page :
    (addr : ℕ) (p : Pmm)
    → IsValid p
    → addr / page_size < max_pages
    → test_bit (addr / page_size) p ≡ true
    → free_page_count (free_page addr p) ≡ free_page_count p + 1
unfolding free_page_count
free_page_count-free_page addr p v lt used =
    let bit = λ (j : ℕ) (h : j < max_pages). (free_page-IsValid addr p v j h).1 in
    sym (
      count_scan-one (free_page addr p) p (addr / page_size) max_pages 0
        (ground (arith, bit (addr / page_size) lt)) used
        (λ j a b ne. ground (arith, bit j (omega arith))) (omega arith) lt)
