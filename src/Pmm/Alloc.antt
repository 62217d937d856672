-- ===== src/Pmm/Alloc.antt =====
-- kernel/mm/pmm.c: `pmm_alloc_page`, `pmm_first_free_frame` and `pmm_free_page`.
use hydrogen_os.Prelude.{
  ℕ, zero, suc, ◌+◌, ◌-◌, ◌*◌, ◌/◌, ◌^◌, ◌≤◌, ◌<◌, ◌≡◌, refl, ◌≢◌, ◌⊎◌, true, false, arith, ◌==◌,
  if◌then◌else◌, inl, inr, Bool-cases, lt_cases,
}
use hydrogen_os.Pmm.{
  Pmm, max_pages, page_size, set_bit, test_bit, clear_bit, alloc_scan, alloc_page, first_free_scan,
  first_free_frame, free_page,
}
use hydrogen_os.Pmm.Bits.{
  IsValid, AreBytes, test_bit-set_bit, test_bit-clear_bit, set_bit-AreBytes, clear_bit-AreBytes,
}

-- The hint is no part of the bitmap.
pub test_bit-hint :
    (j h : ℕ) (p : Pmm) → test_bit j (record p { first_free_hint = h }) ≡ test_bit j p
unfolding test_bit
test_bit-hint j h p = refl

-- `r` is what an allocation of page `i` returns: the lowest free page, which is in use afterwards,
-- every other page as before.
pub record Taken (p : Pmm) (i : ℕ) (r : ℕ × Pmm) : Type 0 where
  pub address : r.0 ≡ i * page_size
  pub in_range : i < max_pages
  pub was_free : test_bit i p ≡ false
  pub lowest : (j : ℕ) → j < i → test_bit j p ≡ true
  pub bits : (j : ℕ) → test_bit j r.1 ≡ (if i == j then true else test_bit j p)
  pub valid : IsValid r.1

-- `r` is what a refused allocation returns: no page is free, and none changes.
pub record Exhausted (p : Pmm) (r : ℕ × Pmm) : Type 0 where
  pub address : r.0 ≡ 0
  pub all_used : (j : ℕ) → j < max_pages → test_bit j p ≡ true
  pub bits : (j : ℕ) → test_bit j r.1 ≡ test_bit j p
  pub valid : IsValid r.1

below_suc :
    (i : ℕ) (p : Pmm)
    → ((j : ℕ) → j < i → test_bit j p ≡ true)
    → test_bit i p ≡ true
    → (j : ℕ) → j < i + 1
    → test_bit j p ≡ true
below_suc i p h e j lt = elim (lt_cases j i) [
  | inl l ↦ h j l
  | inr g ↦ let same : j ≡ i = omega arith in ground arith
]

Taken-here :
    (n i : ℕ) (p : Pmm)
    → AreBytes p.page_bitmap
    → ((j : ℕ) → j < i → test_bit j p ≡ true)
    → i < max_pages
    → test_bit i p ≡ false
    → Taken p i (alloc_scan (suc n) i p)
unfolding alloc_scan
Taken-here n i p b h lt e = rw e (record {
  address = refl;
  in_range = lt;
  was_free = e;
  lowest = h;
  bits = λ j. ground (arith, test_bit-hint j (i + 1) (set_bit i p), test_bit-set_bit i j p b);
  valid = record {
    bytes = set_bit-AreBytes i p b;
    hint_le = omega arith;
    below = λ j hj.
        ground (arith, test_bit-hint j (i + 1) (set_bit i p), test_bit-set_bit i j p b, h j);
  };
})

alloc_scan_lem :
    (n i : ℕ) (p : Pmm)
    → AreBytes p.page_bitmap
    → ((j : ℕ) → j < i → test_bit j p ≡ true)
    → i + n ≡ max_pages
    → ((k : ℕ) × Taken p k (alloc_scan n i p)) ⊎ Exhausted p (alloc_scan n i p)
unfolding alloc_scan
alloc_scan_lem zero i p b h e = inr (record {
  address = refl;
  all_used = λ j hj. h j (omega arith);
  bits = λ j. test_bit-hint j max_pages p;
  valid = record {
    bytes = b;
    hint_le = omega arith;
    below = λ j hj. ground (arith, test_bit-hint j max_pages p, h j);
  };
})
alloc_scan_lem (suc n) i p b h e = elim (Bool-cases (test_bit i p)) [
  | inl used ↦ rw used (alloc_scan_lem n (i + 1) p b (below_suc i p h used) (omega arith))
  | inr free ↦ inl (i, Taken-here n i p b h (omega arith) free)
]

-- From a valid state `pmm_alloc_page` takes the lowest free page, whatever the hint, and marks
-- exactly that page; it refuses with 0 only when every page is in use. Both leave a valid state.
pub alloc_page-lowest :
    (p : Pmm) → IsValid p → ((i : ℕ) × Taken p i (alloc_page p)) ⊎ Exhausted p (alloc_page p)
unfolding alloc_page
alloc_page-lowest p v = alloc_scan_lem _ _ p v.bytes v.below (omega (arith, v.hint_le))

first_free_scan_lem :
    (n i : ℕ) (p : Pmm)
    → i + n ≡ max_pages
    → (alloc_scan n i p).0
      ≡ (if first_free_scan n i p == 2 ^ 64 - 1 then 0 else first_free_scan n i p * page_size)
unfolding alloc_scan first_free_scan
first_free_scan_lem zero i p e = refl
first_free_scan_lem (suc n) i p e = elim (Bool-cases (test_bit i p)) [
  | inl used ↦ rw used (first_free_scan_lem n (i + 1) p (omega arith))
  | inr free ↦ rw free (ground arith)
]

-- `pmm_first_free_frame` names the frame that the next `pmm_alloc_page` hands out, and is -1 when
-- that call would be refused.
pub alloc_page-first_free_frame :
    (p : Pmm)
    → p.first_free_hint ≤ max_pages
    → (alloc_page p).0
      ≡ (if first_free_frame p == 2 ^ 64 - 1 then 0 else first_free_frame p * page_size)
unfolding alloc_page first_free_frame
alloc_page-first_free_frame p h = first_free_scan_lem _ _ p (omega arith)

first_free_hint-clear_bit : (i : ℕ) (p : Pmm) → (clear_bit i p).first_free_hint ≡ p.first_free_hint
unfolding clear_bit
first_free_hint-clear_bit i p = refl

module _ (addr : ℕ) (p : Pmm) (v : IsValid p) where
  free_page_bit :
      (j : ℕ)
      → j < max_pages
      → test_bit j (free_page addr p) ≡ (if addr / page_size == j then false else test_bit j p)
  unfolding free_page
  free_page_bit j h = ground (
    arith,
    test_bit-clear_bit (addr / page_size) j p v.bytes,
    test_bit-hint j (addr / page_size) (clear_bit (addr / page_size) p),
  )

  free_page-AreBytes : AreBytes (free_page addr p).page_bitmap
  unfolding free_page
  free_page-AreBytes k =
      ground (arith, clear_bit-AreBytes (addr / page_size) p v.bytes k, v.bytes k)

  free_page_hint :
      ((free_page addr p).first_free_hint ≤ p.first_free_hint)
      × (addr / page_size < max_pages → (free_page addr p).first_free_hint ≤ addr / page_size)
  unfolding free_page
  free_page_hint = (
    ground (arith, first_free_hint-clear_bit (addr / page_size) p),
    ground (arith, first_free_hint-clear_bit (addr / page_size) p),
  )

  -- `pmm_free_page` keeps the invariant; it frees the page of an address in range and no other page
  -- of the range, and an address out of range frees none.
  pub free_page-IsValid :
      (j : ℕ)
      → j < max_pages
      → IsValid (free_page addr p)
        × (test_bit j (free_page addr p) ≡ (if addr / page_size == j then false else test_bit j p))
  free_page-IsValid j h = (
    record {
      bytes = free_page-AreBytes;
      hint_le = omega (arith, free_page_hint.0, v.hint_le);
      below = λ i hi.
          let lt : i < p.first_free_hint = omega (arith, free_page_hint.0) in
          let ne : addr / page_size ≢ i =
            (λ e. absurd (omega (arith, free_page_hint.1 (omega (arith, v.hint_le)), e))) in
          ground (arith, free_page_bit i (omega (arith, v.hint_le)), v.below i lt, ne);
    },
    free_page_bit j h,
  )

-- Freeing the page that `pmm_alloc_page` returned restores the bitmap over the managed pages.
pub free_page-alloc_page :
    (p : Pmm) (j : ℕ)
    → IsValid p
    → (alloc_page p).0 ≢ 0
    → j < max_pages
    → test_bit j (free_page (alloc_page p).0 (alloc_page p).1) ≡ test_bit j p
free_page-alloc_page p j v ne hj = elim (alloc_page-lowest p v) [
  | inr x ↦ absurd (ne x.address)
  | inl (i, t) ↦ ground (
    arith,
    t.address,
    t.was_free,
    t.bits j,
    (free_page-IsValid (alloc_page p).0 (alloc_page p).1 t.valid j hj).1,
  )
]
