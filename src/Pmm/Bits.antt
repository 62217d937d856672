-- ===== src/Pmm/Bits.antt =====
-- kernel/mm/pmm.c: the bitmap as a set of pages. Each write of a bit or a range of bits changes
-- exactly the pages that it names.
use hydrogen_os.Prelude.{
  ℕ, zero, suc, ◌+◌, ◌/◌, ◌%◌, ◌≤◌, ◌<◌, ◌≡◌, refl, Bool, true, false, ◌&&◌, arith, ltb, leb, ◌==◌,
  if◌then◌else◌, inl, inr, ◌∙◌, ap, nat_cases, eq→==, ne→==,
}
use hydrogen_os.Prelude.Bytes.{bit_at-bit_set, bit_at-bit_clear, bit_set-lt, bit_clear-lt}
use hydrogen_os.Pmm.{Pmm, max_pages, set_bit, clear_bit, test_bit, set_range, clear_range}

abbrev pub AreBytes : (ℕ → ℕ) → Type 0
AreBytes m = (k : ℕ) → m k < 256

pub set_bit-AreBytes :
    (i : ℕ) (p : Pmm) → AreBytes p.page_bitmap → AreBytes (set_bit i p).page_bitmap
unfolding set_bit
set_bit-AreBytes i p h k =
    ground (arith, h k, bit_set-lt (p.page_bitmap (i / 8)) (i % 8) (h (i / 8)))

pub clear_bit-AreBytes :
    (i : ℕ) (p : Pmm) → AreBytes p.page_bitmap → AreBytes (clear_bit i p).page_bitmap
unfolding clear_bit
clear_bit-AreBytes i p h k =
    ground (arith, h k, bit_clear-lt (p.page_bitmap (i / 8)) (i % 8) (h (i / 8)))

module _ (i j : ℕ) (p : Pmm) (h : AreBytes p.page_bitmap) where
  pub test_bit-set_bit : test_bit j (set_bit i p) ≡ (if i == j then true else test_bit j p)
  unfolding test_bit set_bit
  test_bit-set_bit = elim (nat_cases (i / 8) (j / 8)) [
    | inl e ↦ rw (eq→== _ _ e) (
        ground (
          arith,
          bit_at-bit_set (p.page_bitmap (i / 8)) (i % 8) (j % 8) (h (i / 8)),
          ap p.page_bitmap e,
        ))
    | inr n ↦ rw (ne→== _ _ n) (ground arith)
  ]

  pub test_bit-clear_bit : test_bit j (clear_bit i p) ≡ (if i == j then false else test_bit j p)
  unfolding test_bit clear_bit
  test_bit-clear_bit = elim (nat_cases (i / 8) (j / 8)) [
    | inl e ↦ rw (eq→== _ _ e) (
        ground (
          arith,
          bit_at-bit_clear (p.page_bitmap (i / 8)) (i % 8) (j % 8) (h (i / 8)),
          ap p.page_bitmap e,
        ))
    | inr n ↦ rw (ne→== _ _ n) (ground arith)
  ]

pub first_free_hint-set_bit : (i : ℕ) (p : Pmm) → (set_bit i p).first_free_hint ≡ p.first_free_hint
unfolding set_bit
first_free_hint-set_bit i p = refl

-- `first ≤ j < first + n`, as a test.
abbrev pub within : ℕ → ℕ → ℕ → Bool
within first n j = leb first j && ltb j (first + n)

pub set_range-AreBytes :
    (n i : ℕ) (p : Pmm) → AreBytes p.page_bitmap → AreBytes (set_range n i p).page_bitmap
unfolding set_range
set_range-AreBytes zero i p h = h
set_range-AreBytes (suc n) i p h =
    set_range-AreBytes n (i + 1) (set_bit i p) (set_bit-AreBytes i p h)

pub clear_range-AreBytes :
    (n i : ℕ) (p : Pmm) → AreBytes p.page_bitmap → AreBytes (clear_range n i p).page_bitmap
unfolding clear_range
clear_range-AreBytes zero i p h = h
clear_range-AreBytes (suc n) i p h =
    clear_range-AreBytes n (i + 1) (clear_bit i p) (clear_bit-AreBytes i p h)

pub test_bit-set_range :
    (n i j : ℕ) (p : Pmm)
    → AreBytes p.page_bitmap
    → test_bit j (set_range n i p) ≡ (if within i n j then true else test_bit j p)
unfolding set_range
test_bit-set_range zero i j p h = ground arith
test_bit-set_range (suc n) i j p h = ground (
  arith,
  test_bit-set_range n (i + 1) j (set_bit i p) (set_bit-AreBytes i p h),
  test_bit-set_bit i j p h,
)

pub test_bit-clear_range :
    (n i j : ℕ) (p : Pmm)
    → AreBytes p.page_bitmap
    → test_bit j (clear_range n i p) ≡ (if within i n j then false else test_bit j p)
unfolding clear_range
test_bit-clear_range zero i j p h = ground arith
test_bit-clear_range (suc n) i j p h = ground (
  arith,
  test_bit-clear_range n (i + 1) j (clear_bit i p) (clear_bit-AreBytes i p h),
  test_bit-clear_bit i j p h,
)

pub first_free_hint-set_range :
    (n i : ℕ) (p : Pmm) → (set_range n i p).first_free_hint ≡ p.first_free_hint
unfolding set_range
first_free_hint-set_range zero i p = refl
first_free_hint-set_range (suc n) i p =
    first_free_hint-set_range n (i + 1) (set_bit i p) ∙ first_free_hint-set_bit i p

pub first_free_hint-clear_range :
    (n i : ℕ) (p : Pmm) → (clear_range n i p).first_free_hint ≡ p.first_free_hint
unfolding clear_range clear_bit
first_free_hint-clear_range zero i p = refl
first_free_hint-clear_range (suc n) i p = first_free_hint-clear_range n (i + 1) (clear_bit i p)

-- The invariant that the hint's comment states, and the bounds of the representation.
pub record IsValid (p : Pmm) : Type 0 where
  pub bytes : AreBytes p.page_bitmap
  pub hint_le : p.first_free_hint ≤ max_pages
  pub below : (i : ℕ) → i < p.first_free_hint → test_bit i p ≡ true
