-- ===== src/Pmm/Boot.antt =====
-- kernel/mm/pmm.c: what every step of `pmm_init` keeps, and what `reserve_region` marks.
pub mod Map
pub mod Modules
pub mod Init
use hydrogen_os.Prelude.{
  ℕ, zero, suc, ◌+◌, ◌-◌, ◌*◌, ◌/◌, ◌%◌, ◌^◌, ◌≤◌, ◌<◌, ◌≡◌, refl, ◌∙◌, ◌⊎◌, Bool, true, false,
  arith, ltb, ◌==◌, if◌then◌else◌, inl, inr, Bool-cases, ltb→lt, lt→ltb, Option, none, some, min,
  bit_and,
}
use native.Mathlib.Nat.{add-zero}
use hydrogen_os.Pmm.{
  Pmm, max_pages, page_size, page_up, test_bit, set_range, clear_range, reserve_region, BootInfo,
  clear_available, mmap_loop, mods_loop, all_reserved, init_mmap, init_mods, init,
}
use hydrogen_os.Pmm.Bits.{
  IsValid, AreBytes, within, test_bit-set_range, set_range-AreBytes, first_free_hint-set_range,
  clear_range-AreBytes, first_free_hint-clear_range, test_bit-clear_range,
}

-- What holds all through `pmm_init`, whose hint is still the static zero.
pub record IsBooting (p : Pmm) : Type 0 where
  pub bytes : AreBytes p.page_bitmap
  pub hint : p.first_free_hint ≡ 0

pub IsBooting-IsValid : (p : Pmm) → IsBooting p → IsValid p
IsBooting-IsValid p b = record {
  bytes = b.bytes;
  hint_le = omega (arith, b.hint);
  below = λ i h. absurd (omega (arith, b.hint));
}

set_range-IsBooting : (n i : ℕ) (p : Pmm) → IsBooting p → IsBooting (set_range n i p)
set_range-IsBooting n i p b = record {
  bytes = set_range-AreBytes n i p b.bytes;
  hint = first_free_hint-set_range n i p ∙ b.hint;
}

clear_range-IsBooting : (n i : ℕ) (p : Pmm) → IsBooting p → IsBooting (clear_range n i p)
clear_range-IsBooting n i p b = record {
  bytes = clear_range-AreBytes n i p b.bytes;
  hint = first_free_hint-clear_range n i p ∙ b.hint;
}

pub reserve_region-IsBooting : (s e : ℕ) (p : Pmm) → IsBooting p → IsBooting (reserve_region s e p)
unfolding reserve_region
reserve_region-IsBooting s e p b = set_range-IsBooting _ _ p b

-- The bytes of page `j` and those from `start` up to `end` overlap.
abbrev pub Meets : ℕ → ℕ → ℕ → Type 0
Meets start end j = (start < (j + 1) * page_size) × (j * page_size < end)

pub reserve_region-used :
    (s e j : ℕ) (p : Pmm)
    → IsBooting p
    → j < max_pages
    → e ≤ 2 ^ 63
    → (Meets s e j ⊎ (test_bit j p ≡ true))
    → test_bit j (reserve_region s e p) ≡ true
unfolding reserve_region
reserve_region-used s e j p b lt small why = ground (
  arith,
  test_bit-set_range ((if ltb max_pages (page_up e) then max_pages else page_up e) - s / page_size)
      (s / page_size) j p b.bytes,
  why,
)

pub if-IsBooting :
    (t : Bool) {p q : Pmm} → IsBooting p → IsBooting q → IsBooting (if t then p else q)
if-IsBooting true b c = b
if-IsBooting false b c = c

pub clear_available-IsBooting :
    (mbi : BootInfo) (e : ℕ) (p : Pmm) → IsBooting p → IsBooting (clear_available mbi e p)
unfolding clear_available
clear_available-IsBooting mbi e p b =
    if-IsBooting (mbi.read32 (e + 20) == 1)
      (if-IsBooting (ltb (mbi.read64 (e + 4)) (max_pages * page_size))
        (clear_range-IsBooting _ _ p b) b)
      b

pub mmap_loop-IsBooting :
    (n : ℕ) (mbi : BootInfo) (e end : ℕ) (p : Pmm)
    → IsBooting p
    → IsBooting (mmap_loop n mbi e end p)
unfolding mmap_loop
mmap_loop-IsBooting zero mbi e end p b = b
mmap_loop-IsBooting (suc n) mbi e end p b = elim (Bool-cases (ltb e end)) [
  | inl more ↦ rw more (mmap_loop-IsBooting n mbi _ end _ (clear_available-IsBooting mbi e p b))
  | inr done ↦ rw done b
]
