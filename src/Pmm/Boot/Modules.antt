-- ===== src/Pmm/Boot/Modules.antt =====
-- kernel/mm/pmm.c: the reservation of the boot modules in `pmm_init`.
use native.Mathlib.Nat.{add-zero}
use hydrogen_os.Prelude.{
  ℕ, zero, suc, ◌+◌, ◌*◌, ◌^◌, ◌<◌, ◌≡◌, ◌⊎◌, true, arith, ltb, if◌then◌else◌, inl, inr, lt→ltb,
}
use hydrogen_os.Pmm.{Pmm, max_pages, test_bit, reserve_region, BootInfo, mods_loop}
use hydrogen_os.Pmm.Boot.{
  IsBooting, Meets, if-IsBooting, reserve_region-IsBooting, reserve_region-used,
}

-- The range of boot module `k` of the table at `m`, if it is not empty, meets page `j`.
abbrev pub ModuleMeets : BootInfo → ℕ → ℕ → ℕ → Type 0
ModuleMeets mbi m k j =
    (mbi.read32 (m + k * 16) < mbi.read32 (m + k * 16 + 4))
    × Meets (mbi.read32 (m + k * 16)) (mbi.read32 (m + k * 16 + 4)) j

pub mods_loop-IsBooting :
    (n : ℕ) (mbi : BootInfo) (m : ℕ) (p : Pmm) → IsBooting p → IsBooting (mods_loop n mbi m p)
unfolding mods_loop
mods_loop-IsBooting zero mbi m p b = b
mods_loop-IsBooting (suc n) mbi m p b =
    mods_loop-IsBooting n mbi (m + 16) _
      (if-IsBooting (ltb (mbi.read32 m) (mbi.read32 (m + 4))) (reserve_region-IsBooting _ _ p b) b)

module_step :
    (mbi : BootInfo) (m j : ℕ) (p : Pmm)
    → IsBooting p
    → j < max_pages
    → ((a : ℕ) → mbi.read32 a < 2 ^ 32)
    → (test_bit j p ≡ true)
      ⊎ ((mbi.read32 m < mbi.read32 (m + 4)) × Meets (mbi.read32 m) (mbi.read32 (m + 4)) j)
    → test_bit j (
        if ltb (mbi.read32 m) (mbi.read32 (m + 4))
        then reserve_region (mbi.read32 m) (mbi.read32 (m + 4)) p
        else p)
      ≡ true
module_step mbi m j p b lt r (inl used) = ground (
  arith,
  reserve_region-used (mbi.read32 m) (mbi.read32 (m + 4)) j p b lt (omega (arith, r (m + 4)))
      (inr used),
)
module_step mbi m j p b lt r (inr (some_bytes, meets)) =
    rw (lt→ltb _ _ some_bytes)
      (reserve_region-used _ _ j p b lt (omega (arith, r (m + 4))) (inl meets))

pub mods_loop-used :
    (n : ℕ) (mbi : BootInfo) (m j : ℕ) (p : Pmm)
    → IsBooting p
    → j < max_pages
    → ((a : ℕ) → mbi.read32 a < 2 ^ 32)
    → (test_bit j p ≡ true) ⊎ ((k : ℕ) × (k < n) × ModuleMeets mbi m k j)
    → test_bit j (mods_loop n mbi m p) ≡ true
unfolding mods_loop
mods_loop-used zero mbi m j p b lt r (inl used) = used
mods_loop-used zero mbi m j p b lt r (inr (k, out, _)) = elim out [ ]
mods_loop-used (suc n) mbi m j p b lt r (inl used) =
    mods_loop-used n mbi (m + 16) j _
      (if-IsBooting (ltb (mbi.read32 m) (mbi.read32 (m + 4))) (reserve_region-IsBooting _ _ p b) b)
      lt r (inl (module_step mbi m j p b lt r (inl used)))
mods_loop-used (suc n) mbi m j p b lt r (inr (zero, _, meets)) =
    mods_loop-used n mbi (m + 16) j _
      (if-IsBooting (ltb (mbi.read32 m) (mbi.read32 (m + 4))) (reserve_region-IsBooting _ _ p b) b)
      lt r (inl (module_step mbi m j p b lt r (inr (rw add-zero at meets))))
mods_loop-used (suc n) mbi m j p b lt r (inr (suc k, in_table, meets)) =
    let shift : m + suc k * 16 ≡ m + 16 + k * 16 = omega arith in
    mods_loop-used n mbi (m + 16) j _
      (if-IsBooting (ltb (mbi.read32 m) (mbi.read32 (m + 4))) (reserve_region-IsBooting _ _ p b) b)
      lt r (inr (k, omega arith, rw shift at meets))
