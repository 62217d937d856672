-- ===== src/Pmm/Boot/Init.antt =====
-- kernel/mm/pmm.c: the state that `pmm_init` leaves, with regard to low memory, the kernel's image,
-- the boot modules and the memory map.
use hydrogen_os.Prelude.{
  ℕ, zero, suc, ◌+◌, ◌%◌, ◌^◌, ◌≤◌, ◌<◌, ◌≡◌, refl, ◌≢◌, true, false, arith, ◌==◌, inl, inr,
  Bool-cases, lt_cases, ==→eq, Option, none, some, bit_and,
}
use hydrogen_os.Prelude.Bytes.{bit_at}
use hydrogen_os.Pmm.{
  Pmm, max_pages, test_bit, reserve_region, BootInfo, mods_loop, all_reserved, init_mmap, init_mods,
  init,
}
use hydrogen_os.Pmm.Bits.{IsValid}
use hydrogen_os.Pmm.Boot.{
  IsBooting, IsBooting-IsValid, Meets, if-IsBooting, mmap_loop-IsBooting, reserve_region-IsBooting,
  reserve_region-used,
}
use hydrogen_os.Pmm.Boot.Map.{Reached, mmap_loop-free}
use hydrogen_os.Pmm.Boot.Modules.{ModuleMeets, mods_loop-IsBooting, mods_loop-used}

init_mmap-IsBooting : (mbi : Option BootInfo) → IsBooting (init_mmap mbi)
unfolding init_mmap
init_mmap-IsBooting none = record { bytes = λ k. omega arith; hint = refl }
init_mmap-IsBooting (some mbi) =
    if-IsBooting (bit_and mbi.flags (2 ^ 6) == 0) (record { bytes = λ k. omega arith; hint = refl })
      (mmap_loop-IsBooting _ mbi _ _ _ (record { bytes = λ k. omega arith; hint = refl }))

module _ (kernel_start kernel_end : ℕ) where
  before_mods-IsBooting :
      (mbi : Option BootInfo)
      → IsBooting
          (reserve_region kernel_start kernel_end (reserve_region 0 0x00100000 (init_mmap mbi)))
  before_mods-IsBooting mbi =
      reserve_region-IsBooting _ _ _ (reserve_region-IsBooting _ _ _ (init_mmap-IsBooting mbi))

  -- After `pmm_init`, with or without boot information, the invariant of the allocator holds.
  pub init-IsValid : (mbi : Option BootInfo) → IsValid (init kernel_start kernel_end mbi)
  unfolding init init_mods
  init-IsValid none = IsBooting-IsValid _ (before_mods-IsBooting none)
  init-IsValid (some mbi) = IsBooting-IsValid _ (
      if-IsBooting (bit_and mbi.flags (2 ^ 3) == 0) (before_mods-IsBooting (some mbi))
        (mods_loop-IsBooting _ mbi _ _ (before_mods-IsBooting (some mbi))))

bit_at_ones : (k : ℕ) → k < 8 → bit_at 255 k ≡ true
unfolding bit_at
bit_at_ones zero h = refl
bit_at_ones (suc zero) h = refl
bit_at_ones (suc (suc zero)) h = refl
bit_at_ones (suc (suc (suc zero))) h = refl
bit_at_ones (suc (suc (suc (suc zero)))) h = refl
bit_at_ones (suc (suc (suc (suc (suc zero))))) h = refl
bit_at_ones (suc (suc (suc (suc (suc (suc zero)))))) h = refl
bit_at_ones (suc (suc (suc (suc (suc (suc (suc zero))))))) h = refl
bit_at_ones (suc (suc (suc (suc (suc (suc (suc (suc k)))))))) h = absurd (omega arith)

test_bit-all_reserved : (j : ℕ) → test_bit j all_reserved ≡ true
unfolding test_bit
test_bit-all_reserved j = bit_at_ones (j % 8) (omega arith)

init_mmap-free :
    (mbi : BootInfo) (j : ℕ)
    → test_bit j (init_mmap (some mbi)) ≡ false
    → Reached mbi (mbi.mmap_addr + mbi.mmap_length) j mbi.mmap_addr
unfolding init_mmap
init_mmap-free mbi j free = elim (Bool-cases (bit_and mbi.flags (2 ^ 6) == 0)) [
  | inl no_map ↦ cc (test_bit-all_reserved j, rw no_map at free)
  | inr mapped ↦
      elim (mmap_loop-free (mbi.mmap_length + 1) mbi mbi.mmap_addr (mbi.mmap_addr + mbi.mmap_length)
        j all_reserved (record { bytes = λ k. omega arith; hint = refl }) (rw mapped at free)) [
          | inl was ↦ cc (test_bit-all_reserved j)
          | inr reached ↦ reached
        ]
]

-- A region that is reserved, or a page in use before, cannot leave the page free.
free-reserve_region :
    (s e j : ℕ) (p : Pmm)
    → IsBooting p
    → j < max_pages
    → e ≤ 2 ^ 63
    → test_bit j (reserve_region s e p) ≡ false
    → (¬ Meets s e j) × (test_bit j p ≡ false)
free-reserve_region s e j p b lt small free = (
  λ meets. cc (reserve_region-used s e j p b lt small (inl meets)),
  elim (Bool-cases (test_bit j p)) [
    | inl used ↦ cc (reserve_region-used s e j p b lt small (inr used))
    | inr was ↦ was
  ],
)

-- Page `j` meets a boot module, the information having a table of modules.
abbrev pub InModule : BootInfo → ℕ → Type 0
InModule mbi j =
    (bit_and mbi.flags (2 ^ 3) ≢ 0)
    × (k : ℕ) × (k < mbi.mods_count)
    × ModuleMeets mbi mbi.mods_addr k j

init_mods-free :
    (mbi : BootInfo) (j : ℕ) (p : Pmm)
    → IsBooting p
    → j < max_pages
    → ((a : ℕ) → mbi.read32 a < 2 ^ 32)
    → test_bit j (init_mods (some mbi) p) ≡ false
    → (test_bit j p ≡ false) × ¬ InModule mbi j
unfolding init_mods
init_mods-free mbi j p b lt r free = elim (Bool-cases (bit_and mbi.flags (2 ^ 3) == 0)) [
  | inl no_mods ↦ (rw no_mods at free, λ (flag, k, hk, meets). absurd (flag (==→eq _ _ no_mods)))
  | inr mods ↦
      let left : test_bit j (mods_loop mbi.mods_count mbi mbi.mods_addr p) ≡ false =
        rw mods at free in
      (
        elim (Bool-cases (test_bit j p)) [
          | inl used ↦ cc (mods_loop-used mbi.mods_count mbi mbi.mods_addr j p b lt r (inl used))
          | inr was ↦ was
        ],
        λ (flag, k, hk, meets).
            cc (mods_loop-used mbi.mods_count mbi mbi.mods_addr j p b lt r (inr (k, hk, meets))),
      )
]

-- A page that `pmm_init` leaves free lies above the first MiB, has no byte of the kernel's image or of
-- a listed boot module, and has a byte of an available entry of the memory map, which the walk over
-- the map reaches. The boot information is read in words of 32 bits, and the kernel's image ends below
-- 2^63.
pub init-free :
    (kernel_start kernel_end : ℕ) (mbi : BootInfo) (j : ℕ)
    → j < max_pages
    → kernel_end ≤ 2 ^ 63
    → ((a : ℕ) → mbi.read32 a < 2 ^ 32)
    → test_bit j (init kernel_start kernel_end (some mbi)) ≡ false
    → (256 ≤ j)
      × ¬ Meets kernel_start kernel_end j
      × ¬ InModule mbi j
      × Reached mbi (mbi.mmap_addr + mbi.mmap_length) j mbi.mmap_addr
unfolding init
init-free ks ke mbi j lt small r free =
    let (kernel, modules) =
      init_mods-free mbi j _ (before_mods-IsBooting ks ke (some mbi)) lt r free in
    let (not_kernel, low) =
      free-reserve_region ks ke j _
        (reserve_region-IsBooting 0 0x00100000 _ (init_mmap-IsBooting (some mbi))) lt small
        kernel in
    let (not_low, mapped) =
      free-reserve_region 0 0x00100000 j _ (init_mmap-IsBooting (some mbi)) lt (omega arith) low in
    (
      elim (lt_cases j 256) [
        | inl below ↦ absurd (not_low (omega arith, omega arith))
        | inr above ↦ above
      ],
      not_kernel,
      modules,
      init_mmap-free mbi j mapped,
    )
