-- ===== src/Pmm/Tests.antt =====
-- kernel/mm/pmm.c at a small bitmap: pages 0 to 2 and all from 8 on in use.
use hydrogen_os.Prelude.{
  ℕ, zero, suc, ◌+◌, ◌-◌, ◌*◌, ◌/◌, ◌^◌, ◌≤◌, ◌<◌, ◌≡◌, refl, ◌≢◌, ◌⊎◌, true, false, arith, ◌==◌,
  if◌then◌else◌, some, List,
}
use hydrogen_os.Prelude.Bytes.{bit_at, bit_clear}
use hydrogen_os.Pmm.{
  Pmm, page_size, test_bit, set_bit, clear_bit, set_range, alloc_page, alloc_scan, alloc_contiguous,
  contiguous_scan, free_page, first_free_frame, free_page_count, BootInfo, init, init_mods,
  init_mmap, reserve_region, clear_available, clear_range, mmap_loop, all_reserved,
}
use hydrogen_os.Pmm.Bits.{IsValid}
use hydrogen_os.Pmm.Alloc.{
  Taken, Exhausted, alloc_page-lowest, alloc_page-first_free_frame, free_page-IsValid,
  free_page-alloc_page,
}
use hydrogen_os.Pmm.Contiguous.{RunTaken, NoRun, alloc_contiguous-first_fit}
use hydrogen_os.Pmm.Count.{free_page_count-alloc_page, free_page_count-free_page}
use hydrogen_os.Pmm.Boot.{Meets}
use hydrogen_os.Pmm.Boot.Map.{Reached, Entries, clear_all, mmap_loop-Entries}
use hydrogen_os.Pmm.Boot.Init.{init-free, InModule}

abbrev sample : Pmm
sample = record { page_bitmap = λ k. if k == 0 then 7 else 255; first_free_hint = 2 }

sample_below : (i : ℕ) → i < 2 → test_bit i sample ≡ true
unfolding test_bit bit_at
sample_below zero h = refl
sample_below (suc zero) h = refl
sample_below (suc (suc i)) h = absurd (omega arith)

sample-IsValid : IsValid sample
sample-IsValid = record { bytes = λ k. ground arith; hint_le = omega arith; below = sample_below }

alloc_sample : (alloc_page sample).0 ≡ 3 * page_size
unfolding alloc_page alloc_scan test_bit bit_at
alloc_sample = refl

contiguous_sample : (alloc_contiguous 5 sample).0 ≡ 3 * page_size
unfolding alloc_contiguous contiguous_scan test_bit bit_at
contiguous_sample = refl

alloc_page-lowest_example :
    ((i : ℕ) × Taken sample i (alloc_page sample)) ⊎ Exhausted sample (alloc_page sample)
alloc_page-lowest_example = alloc_page-lowest sample sample-IsValid

alloc_contiguous-first_fit_example :
    ((s : ℕ) × RunTaken sample 5 s (alloc_contiguous 5 sample))
    ⊎ NoRun sample 5 (alloc_contiguous 5 sample)
alloc_contiguous-first_fit_example =
    alloc_contiguous-first_fit 5 sample sample-IsValid (omega arith) (omega arith)

alloc_page-first_free_frame_example :
    (alloc_page sample).0
    ≡ (if first_free_frame sample == 2 ^ 64 - 1 then 0 else first_free_frame sample * page_size)
alloc_page-first_free_frame_example = alloc_page-first_free_frame sample (omega arith)

free_page-IsValid_example :
    IsValid (free_page 4096 sample)
    × (test_bit 1 (free_page 4096 sample)
        ≡ (if 4096 / page_size == 1 then false else test_bit 1 sample))
free_page-IsValid_example = free_page-IsValid 4096 sample sample-IsValid 1 (omega arith)

alloc_sample-ne_zero : (alloc_page sample).0 ≢ 0
alloc_sample-ne_zero = omega (arith, alloc_sample)

free_page-alloc_page_example :
    test_bit 3 (free_page (alloc_page sample).0 (alloc_page sample).1) ≡ test_bit 3 sample
free_page-alloc_page_example =
    free_page-alloc_page sample 3 sample-IsValid alloc_sample-ne_zero (omega arith)

free_page_count-alloc_page_example :
    (((i : ℕ) × Taken sample i (alloc_page sample))
      × (free_page_count (alloc_page sample).1 + 1 ≡ free_page_count sample))
    ⊎ (Exhausted sample (alloc_page sample)
        × (free_page_count (alloc_page sample).1 ≡ free_page_count sample))
free_page_count-alloc_page_example = free_page_count-alloc_page sample sample-IsValid

free_page_count-free_page_example :
    free_page_count (free_page 4096 sample) ≡ free_page_count sample + 1
free_page_count-free_page_example =
    free_page_count-free_page 4096 sample sample-IsValid (omega arith)
      (sample_below 1 (omega arith))

-- One available entry for the bytes from 2 MiB to 4 MiB, in a map of 24 bytes at 0x1000.
abbrev boot_info : BootInfo
boot_info = record {
  flags = 2 ^ 6;
  mmap_addr = 0x1000;
  mmap_length = 24;
  mods_count = 0;
  mods_addr = 0;
  read32 = λ a. if a == 0x1000 then 20 else if a == 0x1000 + 20 then 1 else 0;
  read64 = λ a. if a == 0x1004 then 0x200000 else if a == 0x100c then 0x200000 else 0;
}

mmap_loop-Entries_example :
    (es : List ℕ) × Entries boot_info 0x1018 0x1000 es
    × (mmap_loop 25 boot_info 0x1000 0x1018 all_reserved ≡ clear_all boot_info es all_reserved)
mmap_loop-Entries_example =
    mmap_loop-Entries 25 boot_info 0x1000 0x1018 all_reserved (λ a. ground arith) (omega arith)
      (omega arith)

page_600_free : test_bit 600 (init 0x100000 0x180000 (some boot_info)) ≡ false
unfolding init test_bit bit_at init_mods reserve_region set_range set_bit init_mmap mmap_loop
    clear_available clear_range clear_bit bit_clear
page_600_free = refl

init-free_example :
    (256 ≤ 600)
    × ¬ Meets 0x100000 0x180000 600
    × ¬ InModule boot_info 600
    × Reached boot_info (0x1000 + 24) 600 0x1000
init-free_example =
    init-free 0x100000 0x180000 boot_info 600 (omega arith) (omega arith) (λ a. ground arith)
      page_600_free
