-- ===== src/VmmUser/Protect/Tests.antt =====
-- kernel/mm/vmm_user.c, vmm_user_protect: runs on a small address space.
use hydrogen_os.Prelude.{ℕ, ◌+◌, ◌-◌, ◌*◌, ◌≤◌, ◌≡◌, ◌⊎◌, refl, true, arith, none, some, [], ◌∷◌}
use hydrogen_os.VmmUser.{
  Space, Machine, Errno, page_size, mmap_base, page_round_up, range_ok, prot_check, find_neighbors,
}
use hydrogen_os.VmmUser.Protect.{
  cover_loop, split_both, protect, protect_range_of, alloc_spares, merge_around, merge_from,
  set_prot, split_at, split_list, merge_loop,
}
use hydrogen_os.VmmUser.View.{IsValid}
use hydrogen_os.VmmUser.Protect.Whole.{Protected, split_both-cover_loop, protect_lem}

-- A machine that never runs out and keeps no state.
abbrev steady : Machine ℕ
steady = record {
  oom_alloc_page = λ m. (page_size, m);
  zero_frame = λ phys m. m;
  pmm_free_page = λ phys m. m;
  total_page_count = 4096;
  map_page = λ addr phys flags m. (true, m);
  unmap_range = λ addr len m. m;
  protect_range = λ addr len flags m. m;
  oom_kalloc = λ m. (true, m);
  kalloc = λ m. (true, m + 1);
  kfree = λ m. m - 1;
  page_prot_none = 512;
  page_user = 4;
  page_rw = 2;
  page_no_exec = 8;
}

abbrev four_pages : Space
four_pages = record {
  regions = record { start = mmap_base; end = mmap_base + 4 * page_size; prot = 3 } ∷ [];
  region_count = 1;
}

four_pages-IsValid : IsValid four_pages
four_pages-IsValid = record {
  ordered = (
    omega arith,
    record {
      nonempty = omega arith;
      start_aligned = refl;
      end_aligned = refl;
      in_window = omega arith;
    },
    tt,
  );
  count = refl;
  count_le = omega arith;
}

-- Two pages in the middle become read-only: one region becomes three.
protect_middle :
    (protect steady true (mmap_base + page_size) 8192 1 0 four_pages 0).1.region_count ≡ 3
unfolding protect range_ok prot_check protect_range_of cover_loop page_round_up alloc_spares
    merge_around merge_from find_neighbors set_prot split_both split_at split_list merge_loop
protect_middle = refl

split_both-cover_loop_example :
    ((split_both (mmap_base + page_size) (mmap_base + page_size + page_round_up 8000) four_pages).1
      ≡ (cover_loop
          (mmap_base + page_size)
          (mmap_base + page_size + page_round_up 8000)
          four_pages.regions
          (mmap_base + page_size)
          0).1)
    × ((split_both
          (mmap_base + page_size)
          (mmap_base + page_size + page_round_up 8000)
          four_pages).1
        ≤ 2)
unfolding range_ok cover_loop page_round_up
split_both-cover_loop_example =
    split_both-cover_loop (mmap_base + page_size) 8000 four_pages refl four_pages-IsValid
      (omega arith)

protect_lem_example :
    (((protect steady true (mmap_base + page_size) 8000 1 0 four_pages 0).0 ≡ none)
      × Protected
          (mmap_base + page_size)
          (mmap_base + page_size + page_round_up 8000)
          1
          four_pages
          (protect steady true (mmap_base + page_size) 8000 1 0 four_pages 0).1)
    ⊎ ((e : Errno) × ((protect steady true (mmap_base + page_size) 8000 1 0 four_pages 0).0
          ≡ some e)
        × ((protect steady true (mmap_base + page_size) 8000 1 0 four_pages 0).1 ≡ four_pages))
unfolding range_ok
protect_lem_example =
    protect_lem steady (mmap_base + page_size) 8000 1 0 four_pages 0 refl four_pages-IsValid
