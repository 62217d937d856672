-- ===== src/VmmUser/Tests.antt =====
-- kernel/mm/vmm_user.c: runs on small address spaces, over a machine that counts its pages.
use hydrogen_os.Prelude.{ℕ, ◌+◌, ◌-◌, ◌*◌, ◌^◌, ◌≡◌, ◌⊎◌, refl, true, arith, none, some, [], ◌∷◌}
use hydrogen_os.VmmUser.{
  Region, Space, Machine, ok, fail, enomem, eacces, page_size, mmap_base, page_round_up, prot_check,
  range_is_free, find_free_range, needs_split, range_ok, map, unmap, choose_start, map_at,
  merges_prev, last?, find_neighbors, populate, place, merges_next, set_last_end, end_of_next,
  unmap_range_of, unmap_loop,
}
use hydrogen_os.VmmUser.View.{IsValid}
use hydrogen_os.VmmUser.Map.{MapResult, map_lem}
use hydrogen_os.VmmUser.Enough.{HasMemory, map-ok}
use hydrogen_os.VmmUser.Unmap.{Unmapped, unmap_lem}

-- A machine whose state is the number of pages it has given out.
abbrev counting : Machine ℕ
counting = record {
  oom_alloc_page = λ m. (m * page_size + page_size, m + 1);
  zero_frame = λ phys m. m;
  pmm_free_page = λ phys m. m - 1;
  total_page_count = 4096;
  map_page = λ addr phys flags m. (true, m);
  unmap_range = λ addr len m. m;
  protect_range = λ addr len flags m. m;
  oom_kalloc = λ m. (true, m);
  kalloc = λ m. (true, m);
  kfree = λ m. m;
  page_prot_none = 512;
  page_user = 4;
  page_rw = 2;
  page_no_exec = 2 ^ 63;
}

-- Two regions with a page between them.
abbrev low : Region
low = record { start = mmap_base; end = mmap_base + 2 * page_size; prot = 3 }

abbrev high : Region
high = record { start = mmap_base + 3 * page_size; end = mmap_base + 5 * page_size; prot = 3 }

abbrev two : Space
two = record { regions = low ∷ high ∷ []; region_count = 2 }

two-IsValid : IsValid two
two-IsValid = record {
  ordered = (
    omega arith,
    record {
      nonempty = omega arith;
      start_aligned = refl;
      end_aligned = refl;
      in_window = omega arith;
    },
    (
      omega arith,
      record {
        nonempty = omega arith;
        start_aligned = refl;
        end_aligned = refl;
        in_window = omega arith;
      },
      tt,
    ),
  );
  count = refl;
  count_le = omega arith;
}

counting-HasMemory : HasMemory counting
counting-HasMemory = record {
  page = λ m. ground arith;
  table = λ addr phys flags m. refl;
  heap = λ m. refl;
}

-- One page more fills the gap, and the three regions become one.
map_fills_gap : (map counting true 0 4000 3 0 two 0).1 ≡ record {
  regions = record { start = mmap_base; end = mmap_base + 5 * page_size; prot = 3 } ∷ [];
  region_count = 1;
}
unfolding map prot_check page_round_up choose_start find_free_range map_at merges_prev last?
    find_neighbors populate place merges_next set_last_end end_of_next
map_fills_gap = refl

-- Another protection keeps its region apart.
map_apart : (map counting true 0 4096 1 0 two 0).1.region_count ≡ 3
unfolding map prot_check page_round_up choose_start find_free_range map_at merges_prev last?
    find_neighbors merges_next populate place
map_apart = refl

-- A write and execute mapping needs its flag.
map_write_exec : (map counting true 0 4096 7 0 two 0).0 ≡ fail eacces
unfolding map prot_check
map_write_exec = refl

-- The middle page of three splits a region, the upper part being gone.
unmap_cuts :
    (unmap counting true (mmap_base + page_size) (3 * page_size) two 0).1.regions
    ≡ record { start = mmap_base; end = mmap_base + page_size; prot = 3 }
      ∷ record { start = mmap_base + 4 * page_size; end = mmap_base + 5 * page_size; prot = 3 }
      ∷ []
unfolding unmap range_ok unmap_range_of needs_split page_round_up unmap_loop
unmap_cuts = refl

map_lem_example :
    MapResult
      (page_round_up 4000)
      3
      two
      (map counting true 0 4000 3 0 two 0).0
      (map counting true 0 4000 3 0 two 0).1
map_lem_example = map_lem counting true 0 4000 3 0 two 0 two-IsValid

map-ok_example : (start : ℕ) × ((map counting true 0 4000 3 0 two 0).0 ≡ ok start)
unfolding page_round_up prot_check range_is_free
map-ok_example =
    map-ok counting counting-HasMemory 0 4000 3 0 (mmap_base + 2 * page_size) two 0 two-IsValid
      (omega arith) (omega arith) (omega arith) (omega arith) refl refl (omega arith) (omega arith)
      refl

unmap_lem_example :
    (((unmap counting true (mmap_base + page_size) 12288 two 0).0 ≡ none)
      × Unmapped
          (mmap_base + page_size)
          (mmap_base + page_size + page_round_up 12288)
          two
          (unmap counting true (mmap_base + page_size) 12288 two 0).1)
    ⊎ (((unmap counting true (mmap_base + page_size) 12288 two 0).0 ≡ some enomem)
        × ((unmap counting true (mmap_base + page_size) 12288 two 0).1 ≡ two)
        × (needs_split
              (mmap_base + page_size)
              (mmap_base + page_size + page_round_up 12288)
              two.regions
            ≡ true))
unfolding range_ok
unmap_lem_example = unmap_lem counting (mmap_base + page_size) 12288 two 0 refl two-IsValid
