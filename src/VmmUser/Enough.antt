-- ===== src/VmmUser/Enough.antt =====
-- kernel/mm/vmm_user.c, vmm_user_map: it returns a mapping when memory and a range are there.
use hydrogen_os.Prelude.{
  ℕ, zero, suc, ◌+◌, ◌-◌, ◌/◌, ◌%◌, ◌≤◌, ◌<◌, ◌≡◌, ◌≢◌, refl, Bool-cases, true, false, ◌||◌, arith,
  ltb, leb, ◌==◌, none, inl, inr,
}
use hydrogen_os.VmmUser.{
  Space, Machine, ok, page_size, mmap_base, mmap_limit, max_regions, page_round_up, find_neighbors,
  prot_check, merges_prev, merges_next, populate, prot_to_page_flags, map_at, map, range_is_free,
}
use hydrogen_os.VmmUser.View.{IsValid, page_round_up_lem}
use hydrogen_os.VmmUser.Split.{choose_start-some}

-- Memory does not run out: each page, each page table and each descriptor is there.
pub record HasMemory {M : Type 0} (env : Machine M) : Type 0 where
  pub page : (m : M) → (env.oom_alloc_page m).0 ≢ 0
  pub table : (addr phys flags : ℕ) (m : M) → (env.map_page addr phys flags m).0 ≡ true
  pub heap : (m : M) → (env.oom_kalloc m).0 ≡ true

module _ {M : Type 0} (env : Machine M) (memory : HasMemory env) where
  populate-true : (n start addr flags : ℕ) (m : M) → (populate env n start addr flags m).0 ≡ true
  unfolding populate
  populate-true zero start addr flags m = refl
  populate-true (suc n) start addr flags m =
      let (phys, m1) = env.oom_alloc_page m in
      let m2 = env.zero_frame phys m1 in
      let some_page : (phys == 0) ≡ false = ground (arith, memory.page m) in
      rw
        (
          some_page,
          memory.table addr phys flags m2,
          populate-true n start (addr + page_size) flags (env.map_page addr phys flags m2).1,
        )
        refl

  map_at-ok :
      (start len prot : ℕ) (s : Space) (m : M)
      → s.region_count < max_regions
      → (map_at env start len prot s m).0 ≡ ok start
  unfolding map_at
  map_at-ok start len prot s m room =
      let few : leb max_regions s.region_count ≡ false = ground (arith, room) in
      let before = (find_neighbors s.regions start).0 in
      let after = (find_neighbors s.regions start).1 in
      let merged = merges_prev before start prot || merges_next after (start + len) prot in
      elim (Bool-cases merged) [
        | inl e ↦
            rw (e, populate-true (len / page_size) start start (prot_to_page_flags env prot) m) refl
        | inr e ↦
            rw
              (
                e,
                few,
                memory.heap m,
                populate-true (len / page_size) start start (prot_to_page_flags env prot)
                    (env.oom_kalloc m).1,
              )
              refl
      ]

  -- With memory for every page, page table and descriptor, with a region to spare, and with
  -- arguments that pass the checks, `vmm_user_map` succeeds as soon as any range of the page-rounded
  -- length in the window is free, whatever the hint.
  pub map-ok :
      (hint len prot flags free : ℕ) (s : Space) (m : M)
      → IsValid s
      → s.region_count < max_regions
      → 0 < len
      → len ≤ mmap_limit - mmap_base
      → page_round_up len / page_size ≤ env.total_page_count
      → hint % page_size ≡ 0
      → prot_check prot flags ≡ none
      → mmap_base ≤ free
      → free + page_round_up len ≤ mmap_limit
      → range_is_free s.regions free (free + page_round_up len) ≡ true
      → (start : ℕ) × ((map env true hint len prot flags s m).0 ≡ ok start)
  unfolding map
  map-ok hint len prot flags free s m v room h small pages a p l w e =
      let len' = page_round_up len in
      let (_, up, _) = page_round_up_lem len (omega (arith, small)) in
      let (start, c) =
        choose_start-some s.regions hint len' free v.ordered (omega (arith, up, h)) l w e in
      let nonzero : (len == 0) ≡ false = ground (arith, h) in
      let aligned : (hint % page_size == 0) ≡ true = ground (arith, a) in
      let fits : ltb (mmap_limit - mmap_base) len ≡ false = ground (arith, small) in
      let enough : ltb env.total_page_count (len' / page_size) ≡ false = ground (arith, pages) in
      (start, rw (nonzero, p, aligned, fits, enough, c) (map_at-ok start len' prot s m room))
