-- ===== src/Kheap/Tests.antt =====
-- kernel/mm/kheap.c: runs on a heap of one page.
use hydrogen_os.Prelude.{
  ◌+◌, ◌-◌, ◌*◌, ◌^◌, ◌≤◌, ◌≡◌, ◌≢◌, refl, true, false, ltb, ◌==◌, length, some, [], ◌∷◌, arith,
}
use hydrogen_os.Kheap.{
  Heap, block_size, align8, kheap_init, split_block, kalloc_scan, kalloc, coalesce_loop, coalesce,
  mark_free, kfree, stats_loop, kheap_get_stats,
}
use hydrogen_os.Kheap.Chain.{apart, IsHeap, used, Separated}
use hydrogen_os.Kheap.Alloc.{Allocated, kalloc_lem}
use hydrogen_os.Kheap.Free.{kfree_lem}
use hydrogen_os.Kheap.Round.{kfree-kalloc}
use hydrogen_os.Kheap.Runs.{initial, allocated, IsHeap-kheap_init, Separated-Reached}
use hydrogen_os.Kheap.Summary.{kheap_get_stats_lem}

abbrev empty_heap : Heap
empty_heap = kheap_init 4096 4096

empty_heap-IsHeap : IsHeap 4096 empty_heap
empty_heap-IsHeap = IsHeap-kheap_init 4096 4096 (omega arith) refl (omega arith) (omega arith)

-- Two blocks in use, and the rest.
abbrev busy : Heap
busy = record {
  blocks =
      record { addr = 4096; size = 104; free = false }
      ∷ record { addr = 4224; size = 8; free = false }
      ∷ record { addr = 4256; size = 3912; free = true }
      ∷ [];
  limit = 8192;
}

busy-IsHeap : IsHeap 4096 busy
busy-IsHeap = record {
  tiled = (refl, (refl, (refl, refl)));
  coalesced = refl;
  positive = omega arith;
  below = omega arith;
}

busy-kalloc : (kalloc 5 (kalloc 100 empty_heap).1).1 ≡ busy
unfolding kheap_init kalloc kalloc_scan split_block
busy-kalloc = refl

second_freed :
    kfree 4248 busy
    ≡ some (record {
      blocks =
          record { addr = 4096; size = 104; free = false }
          ∷ record { addr = 4224; size = 3944; free = true }
          ∷ [];
      limit = 8192;
    })
unfolding kfree mark_free coalesce coalesce_loop
second_freed = refl

stats_busy :
    kheap_get_stats busy
    ≡ record { total_bytes = 4024; used_bytes = 112; free_bytes = 3912; largest_free_bytes = 3912 }
unfolding kheap_get_stats stats_loop
stats_busy = refl

-- A size near the end of the address space wraps to 0, and is granted.
kalloc-wraps : (kalloc (2 ^ 64 - 1) empty_heap).0 ≡ 4120
unfolding kheap_init kalloc kalloc_scan split_block
kalloc-wraps = refl

kalloc_lem_example : Allocated 4096 100 empty_heap (kalloc 100 empty_heap)
kalloc_lem_example = kalloc_lem 4096 100 empty_heap empty_heap-IsHeap (omega arith)

kfree_lem_example :
    (r : Heap) × (kfree 4120 busy ≡ some r)
    × (used r.blocks ≡ (4248, 8) ∷ [])
    × (r.limit ≡ 8192)
    × IsHeap 4096 r
kfree_lem_example =
    kfree_lem 4096 busy [] (record { addr = 4096; size = 104; free = false })
      (record { addr = 4224; size = 8; free = false }
        ∷ record { addr = 4256; size = 3912; free = true }
        ∷ [])
      busy-IsHeap refl (omega arith)

busy-granted : (kalloc 40 busy).0 ≢ 0
unfolding kalloc kalloc_scan split_block
busy-granted e = absurd (ground (arith, e))

kfree-kalloc_example : kfree (kalloc 40 busy).0 (kalloc 40 busy).1 ≡ some busy
kfree-kalloc_example = kfree-kalloc 4096 40 busy busy-IsHeap (omega arith) busy-granted

kheap_get_stats_example :
    ((kheap_get_stats busy).total_bytes
      ≡ (kheap_get_stats busy).used_bytes + (kheap_get_stats busy).free_bytes)
    × ((kheap_get_stats busy).used_bytes ≡ 112)
    × (4096 + (kheap_get_stats busy).total_bytes + block_size * length busy.blocks ≡ 8192)
    × ((kheap_get_stats busy).largest_free_bytes ≤ (kheap_get_stats busy).free_bytes)
    × (((kalloc 4000 busy).0 == 0) ≡ ltb (kheap_get_stats busy).largest_free_bytes (align8 4000))
kheap_get_stats_example = kheap_get_stats_lem 4096 4000 busy busy-IsHeap (omega arith) (omega arith)

Separated-Reached_example :
    Separated 4096 (used (kalloc 5 (kalloc 100 empty_heap).1).1.blocks) 8192
    × (apart false (kalloc 5 (kalloc 100 empty_heap).1).1.blocks ≡ true)
Separated-Reached_example =
    Separated-Reached 4096 4096 (kalloc 5 (kalloc 100 empty_heap).1).1 (omega arith) refl
      (omega arith) (omega arith)
      (allocated 5 (kalloc 100 empty_heap).1 (allocated 100 empty_heap initial (omega arith))
        (omega arith))
