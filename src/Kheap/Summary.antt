-- ===== src/Kheap/Summary.antt =====
-- kernel/mm/kheap.c, kheap_get_stats.
use hydrogen_os.Prelude.{
  ℕ, ◌+◌, ◌*◌, ◌%◌, ◌^◌, ◌≤◌, ◌<◌, ◌≡◌, inl, inr, refl, ◌||◌, ltb, leb, ◌==◌, if◌then◌else◌, List,
  [], ◌∷◌, length, arith, Bool-cases,
}
use hydrogen_os.Kheap.{Block, Heap, Stats, block_size, align8, kalloc, stats_loop, kheap_get_stats}
use hydrogen_os.Kheap.Chain.{Tiled, used, IsHeap, Tiled-le}
use hydrogen_os.Kheap.Alloc.{any_fits, kalloc-any_fits}

-- The bytes of payloads, each with its address and its size.
abbrev pub payload_bytes : List (ℕ × ℕ) → ℕ
payload_bytes [] = 0
payload_bytes ((p, n) ∷ es) = n + payload_bytes es

-- The numbers that the loop starts from.
record IsCount (s : Stats) : Type 0 where
  sum : s.total_bytes ≡ s.used_bytes + s.free_bytes
  largest : s.largest_free_bytes ≤ s.free_bytes

-- What the loop adds to them over blocks that lie between two addresses.
record Counts (a : ℕ) (bs : List Block) (stop : ℕ) (s r : Stats) : Type 0 where
  count : IsCount r
  total : a + r.total_bytes + block_size * length bs ≡ stop + s.total_bytes
  in_use : r.used_bytes ≡ s.used_bytes + payload_bytes (used bs)
  found :
      (size : ℕ)
      → leb size r.largest_free_bytes ≡ (leb size s.largest_free_bytes || any_fits size bs)

Counts-stats_loop :
    (a : ℕ) (bs : List Block) (stop : ℕ) (s : Stats)
    → stop + s.total_bytes < 2 ^ 64 + a
    → Tiled a bs stop
    → IsCount s
    → Counts a bs stop s (stats_loop s bs)
unfolding stats_loop
Counts-stats_loop a [] stop s h t c = record {
  count = c;
  total = omega (arith, t);
  in_use = omega arith;
  found = λ size. ground arith;
}
Counts-stats_loop a (b ∷ bs) stop s h (e, t) c =
    let bound = Tiled-le (a + block_size + b.size) bs stop t in
    let more : s.total_bytes + b.size < 2 ^ 64 = omega (arith, h, bound) in
    elim (Bool-cases b.free) [
      | inl f ↦
          let largest = if ltb s.largest_free_bytes b.size then b.size else s.largest_free_bytes in
          let next : Stats = record {
            total_bytes = s.total_bytes + b.size;
            used_bytes = s.used_bytes;
            free_bytes = s.free_bytes + b.size;
            largest_free_bytes = largest;
          } in
          let w1 : (s.total_bytes + b.size) % 2 ^ 64 ≡ s.total_bytes + b.size =
            omega (arith, more) in
          let w2 : (s.free_bytes + b.size) % 2 ^ 64 ≡ s.free_bytes + b.size =
            omega (arith, more, c.sum) in
          let count : IsCount next = record {
            sum = omega (arith, c.sum);
            largest = ground (arith, c.largest);
          } in
          let rest =
            Counts-stats_loop (a + block_size + b.size) bs stop next (omega (arith, h)) t count in
          rw (f, w1, w2)
            (record {
              count = rest.count;
              total = omega (arith, rest.total);
              in_use = rest.in_use;
              found = λ size. ground (arith, rest.found size, f);
            })
      | inr f ↦
          let next : Stats = record {
            total_bytes = s.total_bytes + b.size;
            used_bytes = s.used_bytes + b.size;
            free_bytes = s.free_bytes;
            largest_free_bytes = s.largest_free_bytes;
          } in
          let w1 : (s.total_bytes + b.size) % 2 ^ 64 ≡ s.total_bytes + b.size =
            omega (arith, more) in
          let w2 : (s.used_bytes + b.size) % 2 ^ 64 ≡ s.used_bytes + b.size =
            omega (arith, more, c.sum) in
          let count : IsCount next = record { sum = omega (arith, c.sum); largest = c.largest } in
          let rest =
            Counts-stats_loop (a + block_size + b.size) bs stop next (omega (arith, h)) t count in
          rw (f, w1, w2)
            (record {
              count = rest.count;
              total = omega (arith, rest.total);
              in_use = omega (arith, rest.in_use);
              found = λ size. ground (arith, rest.found size, f);
            })
    ]

-- `kheap_get_stats` on a heap that is in order: `used_bytes` is the sum of the payloads in use,
-- with the free bytes it makes up the total, the total and the headers make up the heap, and the largest free payload is no more than all
-- of them. For a size that is not 0 and does not wrap, `kalloc` gives null just when the rounded size
-- is above the largest free payload.
pub kheap_get_stats_lem :
    (start size : ℕ) (h : Heap)
    → IsHeap start h
    → 0 < size
    → size + 7 < 2 ^ 64
    → ((kheap_get_stats h).total_bytes
        ≡ (kheap_get_stats h).used_bytes + (kheap_get_stats h).free_bytes)
      × ((kheap_get_stats h).used_bytes ≡ payload_bytes (used h.blocks))
      × (start + (kheap_get_stats h).total_bytes + block_size * length h.blocks ≡ h.limit)
      × ((kheap_get_stats h).largest_free_bytes ≤ (kheap_get_stats h).free_bytes)
      × (((kalloc size h).0 == 0) ≡ ltb (kheap_get_stats h).largest_free_bytes (align8 size))
unfolding kheap_get_stats
kheap_get_stats_lem start size h w n l =
    let zeros : Stats = record {
      total_bytes = 0;
      used_bytes = 0;
      free_bytes = 0;
      largest_free_bytes = 0;
    } in
    let counts =
      Counts-stats_loop start h.blocks h.limit zeros (omega (arith, w.below)) w.tiled
        (record { sum = refl; largest = omega arith }) in
    let granted : ((kalloc size h).0 == 0)
        ≡ ltb (stats_loop zeros h.blocks).largest_free_bytes (align8 size) =
      ground (arith, kalloc-any_fits start size h w n, counts.found (align8 size), l, n) in
    (
      counts.count.sum,
      omega (arith, counts.in_use),
      omega (arith, counts.total),
      counts.count.largest,
      granted,
    )
