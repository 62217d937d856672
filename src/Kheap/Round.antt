-- ===== src/Kheap/Round.antt =====
-- kernel/mm/kheap.c: kfree takes back what kalloc did.
use hydrogen_os.Prelude.{
  ℕ, ◌+◌, ◌-◌, ◌%◌, ◌^◌, ◌≤◌, ◌<◌, ◌≡◌, ◌≢◌, ◌∙◌, inl, inr, refl, sym, subst, ap, Bool, true, false,
  ◌&&◌, ◌||◌, ◌==◌, some, List, [], ◌∷◌, ◌++◌, arith, Bool-cases,
}
use hydrogen_os.Kheap.{
  Block, Heap, block_size, align8, split_block, occupy, fits, kalloc_scan, no_blocks, kalloc, merge,
  coalesce_loop, coalesce, kfree,
}
use hydrogen_os.Kheap.Chain.{Tiled, apart, IsHeap}
use hydrogen_os.Kheap.Alloc.{
  rest_of, split_cases, Tiled-append, Tiled-bound, apart-used, Scanned-kalloc_scan,
  Carved-split_block,
}
use hydrogen_os.Kheap.Free.{coalesce-apart, coalesce-inside, kfree-block}

apart-behind :
    (p : Bool) (before bs : List Block) → apart p (before ++ bs) ≡ true → apart false bs ≡ true
apart-behind p [] bs h = apart-used p bs h
apart-behind p (c ∷ before) bs h = apart-behind c.free before bs (ground (arith, h))

same_block :
    (b : Block) (size : ℕ)
    → size ≡ b.size
    → b.free ≡ true
    → record b { size = size; free = true } ≡ b
same_block b size e f =
    ap (λ t. record b { size = t; free = true }) e ∙ ap (λ t. record b { free = t }) (sym f)

coalesce-merge :
    (c n : Block) (bs : List Block)
    → (c.free && n.free) ≡ true
    → coalesce (c ∷ n ∷ bs) ≡ coalesce (merge c n ∷ bs)
unfolding coalesce coalesce_loop
coalesce-merge c n bs h = rw (coalesce_loop, h) refl

-- A block that is cut and marked, and then freed, joins with what was left of it.
coalesce-rest_of :
    (b : Block) (size : ℕ) (after : List Block)
    → b.addr + block_size + b.size ≤ 2 ^ 63
    → size + 32 < b.size
    → b.free ≡ true
    → apart false (b ∷ after) ≡ true
    → coalesce (record b { size = size; free = true } ∷ rest_of b size ∷ after) ≡ b ∷ after
coalesce-rest_of b size after h l f g =
    let whole : (size + (block_size + (b.size - size - block_size))) % 2 ^ 64 ≡ b.size =
      omega (arith, h, l) in
    coalesce-merge (record b { size = size; free = true }) (rest_of b size) after refl
    ∙ ap (λ t. coalesce (t ∷ after)) (same_block b _ whole f)
    ∙ coalesce-apart false (b ∷ after) g

kfree-carved :
    (start : ℕ) (before : List Block) (b : Block) (after : List Block) (stop size : ℕ)
    → Tiled start (before ++ (b ∷ after)) stop
    → apart false (before ++ (b ∷ after)) ≡ true
    → stop ≤ 2 ^ 63
    → 0 < size
    → fits size b ≡ true
    → kfree
        (b.addr + block_size)
        (record { blocks = before ++ (occupy (split_block b size) ++ after); limit = stop })
      ≡ some (record { blocks = before ++ (b ∷ after); limit = stop })
kfree-carved start before b after stop size t g h n f =
    let free : b.free ≡ true = ground (arith, f) in
    let large : size ≤ b.size = ground (arith, f) in
    let (lo, hi) = Tiled-bound start before b after stop t in
    let (k, klo, khi, uses, tiles, aparts) =
      Carved-split_block size b after stop (omega (arith, hi, h)) f in
    let carved =
      Tiled-append start before (b ∷ after) (occupy (split_block b size) ++ after) stop tiles t in
    elim (split_cases b size (omega (arith, hi, h)) large) [
      | inl (l, e) ↦
          let tiled = subst (λ x. Tiled start (before ++ (occupy x ++ after)) stop) e carved in
          let freed =
            kfree-block start before (record b { free = false }) after stop tiled h
              (omega (arith, large, n)) in
          let same : before ++ (record b { free = true } ∷ after) ≡ before ++ (b ∷ after) =
            ap (λ x. before ++ (x ∷ after)) (same_block b b.size refl free) in
          rw e (
            freed
            ∙ ap (λ x. some (record { blocks = coalesce x; limit = stop })) same
            ∙ ap (λ x. some (record { blocks = x; limit = stop }))
                (coalesce-apart false (before ++ (b ∷ after)) g))
      | inr (l, e) ↦
          let tiled = subst (λ x. Tiled start (before ++ (occupy x ++ after)) stop) e carved in
          let freed =
            kfree-block start before (record b { size = size; free = false })
              (rest_of b size ∷ after) stop tiled h n in
          let joined =
            coalesce-inside false before b (record b { size = size; free = true }) after
              (rest_of b size ∷ after) (sym free)
              (coalesce-rest_of b size after (omega (arith, hi, h)) l free
                (apart-behind false before (b ∷ after) g))
              g in
          rw e (freed ∙ ap (λ x. some (record { blocks = x; limit = stop })) joined)
    ]

-- On a heap that is in order, and for a size that does not wrap when it is rounded up, what `kalloc`
-- grants `kfree` takes back: the heap is then the same, block by block, as before both calls.
pub kfree-kalloc :
    (start size : ℕ) (h : Heap)
    → IsHeap start h
    → size + 7 < 2 ^ 64
    → (kalloc size h).0 ≢ 0
    → kfree (kalloc size h).0 (kalloc size h).1 ≡ some h
unfolding kalloc
kfree-kalloc start size h w l granted = elim (Bool-cases ((size == 0) || no_blocks h.blocks)) [
  | inl e ↦ absurd (granted (rw e refl))
  | inr e ↦ elim (Scanned-kalloc_scan (align8 size) h.blocks) [
    | inl (n, z, same) ↦ absurd (granted (rw e z))
    | inr (before, b, after, split, n, f, place, result) ↦
        let tiled = subst (λ t. Tiled start t h.limit) split w.tiled in
        let apt = subst (λ t. apart false t ≡ true) split w.coalesced in
        let (lo, hi) = Tiled-bound start before b after h.limit tiled in
        let addr : (kalloc_scan (align8 size) h.blocks).0 ≡ b.addr + block_size =
          place ∙ omega (arith, hi, w.below) in
        let some_size : 0 < align8 size = ground (arith, e, l) in
        let back =
          kfree-carved start before b after h.limit (align8 size) tiled apt w.below some_size f in
        rw (e, addr, result)
          (back ∙ ap (λ t. some (record { blocks = t; limit = h.limit })) (sym split))
  ]
]
