-- ===== src/Kheap/Alloc.antt =====
-- kernel/mm/kheap.c, kalloc and split_block.
use hydrogen_os.Prelude.{
  ℕ, ◌+◌, ◌-◌, ◌%◌, ◌^◌, ◌≤◌, ◌<◌, ◌≡◌, ◌∙◌, ◌⊎◌, inl, inr, refl, sym, subst, ap, Bool, true, false,
  not, ◌||◌, leb, ◌==◌, List, [], ◌∷◌, ◌++◌, arith, Bool-cases,
}
use hydrogen_os.Kheap.{
  Block, Heap, block_size, align8, split_block, occupy, fits, kalloc_scan, no_blocks, kalloc,
}
use hydrogen_os.Kheap.Chain.{Tiled, apart, IsHeap, used, Tiled-le, used-append}

-- Some block is free and large enough.
abbrev pub any_fits : ℕ → List Block → Bool
any_fits size [] = false
any_fits size (b ∷ bs) = fits size b || any_fits size bs

-- The block behind one that is cut to a size.
abbrev pub rest_of : Block → ℕ → Block
rest_of b size = record {
  addr = b.addr + block_size + size;
  size = b.size - size - block_size;
  free = true;
}

pub split_cases :
    (b : Block) (size : ℕ)
    → b.addr + block_size + b.size ≤ 2 ^ 63
    → size ≤ b.size
    → ((b.size ≤ size + 32) × (split_block b size ≡ b ∷ []))
      ⊎ ((size + 32 < b.size)
          × (split_block b size ≡ record b { size = size } ∷ rest_of b size ∷ []))
unfolding split_block
split_cases b size h l = elim (Bool-cases (leb b.size ((size + block_size + 8) % 2 ^ 64))) [
  | inl e ↦ inl (ground (arith, e, h, l), rw e refl)
  | inr e ↦
      let more : size + 32 < b.size = ground (arith, e, h, l) in
      let place : (b.addr + block_size + size) % 2 ^ 64 ≡ b.addr + block_size + size =
        omega (arith, h, l) in
      let left : (b.size + (2 ^ 64 - size) + (2 ^ 64 - block_size)) % 2 ^ 64
          ≡ b.size - size - block_size =
        omega (arith, h, l, more) in
      inr (more, rw (e, place, left) refl)
]

pub apart-used : (p : Bool) (bs : List Block) → apart p bs ≡ true → apart false bs ≡ true
apart-used p [] h = refl
apart-used p (b ∷ bs) h = ground (arith, h)

apart-append :
    (p : Bool) (before : List Block) (b : Block) (bs cs : List Block)
    → ((q : Bool) → apart q (b ∷ bs) ≡ true → apart q cs ≡ true)
    → apart p (before ++ (b ∷ bs)) ≡ true
    → apart p (before ++ cs) ≡ true
apart-append p [] b bs cs f h = f p h
apart-append p (c ∷ before) b bs cs f h =
    ground (arith, h, apart-append c.free before b bs cs f (ground (arith, h)))

pub Tiled-append :
    (a : ℕ) (before bs cs : List Block) (stop : ℕ)
    → ((m : ℕ) → Tiled m bs stop → Tiled m cs stop)
    → Tiled a (before ++ bs) stop
    → Tiled a (before ++ cs) stop
Tiled-append a [] bs cs stop f t = f a t
Tiled-append a (b ∷ before) bs cs stop f (e, t) =
    (e, Tiled-append (a + block_size + b.size) before bs cs stop f t)

-- Where the chain has been tiled up to a block, the block ends below the end of the heap.
pub Tiled-bound :
    (a : ℕ) (before : List Block) (b : Block) (bs : List Block) (stop : ℕ)
    → Tiled a (before ++ (b ∷ bs)) stop
    → (a ≤ b.addr) × (b.addr + block_size + b.size ≤ stop)
Tiled-bound a [] b bs stop (e, t) =
    (omega (arith, e), omega (arith, e, Tiled-le (a + block_size + b.size) bs stop t))
Tiled-bound a (c ∷ before) b bs stop (e, t) =
    let (lo, hi) = Tiled-bound (a + block_size + c.size) before b bs stop t in
    (omega (arith, lo), hi)

-- What the loop of `kalloc` finds: the first block that fits, which it cuts and marks.
abbrev pub Scanned : ℕ → List Block → ℕ × List Block → Type 0
Scanned size bs r =
    ((any_fits size bs ≡ false) × (r.0 ≡ 0) × (r.1 ≡ bs))
    ⊎ ((before : List Block) × (b : Block) × (after : List Block) × (bs ≡ before ++ (b ∷ after))
        × (any_fits size before ≡ false)
        × (fits size b ≡ true)
        × (r.0 ≡ (b.addr + block_size) % 2 ^ 64)
        × (r.1 ≡ before ++ (occupy (split_block b size) ++ after)))

pub Scanned-kalloc_scan : (size : ℕ) (bs : List Block) → Scanned size bs (kalloc_scan size bs)
unfolding kalloc_scan
Scanned-kalloc_scan size [] = inl (refl, refl, refl)
Scanned-kalloc_scan size (b ∷ bs) = elim (Bool-cases (fits size b)) [
  | inl e ↦ rw e (inr ([], b, bs, refl, refl, e, refl, refl))
  | inr e ↦ elim (Scanned-kalloc_scan size bs) [
    | inl (n, z, same) ↦ rw e (inl (n, z, ap (λ t. b ∷ t) same))
    | inr (before, c, after, split, n, f, place, result) ↦ rw e (
        inr (b ∷ before, c, after, ap (λ t. b ∷ t) split, rw e n, f, place, ap (λ t. b ∷ t) result))
  ]
]

-- The block that is handed out, and what stays of it, in place of the block that was found.
abbrev pub Carved : ℕ → Block → List Block → ℕ → List Block → Type 0
Carved size b after stop cs =
    (n : ℕ) × (size ≤ n)
    × (n ≤ size + 32)
    × (used cs ≡ (b.addr + block_size, n) ∷ used after)
    × ((m : ℕ) → Tiled m (b ∷ after) stop → Tiled m cs stop)
    × ((q : Bool) → apart q (b ∷ after) ≡ true → apart q cs ≡ true)

pub Carved-split_block :
    (size : ℕ) (b : Block) (after : List Block) (stop : ℕ)
    → b.addr + block_size + b.size ≤ 2 ^ 63
    → fits size b ≡ true
    → Carved size b after stop (occupy (split_block b size) ++ after)
Carved-split_block size b after stop h f =
    let free : b.free ≡ true = ground (arith, f) in
    let large : size ≤ b.size = ground (arith, f) in
    elim (split_cases b size h large) [
      | inl (l, e) ↦ rw e (
        b.size,
        large,
        l,
        refl,
        λ m t. t,
        λ q g. ground (arith, apart-used b.free after (ground (arith, g))),
      )
      | inr (l, e) ↦ rw e (
        size,
        omega arith,
        omega arith,
        refl,
        λ m (g, t). (g, (omega (arith, g), subst (λ x. Tiled x after stop) (omega (arith, l)) t)),
        λ q g. ground (arith, g, free),
      )
    ]

-- What `kalloc` gives.
abbrev pub Allocated : ℕ → ℕ → Heap → ℕ × Heap → Type 0
Allocated start size h r =
    ((r ≡ (0, h)) × ((size ≡ 0) ⊎ (any_fits (align8 size) h.blocks ≡ false)))
    ⊎ ((before : List Block) × (b : Block) × (after : List Block) × (n : ℕ) × (h.blocks
          ≡ before ++ (b ∷ after))
        × (any_fits (align8 size) before ≡ false)
        × (r.0 ≡ b.addr + block_size)
        × (0 < r.0)
        × (used h.blocks ≡ used before ++ used after)
        × (used r.1.blocks ≡ used before ++ ((r.0, n) ∷ used after))
        × (size ≤ n)
        × (n < size + 40)
        × (r.1.limit ≡ h.limit)
        × IsHeap start r.1)

refused :
    (size : ℕ) (bs : List Block)
    → ((size == 0) || no_blocks bs) ≡ true
    → (size ≡ 0) ⊎ (any_fits (align8 size) bs ≡ false)
refused size [] e = inr refl
refused size (b ∷ bs) e = inl (ground (arith, e))

pub used-free : (b : Block) (bs : List Block) → b.free ≡ true → used (b ∷ bs) ≡ used bs
used-free b bs f = rw f refl

-- `kalloc` on a heap that is in order, for a size that does not wrap when it is rounded up: it gives
-- null and changes nothing when the size is 0 or no block fits, or it gives the payload of the first
-- block that fits, at an address that is not null, of the size asked for and less than 40 bytes more.
-- The payloads in use are those before with the new one at its place, and the heap is in order.
pub kalloc_lem :
    (start size : ℕ) (h : Heap)
    → IsHeap start h
    → size + 7 < 2 ^ 64
    → Allocated start size h (kalloc size h)
unfolding kalloc
kalloc_lem start size h w l = elim (Bool-cases ((size == 0) || no_blocks h.blocks)) [
  | inl e ↦ rw e (inl (refl, refused size h.blocks e))
  | inr e ↦ elim (Scanned-kalloc_scan (align8 size) h.blocks) [
    | inl (n, z, same) ↦ rw e (
        inl (
          ap (λ t. (t, record h { blocks = (kalloc_scan (align8 size) h.blocks).1 })) z
              ∙ ap (λ t. (0, record h { blocks = t })) same,
          inr n,
        ))
    | inr (before, b, after, split, n, f, place, result) ↦
        let tiled = subst (λ t. Tiled start t h.limit) split w.tiled in
        let (lo, hi) = Tiled-bound start before b after h.limit tiled in
        let apt = subst (λ t. apart false t ≡ true) split w.coalesced in
        let free : b.free ≡ true = ground (arith, f) in
        let carved =
          Carved-split_block (align8 size) b after h.limit (omega (arith, hi, w.below)) f in
        let (k, klo, khi, uses, tiles, aparts) = carved in
        let old : used h.blocks ≡ used before ++ used after =
          ap used split
          ∙ used-append before (b ∷ after)
          ∙ ap (λ t. used before ++ t) (used-free b after free) in
        let addr : (kalloc_scan (align8 size) h.blocks).0 ≡ b.addr + block_size =
          place ∙ omega (arith, hi, w.below) in
        let new : IsHeap start (record h { blocks = (kalloc_scan (align8 size) h.blocks).1 }) =
          record {
            tiled =
                subst (λ t. Tiled start t h.limit) (sym result)
                  (Tiled-append start before (b ∷ after) _ h.limit tiles tiled);
            coalesced =
                subst (λ t. apart false t ≡ true) (sym result)
                  (apart-append false before b after _ aparts apt);
            positive = w.positive;
            below = w.below;
          } in
        rw e (
          inr (
            before,
            b,
            after,
            k,
            split,
            n,
            addr,
            omega (arith, addr),
            old,
            ap used result
                ∙ used-append before _
                ∙ ap (λ t. used before ++ t) uses
                ∙ ap (λ t. used before ++ ((t, k) ∷ used after)) (sym addr),
            omega (arith, klo, l),
            omega (arith, khi, l),
            refl,
            new,
          ))
  ]
]

any_fits-inside :
    (size : ℕ) (before : List Block) (b : Block) (after : List Block)
    → fits size b ≡ true
    → any_fits size (before ++ (b ∷ after)) ≡ true
any_fits-inside size [] b after f = ground (arith, f)
any_fits-inside size (c ∷ before) b after f = ground (arith, any_fits-inside size before b after f)

any_fits-empty : (size : ℕ) (bs : List Block) → no_blocks bs ≡ true → any_fits size bs ≡ false
any_fits-empty size [] e = refl
any_fits-empty size (b ∷ bs) e = absurd (ground (arith, e))

-- `kalloc` refuses a size just when no block fits.
pub kalloc-any_fits :
    (start size : ℕ) (h : Heap)
    → IsHeap start h
    → 0 < size
    → ((kalloc size h).0 == 0) ≡ not (any_fits (align8 size) h.blocks)
unfolding kalloc
kalloc-any_fits start size h w n = elim (Bool-cases ((size == 0) || no_blocks h.blocks)) [
  | inl e ↦ rw (e, any_fits-empty (align8 size) h.blocks (ground (arith, e, n))) (ground arith)
  | inr e ↦ elim (Scanned-kalloc_scan (align8 size) h.blocks) [
    | inl (x, z, same) ↦ rw (e, x, z) (ground arith)
    | inr (before, b, after, split, x, f, place, result) ↦
        let tiled = subst (λ t. Tiled start t h.limit) split w.tiled in
        let (lo, hi) = Tiled-bound start before b after h.limit tiled in
        let some_addr : ((b.addr + block_size) % 2 ^ 64 == 0) ≡ false =
          ground (arith, hi, w.below) in
        let inside =
          ap (any_fits (align8 size)) split ∙ any_fits-inside (align8 size) before b after f in
        rw (e, inside, place, some_addr) refl
  ]
]
