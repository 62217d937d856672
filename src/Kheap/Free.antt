-- ===== src/Kheap/Free.antt =====
-- kernel/mm/kheap.c, kfree and coalesce.
use hydrogen_os.Prelude.{
  ℕ, ◌+◌, ◌-◌, ◌%◌, ◌^◌, ◌≤◌, ◌<◌, ◌≡◌, ◌∙◌, refl, sym, subst, ap, Bool, true, false, ◌&&◌, ◌||◌,
  ltb, leb, ◌==◌, some, List, [], ◌∷◌, ◌++◌, arith,
}
use hydrogen_os.Kheap.{
  Block, Heap, block_size, coalesce_loop, coalesce, mark_free, head_addr, kfree,
}
use hydrogen_os.Kheap.Chain.{
  Tiled, apart, IsHeap, used, used-append, Tiled-coalesce_loop, apart-coalesce_loop,
  used-coalesce_loop,
}
use hydrogen_os.Kheap.Alloc.{Tiled-append, Tiled-bound}

pub Tiled-coalesce :
    (a : ℕ) (bs : List Block) (stop : ℕ)
    → stop ≤ 2 ^ 63
    → Tiled a bs stop
    → Tiled a (coalesce bs) stop
unfolding coalesce
Tiled-coalesce a [] stop h t = t
Tiled-coalesce a (b ∷ bs) stop h t = Tiled-coalesce_loop a b bs stop h t

pub apart-coalesce : (bs : List Block) → apart false (coalesce bs) ≡ true
unfolding coalesce
apart-coalesce [] = refl
apart-coalesce (b ∷ bs) = apart-coalesce_loop false b bs

used-coalesce : (bs : List Block) → used (coalesce bs) ≡ used bs
unfolding coalesce
used-coalesce [] = refl
used-coalesce (b ∷ bs) = used-coalesce_loop b bs

-- A block of the chain is found by its address.
mark_free-found :
    (a : ℕ) (before : List Block) (b : Block) (after : List Block) (stop : ℕ)
    → Tiled a (before ++ (b ∷ after)) stop
    → mark_free b.addr (before ++ (b ∷ after)) ≡ some (before ++ (record b { free = true } ∷ after))
unfolding mark_free
mark_free-found a [] b after stop t = let e : (b.addr == b.addr) ≡ true = ground arith in rw e refl
mark_free-found a (c ∷ before) b after stop (e, t) =
    let (lo, hi) = Tiled-bound (a + block_size + c.size) before b after stop t in
    let other : (c.addr == b.addr) ≡ false = ground (arith, lo, e) in
    rw (other, mark_free-found (a + block_size + c.size) before b after stop t) refl

head_addr-le :
    (a : ℕ) (before : List Block) (b : Block) (after : List Block) (stop : ℕ)
    → Tiled a (before ++ (b ∷ after)) stop
    → head_addr (before ++ (b ∷ after)) ≤ b.addr
head_addr-le a [] b after stop t = omega arith
head_addr-le a (c ∷ before) b after stop (e, t) =
    let (lo, hi) = Tiled-bound (a + block_size + c.size) before b after stop t in
    omega (arith, lo, e)

pub kfree-block :
    (a : ℕ) (before : List Block) (b : Block) (after : List Block) (stop : ℕ)
    → Tiled a (before ++ (b ∷ after)) stop
    → stop ≤ 2 ^ 63
    → 0 < b.size
    → kfree (b.addr + block_size) (record { blocks = before ++ (b ∷ after); limit = stop })
      ≡ some (record {
        blocks = coalesce (before ++ (record b { free = true } ∷ after));
        limit = stop;
      })
unfolding kfree
kfree-block a before b after stop t h n =
    let (lo, hi) = Tiled-bound a before b after stop t in
    let head = head_addr-le a before b after stop t in
    let valid : ((b.addr + block_size == 0)
          || (ltb (b.addr + block_size) (head_addr (before ++ (b ∷ after)))
              || leb stop (b.addr + block_size)))
        ≡ false =
      ground (arith, hi, head, n) in
    let header : (b.addr + block_size + (2 ^ 64 - block_size)) % 2 ^ 64 ≡ b.addr =
      omega (arith, hi, h) in
    rw (valid, header, mark_free-found a before b after stop t) refl

Tiled-freed :
    (a : ℕ) (before : List Block) (b : Block) (after : List Block) (stop : ℕ)
    → Tiled a (before ++ (b ∷ after)) stop
    → Tiled a (before ++ (record b { free = true } ∷ after)) stop
Tiled-freed a before b after stop t =
    Tiled-append a before (b ∷ after) (record b { free = true } ∷ after) stop (λ m s. s) t

-- `kfree` of the payload of any block with at least one byte, on a heap that is in order: this payload
-- is in use no more, all others in use stay as they are, and the heap is in order with the block
-- joined to its free neighbours.
pub kfree_lem :
    (start : ℕ) (h : Heap) (before : List Block) (b : Block) (after : List Block)
    → IsHeap start h
    → h.blocks ≡ before ++ (b ∷ after)
    → 0 < b.size
    → (r : Heap) × (kfree (b.addr + block_size) h ≡ some r)
      × (used r.blocks ≡ used before ++ used after)
      × (r.limit ≡ h.limit)
      × IsHeap start r
kfree_lem start h before b after w split n =
    let t = subst (λ x. Tiled start x h.limit) split w.tiled in
    let freed = before ++ (record b { free = true } ∷ after) in
    (
      record { blocks = coalesce freed; limit = h.limit },
      subst
          (λ x.
            kfree (b.addr + block_size) (record { blocks = x; limit = h.limit })
            ≡ some (record { blocks = coalesce freed; limit = h.limit }))
          (sym split) (kfree-block start before b after h.limit t w.below n),
      used-coalesce freed ∙ used-append before (record b { free = true } ∷ after),
      refl,
      record {
        tiled =
            Tiled-coalesce start freed h.limit w.below (Tiled-freed start before b after h.limit t);
        coalesced = apart-coalesce freed;
        positive = w.positive;
        below = w.below;
      },
    )

abbrev head_free : List Block → Bool
head_free [] = false
head_free (b ∷ bs) = b.free

head_free-append :
    (before : List Block) (b c : Block) (bs cs : List Block)
    → b.free ≡ c.free
    → head_free (before ++ (b ∷ bs)) ≡ head_free (before ++ (c ∷ cs))
head_free-append [] b c bs cs e = e
head_free-append (d ∷ before) b c bs cs e = refl

apart-head_free : (p : Bool) (bs : List Block) → apart p bs ≡ true → (p && head_free bs) ≡ false
apart-head_free p [] h = ground arith
apart-head_free p (b ∷ bs) h = ground (arith, h)

coalesce-cons :
    (c : Block) (bs : List Block)
    → (c.free && head_free bs) ≡ false
    → coalesce (c ∷ bs) ≡ c ∷ coalesce bs
unfolding coalesce coalesce_loop
coalesce-cons c [] h = refl
coalesce-cons c (n ∷ bs) h = rw (coalesce_loop, h) refl

pub coalesce-apart : (p : Bool) (bs : List Block) → apart p bs ≡ true → coalesce bs ≡ bs
unfolding coalesce
coalesce-apart p [] h = refl
coalesce-apart p (b ∷ bs) h =
    let rest : apart b.free bs ≡ true = ground (arith, h) in
    coalesce-cons b bs (apart-head_free b.free bs rest)
    ∙ ap (λ t. b ∷ t) (coalesce-apart b.free bs rest)

pub coalesce-inside :
    (p : Bool) (before : List Block) (b c : Block) (bs cs : List Block)
    → c.free ≡ b.free
    → coalesce (c ∷ cs) ≡ b ∷ bs
    → apart p (before ++ (b ∷ bs)) ≡ true
    → coalesce (before ++ (c ∷ cs)) ≡ before ++ (b ∷ bs)
coalesce-inside p [] b c bs cs e f h = f
coalesce-inside p (d ∷ before) b c bs cs e f h =
    let rest : apart d.free (before ++ (b ∷ bs)) ≡ true = ground (arith, h) in
    let alone =
      ap (λ t. d.free && t) (head_free-append before c b cs bs e)
      ∙ apart-head_free d.free (before ++ (b ∷ bs)) rest in
    coalesce-cons d (before ++ (c ∷ cs)) alone
    ∙ ap (λ t. d ∷ t) (coalesce-inside d.free before b c bs cs e f rest)
