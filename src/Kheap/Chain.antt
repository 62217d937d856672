-- ===== src/Kheap/Chain.antt =====
-- kernel/mm/kheap.c: the chain of blocks covers the heap without a gap, and no two blocks side by
-- side are free.
use hydrogen_os.Prelude.{
  ℕ, ◌+◌, ◌%◌, ◌^◌, ◌≤◌, ◌<◌, ◌≡◌, refl, sym, subst, ap, Bool, true, false, not, ◌&&◌,
  if◌then◌else◌, List, [], ◌∷◌, ◌++◌, arith, Bool-cases, inl, inr,
}
use hydrogen_os.Kheap.{Block, Heap, block_size, merge, coalesce_loop}

-- The blocks lie one behind the other from the first address up to the second.
abbrev pub Tiled : ℕ → List Block → ℕ → Type 0
Tiled a [] stop = a ≡ stop
Tiled a (b ∷ bs) stop = (b.addr ≡ a) × Tiled (a + block_size + b.size) bs stop

-- No two neighbours are free, where the block before the first is free or not.
abbrev pub apart : Bool → List Block → Bool
apart p [] = true
apart p (b ∷ bs) = not (p && b.free) && apart b.free bs

pub record IsHeap (start : ℕ) (h : Heap) : Type 0 where
  pub tiled : Tiled start h.blocks h.limit
  pub coalesced : apart false h.blocks ≡ true
  pub positive : 0 < start
  pub below : h.limit ≤ 2 ^ 63

-- The payloads in use, each with its address and its size.
abbrev pub used : List Block → List (ℕ × ℕ)
used [] = []
used (b ∷ bs) = if b.free then used bs else (b.addr + block_size, b.size) ∷ used bs

-- Payloads that do not overlap, in order, with room for a header before each.
abbrev pub Separated : ℕ → List (ℕ × ℕ) → ℕ → Type 0
Separated a [] stop = a ≤ stop
Separated a ((p, n) ∷ es) stop = (a + block_size ≤ p) × Separated (p + n) es stop

pub Tiled-le : (a : ℕ) (bs : List Block) (stop : ℕ) → Tiled a bs stop → a ≤ stop
Tiled-le a [] stop t = omega (arith, t)
Tiled-le a (b ∷ bs) stop (e, t) = omega (arith, Tiled-le (a + block_size + b.size) bs stop t)

Separated-lower :
    (a c : ℕ) (es : List (ℕ × ℕ)) (stop : ℕ) → c ≤ a → Separated a es stop → Separated c es stop
Separated-lower a c [] stop h s = omega (arith, h, s)
Separated-lower a c ((p, n) ∷ es) stop h (l, s) = (omega (arith, h, l), s)

pub Separated-used :
    (a : ℕ) (bs : List Block) (stop : ℕ) → Tiled a bs stop → Separated a (used bs) stop
Separated-used a [] stop t = omega (arith, t)
Separated-used a (b ∷ bs) stop (e, t) =
    let rest = Separated-used (a + block_size + b.size) bs stop t in
    elim (Bool-cases b.free) [
      | inl f ↦ rw f (Separated-lower (a + block_size + b.size) a (used bs) stop (omega arith) rest)
      | inr f ↦ rw (f, e) (omega arith, rest)
    ]

pub used-append : (bs cs : List Block) → used (bs ++ cs) ≡ used bs ++ used cs
used-append [] cs = refl
used-append (b ∷ bs) cs = elim (Bool-cases b.free) [
  | inl f ↦ rw f (used-append bs cs)
  | inr f ↦ rw f (ap (λ t. (b.addr + block_size, b.size) ∷ t) (used-append bs cs))
]

pub Tiled-coalesce_loop :
    (a : ℕ) (c : Block) (bs : List Block) (stop : ℕ)
    → stop ≤ 2 ^ 63
    → Tiled a (c ∷ bs) stop
    → Tiled a (coalesce_loop c bs) stop
unfolding coalesce_loop
Tiled-coalesce_loop a c [] stop h t = t
Tiled-coalesce_loop a c (n ∷ bs) stop h (e, (f, t)) =
    let bound = Tiled-le (a + block_size + c.size + block_size + n.size) bs stop t in
    let size : (c.size + (block_size + n.size)) % 2 ^ 64 ≡ c.size + (block_size + n.size) =
      omega (arith, bound, h) in
    let place : a + block_size + c.size + block_size + n.size
        ≡ a + block_size + (c.size + (block_size + n.size)) =
      omega arith in
    elim (Bool-cases (c.free && n.free)) [
      | inl g ↦
          rw (coalesce_loop, g)
            (Tiled-coalesce_loop a (merge c n) bs stop h (
              e,
              subst (λ x. Tiled (a + block_size + x) bs stop) (sym size)
                  (subst (λ x. Tiled x bs stop) place t),
            ))
      | inr g ↦
          rw (coalesce_loop, g)
            (e, Tiled-coalesce_loop (a + block_size + c.size) n bs stop h (f, t))
    ]

pub apart-coalesce_loop :
    (p : Bool) (c : Block) (bs : List Block) → apart p (coalesce_loop c bs) ≡ not (p && c.free)
unfolding coalesce_loop
apart-coalesce_loop p c [] = ground arith
apart-coalesce_loop p c (n ∷ bs) = elim (Bool-cases (c.free && n.free)) [
  | inl g ↦ rw (coalesce_loop, g) (apart-coalesce_loop p (merge c n) bs)
  | inr g ↦ rw (coalesce_loop, g) (ground (arith, g, apart-coalesce_loop c.free n bs))
]

pub used-coalesce_loop : (c : Block) (bs : List Block) → used (coalesce_loop c bs) ≡ used (c ∷ bs)
unfolding coalesce_loop
used-coalesce_loop c [] = refl
used-coalesce_loop c (n ∷ bs) = elim (Bool-cases (c.free && n.free)) [
  | inl g ↦
      let cf : c.free ≡ true = ground (arith, g) in
      let nf : n.free ≡ true = ground (arith, g) in
      let whole = used-coalesce_loop (merge c n) bs in rw (coalesce_loop, g, whole, cf, nf) refl
  | inr g ↦ rw (coalesce_loop, g, used-coalesce_loop n bs) refl
]
