-- ===== src/Kheap/Runs.antt =====
-- kernel/mm/kheap.c: what holds after any sequence of calls.
use mathlib.Core.Option
use hydrogen_os.Prelude.{
  ℕ, ◌+◌, ◌-◌, ◌%◌, ◌^◌, ◌≤◌, ◌<◌, ◌≡◌, ◌∙◌, inl, inr, refl, sym, subst, true, false, ◌||◌, ltb,
  leb, ◌==◌, Option, none, some, List, [], ◌∷◌, arith, Bool-cases,
}
use hydrogen_os.Kheap.{
  Block, Heap, block_size, kheap_init, kalloc, coalesce, mark_free, head_addr, kfree,
}
use hydrogen_os.Kheap.Chain.{Tiled, apart, IsHeap, used, Separated, Separated-used}
use hydrogen_os.Kheap.Alloc.{kalloc_lem}
use hydrogen_os.Kheap.Free.{Tiled-coalesce, apart-coalesce}

-- The heaps that calls reach from `kheap_init` over a region of memory. Any pointer may be freed that
-- `kfree` ignores or that stands behind a block of the chain.
pub data Reached (start size : ℕ) : Heap → Type 0 where
  initial : Reached start size (kheap_init start size)
  allocated :
      (n : ℕ) (h : Heap) → Reached start size h → n + 7 < 2 ^ 64 → Reached start size (kalloc n h).1
  freed : (p : ℕ) (h r : Heap) → Reached start size h → kfree p h ≡ some r → Reached start size r

pub IsHeap-kheap_init :
    (start size : ℕ)
    → 0 < start
    → start % 8 ≡ 0
    → block_size ≤ size
    → start + size ≤ 2 ^ 63
    → IsHeap start (kheap_init start size)
unfolding kheap_init
IsHeap-kheap_init start size p a n h = record {
  tiled = (omega (arith, a, h), omega (arith, n, a, h));
  coalesced = refl;
  positive = p;
  below = omega (arith, a, h);
}

-- A property of the result, where there is one.
OnSome : {A : Type 0} → (A → Type 0) → Option A → Type 0
OnSome P none = true ≡ true
OnSome P (some x) = P x

OnSome-map :
    {A B : Type 0} (P : A → Type 0) (Q : B → Type 0) (f : A → B) (o : Option A)
    → ((x : A) → P x → Q (f x))
    → OnSome P o
    → OnSome Q (Option.map f o)
unfolding OnSome
OnSome-map P Q f none step t = refl
OnSome-map P Q f (some x) step t = step x t

Tiled-mark_free :
    (a addr : ℕ) (bs : List Block) (stop : ℕ)
    → Tiled a bs stop
    → OnSome (λ cs. Tiled a cs stop) (mark_free addr bs)
unfolding mark_free OnSome
Tiled-mark_free a addr [] stop t = refl
Tiled-mark_free a addr (b ∷ bs) stop (g, t) = elim (Bool-cases (b.addr == addr)) [
  | inl f ↦ rw f (g, t)
  | inr f ↦ rw f (
      OnSome-map (λ cs. Tiled (a + block_size + b.size) cs stop) (λ cs. Tiled a cs stop)
        (λ cs. b ∷ cs) (mark_free addr bs) (λ cs u. (g, u))
        (Tiled-mark_free (a + block_size + b.size) addr bs stop t))
]

-- A heap over the memory between two addresses.
Between : ℕ → ℕ → Heap → Type 0
Between start stop h = IsHeap start h × (h.limit ≡ stop)

Between-kfree :
    (start stop p : ℕ) (h : Heap) → Between start stop h → OnSome (Between start stop) (kfree p h)
unfolding kfree OnSome Between
Between-kfree start stop p h (w, same) =
    elim (Bool-cases ((p == 0) || (ltb p (head_addr h.blocks) || leb h.limit p))) [
      | inl e ↦ rw e (w, same)
      | inr e ↦ rw e (
          OnSome-map (λ bs. Tiled start bs h.limit) (Between start stop)
            (λ t. record h { blocks = coalesce t })
            (mark_free ((p + (2 ^ 64 - block_size)) % 2 ^ 64) h.blocks)
            (λ bs t. (
              record {
                tiled = Tiled-coalesce start bs h.limit w.below t;
                coalesced = apart-coalesce bs;
                positive = w.positive;
                below = w.below;
              },
              same,
            ))
            (Tiled-mark_free start ((p + (2 ^ 64 - block_size)) % 2 ^ 64) h.blocks h.limit w.tiled))
    ]

Between-kalloc :
    (start stop n : ℕ) (h : Heap)
    → Between start stop h
    → n + 7 < 2 ^ 64
    → Between start stop (kalloc n h).1
unfolding Between
Between-kalloc start stop n h (w, same) l = elim (kalloc_lem start n h w l) [
  | inl (e, why) ↦ subst (λ t. IsHeap start t.1 × (t.1.limit ≡ stop)) (sym e) (w, same)
  | inr (before, b, after, k, split, first, addr, some_addr, old, new, lo, hi, limit, whole) ↦
      (whole, limit ∙ same)
]

Between-kheap_init :
    (start size : ℕ)
    → 0 < start
    → start % 8 ≡ 0
    → block_size ≤ size
    → start + size ≤ 2 ^ 63
    → Between start (start + size) (kheap_init start size)
unfolding kheap_init Between
Between-kheap_init start size p a n h = (IsHeap-kheap_init start size p a n h, omega (arith, a, h))

Between-Reached :
    (start size : ℕ) (h : Heap)
    → Between start (start + size) (kheap_init start size)
    → Reached start size h
    → Between start (start + size) h
unfolding OnSome
Between-Reached start size h first initial = first
Between-Reached start size h first (allocated k g reached small) =
    Between-kalloc start (start + size) k g (Between-Reached start size g first reached) small
Between-Reached start size h first (freed q g r reached e) =
    subst (OnSome (Between start (start + size))) e
      (Between-kfree start (start + size) q g (Between-Reached start size g first reached))

-- After `kheap_init` over an aligned region, with room for a header and below 2^63, and any calls of
-- `kalloc` with sizes that do not wrap and of `kfree` with pointers that it ignores or that stand
-- behind a block: the payloads in use lie in the region one behind the other, each with room for its
-- header before it, and no two free blocks are neighbours.
pub Separated-Reached :
    (start size : ℕ) (h : Heap)
    → 0 < start
    → start % 8 ≡ 0
    → block_size ≤ size
    → start + size ≤ 2 ^ 63
    → Reached start size h
    → Separated start (used h.blocks) (start + size) × (apart false h.blocks ≡ true)
unfolding Between
Separated-Reached start size h p a n l reached =
    let (w, same) = Between-Reached start size h (Between-kheap_init start size p a n l) reached in
    (
      subst (Separated start (used h.blocks)) same (Separated-used start h.blocks h.limit w.tiled),
      w.coalesced,
    )
