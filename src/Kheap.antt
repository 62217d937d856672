-- ===== src/Kheap.antt =====
-- kernel/mm/kheap.c on a 64-bit machine. A block_t is a record with the address that it lies at, and
-- the chain that `heap_head` begins and `next` goes on is the list of them; an empty list is a null
-- head. A block's payload stands right behind it.
pub mod Chain
pub mod Alloc
pub mod Free
pub mod Round
pub mod Runs
pub mod Summary
mod Tests
use mathlib.Core.Option
use hydrogen_os.Prelude.{
  ℕ, zero, suc, ◌+◌, ◌-◌, ◌*◌, ◌/◌, ◌%◌, ◌^◌, Bool, true, false, ◌&&◌, ◌||◌, ltb, leb, ◌==◌,
  if◌then◌else◌, Option, none, some, List, [], ◌∷◌, ◌++◌,
}

pub record Block : Type 0 where
  pub addr : ℕ
  pub size : ℕ
  pub free : Bool

pub record Heap : Type 0 where
  pub blocks : List Block
  pub limit : ℕ

pub record Stats : Type 0 where
  pub total_bytes : ℕ
  pub used_bytes : ℕ
  pub free_bytes : ℕ
  pub largest_free_bytes : ℕ

-- The size of a size_t, a byte with padding, and a pointer.
abbrev pub block_size : ℕ
block_size = 24

abbrev pub align8 : ℕ → ℕ
align8 x = (x + 7) % 2 ^ 64 / 8 * 8

unfoldable pub kheap_init : ℕ → ℕ → Heap
kheap_init start_phys size_bytes =
    let start = align8 start_phys in
    record {
      blocks =
          record { addr = start; size = (size_bytes + (2 ^ 64 - block_size)) % 2 ^ 64; free = true }
          ∷ [];
      limit = (start + size_bytes) % 2 ^ 64;
    }

-- What `split_block` makes of a block: itself, or itself and the new block behind it.
unfoldable pub split_block : Block → ℕ → List Block
split_block blk size =
    if leb blk.size ((size + block_size + 8) % 2 ^ 64)
    then blk ∷ []
    else record blk { size = size }
      ∷ record {
        addr = (blk.addr + block_size + size) % 2 ^ 64;
        size = (blk.size + (2 ^ 64 - size) + (2 ^ 64 - block_size)) % 2 ^ 64;
        free = true;
      }
      ∷ []

-- `cur->free = 0`
abbrev pub occupy : List Block → List Block
occupy [] = []
occupy (b ∷ bs) = record b { free = false } ∷ bs

abbrev pub fits : ℕ → Block → Bool
fits size b = b.free && leb size b.size

-- The loop of `kalloc`.
unfoldable pub kalloc_scan : ℕ → List Block → ℕ × List Block
kalloc_scan size [] = (0, [])
kalloc_scan size (cur ∷ next) =
    let rest = kalloc_scan size next in
    if fits size cur
    then ((cur.addr + block_size) % 2 ^ 64, occupy (split_block cur size) ++ next)
    else (rest.0, cur ∷ rest.1)

abbrev pub no_blocks : List Block → Bool
no_blocks [] = true
no_blocks (b ∷ bs) = false

unfoldable pub kalloc : ℕ → Heap → ℕ × Heap
kalloc size h =
    let r = kalloc_scan (align8 size) h.blocks in
    if (size == 0) || no_blocks h.blocks then (0, h) else (r.0, record h { blocks = r.1 })

abbrev pub merge : Block → Block → Block
merge cur next = record cur { size = (cur.size + (block_size + next.size)) % 2 ^ 64 }

-- The loop of `coalesce` from a block on.
unfoldable pub coalesce_loop : Block → List Block → List Block
coalesce_loop cur [] = cur ∷ []
coalesce_loop cur (next ∷ bs) = elim (cur.free && next.free) [
  | true ↦ coalesce_loop (merge cur next) bs
  | false ↦ cur ∷ coalesce_loop next bs
]

unfoldable pub coalesce : List Block → List Block
coalesce [] = []
coalesce (b ∷ bs) = coalesce_loop b bs

-- `blk->free = 1` for the block at an address; none where no block lies, as the write then changes
-- memory that is not the heap's.
unfoldable pub mark_free : ℕ → List Block → Option (List Block)
mark_free addr [] = none
mark_free addr (b ∷ bs) =
    let rest = mark_free addr bs in
    if b.addr == addr then some (record b { free = true } ∷ bs) else Option.map (λ t. b ∷ t) rest

abbrev pub head_addr : List Block → ℕ
head_addr [] = 0
head_addr (b ∷ bs) = b.addr

unfoldable pub kfree : ℕ → Heap → Option Heap
kfree ptr h =
    if (ptr == 0) || (ltb ptr (head_addr h.blocks) || leb h.limit ptr)
    then some h
    else Option.map (λ t. record h { blocks = coalesce t })
        (mark_free ((ptr + (2 ^ 64 - block_size)) % 2 ^ 64) h.blocks)

-- The loop of `kheap_get_stats`.
pub stats_loop : Stats → List Block → Stats
stats_loop s [] = s
stats_loop s (cur ∷ next) =
    let counted = record s { total_bytes = (s.total_bytes + cur.size) % 2 ^ 64 } in
    stats_loop
      (if cur.free
        then record counted {
          free_bytes = (s.free_bytes + cur.size) % 2 ^ 64;
          largest_free_bytes =
              if ltb s.largest_free_bytes cur.size then cur.size else s.largest_free_bytes;
        }
        else record counted { used_bytes = (s.used_bytes + cur.size) % 2 ^ 64 })
      next

pub kheap_get_stats : Heap → Stats
kheap_get_stats h =
    stats_loop (record { total_bytes = 0; used_bytes = 0; free_bytes = 0; largest_free_bytes = 0 })
      h.blocks
