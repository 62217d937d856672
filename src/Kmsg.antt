-- ===== src/Kmsg.antt =====
-- kernel/core/kmsg.c, the ring of the kernel's log. A mask by one less than the capacity, a power of
-- two, is the remainder by the capacity. The text that is copied is a list without its terminator.
pub mod Log
pub mod Tail
mod Tests
use hydrogen_os.Prelude.{
  ℕ, zero, suc, ◌+◌, ◌-◌, ◌%◌, ◌^◌, Bool, true, false, ◌&&◌, ◌||◌, not, ltb, leb, ◌==◌,
  if◌then◌else◌, Option, none, some, List, [], ◌∷◌,
}

abbrev pub kmsg_capacity : ℕ
kmsg_capacity = 8192

pub record Kmsg : Type 0 where
  pub ring : ℕ → ℕ
  pub total : ℕ

abbrev pub cleared : Kmsg
cleared = record { ring = λ i. 0; total = 0 }

pub kmsg_push : ℕ → Kmsg → Kmsg
kmsg_push c k = record {
  ring = λ i. if i == k.total % kmsg_capacity then c else k.ring i;
  total = (k.total + 1) % 2 ^ 64;
}

abbrev pub oldest : Kmsg → ℕ
oldest k = k.total - kmsg_capacity

-- The walk back from the end, with the number of characters that are left before the start.
pub walk_back : ℕ → Kmsg → ℕ → ℕ → ℕ → ℕ → ℕ → ℕ
walk_back zero k cap max_lines start lines bytes = start
walk_back (suc n) k cap max_lines start lines bytes =
    let c = k.ring ((start - 1) % kmsg_capacity) in
    let ends = (c == b'\n') && not (start == k.total) in
    let lines1 = if ends then (lines + 1) % 2 ^ 32 else lines in
    let bytes1 = if c == b'\r' then bytes else bytes + 1 in
    let rest = walk_back n k cap max_lines (start - 1) lines1 bytes1 in
    if (ends && (lines1 == max_lines)) || leb (cap - 1) bytes1 then start else rest

-- A character that the copy shows.
abbrev pub shown : ℕ → ℕ
shown c = if not (c == b'\n') && (not (c == b'\t') && (ltb c 32 || ltb 126 c)) then b'?' else c

-- The copy from a position on, with the number of characters left and the length so far.
pub copy_loop : ℕ → Kmsg → ℕ → ℕ → ℕ → List ℕ
copy_loop zero k cap pos length = []
copy_loop (suc n) k cap pos length =
    let c = k.ring (pos % kmsg_capacity) in
    let rest = copy_loop n k cap (pos + 1) (if c == b'\r' then length else length + 1) in
    if ltb length (cap - 1) then if c == b'\r' then rest else shown c ∷ rest else []

-- The text in a buffer of `cap` bytes; none where the buffer has no room and stays as it is.
pub kmsg_copy_tail : ℕ → ℕ → Kmsg → Option (List ℕ)
kmsg_copy_tail cap max_lines k =
    let start = walk_back (k.total - oldest k) k cap max_lines k.total 0 0 in
    if cap == 0 then none else some (copy_loop (k.total - start) k cap start 0)
