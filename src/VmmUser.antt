-- ===== src/VmmUser.antt =====
-- kernel/mm/vmm_user.c, the anonymous memory regions of a process: a list of regions sorted by
-- address with its length. The list's nodes are owned by it alone, so it is a list here, and a
-- pointer into it is a place where the list is split. What the code calls in the page tables, the
-- page allocator and the kernel heap is the interface `Machine`, on a state of its own.
pub mod View
pub mod Split
pub mod Place
pub mod Map
pub mod Enough
pub mod Unmap
pub mod Protect
mod Tests
use hydrogen_os.Prelude.{
  ℕ, zero, suc, ◌+◌, ◌-◌, ◌*◌, ◌/◌, ◌%◌, ◌^◌, Bool, true, false, ◌&&◌, ◌||◌, not, ltb, leb, ◌==◌,
  if◌then◌else◌, Option, none, some, List, [], ◌∷◌, ◌++◌, bit_and, bit_or, drop,
}

abbrev pub page_size : ℕ
page_size = 4096

abbrev pub mmap_base : ℕ
mmap_base = 0x0000008000000000

abbrev pub mmap_limit : ℕ
mmap_limit = 0x0000700000000000

abbrev pub max_regions : ℕ
max_regions = 4096

pub record Region : Type 0 where
  pub start : ℕ
  pub end : ℕ
  pub prot : ℕ

pub record Space : Type 0 where
  pub regions : List Region
  pub region_count : ℕ

-- What the code uses of the rest of the kernel, over that part's state `M`.
pub record Machine (M : Type 0) : Type 0 where
  pub oom_alloc_page : M → ℕ × M
  pub zero_frame : ℕ → M → M
  pub pmm_free_page : ℕ → M → M
  pub total_page_count : ℕ
  pub map_page : ℕ → ℕ → ℕ → M → Bool × M
  pub unmap_range : ℕ → ℕ → M → M
  pub protect_range : ℕ → ℕ → ℕ → M → M
  pub oom_kalloc : M → Bool × M
  pub kalloc : M → Bool × M
  pub kfree : M → M
  pub page_prot_none : ℕ
  pub page_user : ℕ
  pub page_rw : ℕ
  pub page_no_exec : ℕ

pub data Errno : Type 0 where
  einval enomem eacces : Errno

-- 0 or a negative error number, with what goes through the output pointer.
pub data Outcome (A : Type 0) : Type 0 where
  ok : A → Outcome A
  fail : Errno → Outcome A

pub init : Space
init = record { regions = []; region_count = 0 }

pub page_round_up : ℕ → ℕ
page_round_up length = (length + (page_size - 1)) % 2 ^ 64 / page_size * page_size

-- The bits are READ 1, WRITE 2, EXEC 4, and ALLOW_WX 2 in the flags; `none` is 0.
pub prot_check : ℕ → ℕ → Option Errno
prot_check prot flags =
    if not (bit_and flags (2 ^ 32 - 1 - 2) == 0) || not (bit_and prot (2 ^ 32 - 1 - 7) == 0)
    then some einval
    else if not (prot == 0) && bit_and prot 1 == 0
    then some einval
    else if not (bit_and prot 2 == 0) && not (bit_and prot 4 == 0) && bit_and flags 2 == 0
    then some eacces
    else none

pub range_is_free : List Region → ℕ → ℕ → Bool
range_is_free [] start end = true
range_is_free (r ∷ rs) start end =
    let rest = range_is_free rs start end in
    if ltb r.start end then (if ltb start r.end then false else rest) else true

pub find_free_range : List Region → ℕ → ℕ → Option ℕ
find_free_range [] candidate length =
    if leb length ((mmap_limit + 2 ^ 64 - candidate) % 2 ^ 64) then some candidate else none
find_free_range (r ∷ rs) candidate length =
    if leb length ((r.start + 2 ^ 64 - candidate) % 2 ^ 64)
    then some candidate
    else find_free_range rs r.end length

-- The regions that start below `start`, and the others: the last of the first ones and the first of
-- the others are the neighbours that the source points at.
pub find_neighbors : List Region → ℕ → List Region × List Region
find_neighbors [] start = ([], [])
find_neighbors (r ∷ rs) start =
    let rest = find_neighbors rs start in
    if ltb r.start start then (r ∷ rest.0, rest.1) else ([], r ∷ rs)

pub last? : List Region → Option Region
last? [] = none
last? (r ∷ []) = some r
last? (r ∷ s ∷ rs) = last? (s ∷ rs)

-- `prev->end = e`
pub set_last_end : ℕ → List Region → List Region
set_last_end e [] = []
set_last_end e (r ∷ []) = record r { end = e } ∷ []
set_last_end e (r ∷ s ∷ rs) = r ∷ set_last_end e (s ∷ rs)

pub merges_prev : List Region → ℕ → ℕ → Bool
merges_prev before start prot = elim (last? before) [
  | none ↦ false
  | some r ↦ r.end == start && r.prot == prot
]

pub merges_next : List Region → ℕ → ℕ → Bool
merges_next [] end prot = false
merges_next (r ∷ rs) end prot = r.start == end && r.prot == prot

-- `next->end` and `next->next` of a neighbour that is there, and `next->start = start`.
pub end_of_next : List Region → ℕ → ℕ
end_of_next [] end = end
end_of_next (r ∷ rs) end = r.end

pub set_first_start : ℕ → List Region → List Region
set_first_start start [] = []
set_first_start start (r ∷ rs) = record r { start = start } ∷ rs

-- The end of `vmm_user_map`: the new range joins its neighbours or gets a region of its own.
pub place : List Region → List Region → ℕ → ℕ → ℕ → Space → Space
place before after start end prot s =
    if merges_prev before start prot
    then if merges_next after end prot
      then record {
        regions = set_last_end (end_of_next after end) before ++ drop 1 after;
        region_count = s.region_count - 1;
      }
      else record s { regions = set_last_end end before ++ after }
    else if merges_next after end prot
    then record s { regions = before ++ set_first_start start after }
    else record {
      regions = before ++ (record { start = start; end = end; prot = prot } ∷ after);
      region_count = s.region_count + 1;
    }

-- Whether some region reaches past both ends of the range, so that it must be split.
pub needs_split : ℕ → ℕ → List Region → Bool
needs_split addr end [] = false
needs_split addr end (r ∷ rs) =
    let rest = needs_split addr end rs in
    if ltb r.start end then (if ltb r.start addr && ltb end r.end then true else rest) else false

pub range_ok : ℕ → ℕ → Bool
range_ok addr length =
    not (length == 0)
    && addr % page_size == 0
    && leb mmap_base addr
    && ltb addr mmap_limit
    && leb length (mmap_limit - addr)

-- The choice of the range: the hint if it is usable, else the lowest gap.
pub choose_start : List Region → ℕ → ℕ → Option ℕ
choose_start rs hint length =
    if leb mmap_base hint
      && ltb hint mmap_limit
      && leb length (mmap_limit - hint)
      && range_is_free rs hint (hint + length)
    then some hint
    else find_free_range rs mmap_base length

module _ {M : Type 0} (env : Machine M) where
  pub prot_to_page_flags : ℕ → ℕ
  prot_to_page_flags prot =
      let f1 = (if bit_and prot 2 == 0 then env.page_user else bit_or env.page_user env.page_rw) in
      if prot == 0
      then env.page_prot_none
      else if bit_and prot 4 == 0
      then bit_or f1 env.page_no_exec
      else f1

  -- `for (addr = start; addr < end; addr += VMM_USER_PAGE_SIZE)` with `n` pages left.
  pub populate : ℕ → ℕ → ℕ → ℕ → M → Bool × M
  populate zero start addr flags m = (true, m)
  populate (suc n) start addr flags m =
      let (phys, m1) = env.oom_alloc_page m in
      let (mapped, m2) = env.map_page addr phys flags (env.zero_frame phys m1) in
      let m3 = env.pmm_free_page phys m2 in
      let undo = env.unmap_range start (addr + page_size - start) in
      let rest = populate n start (addr + page_size) flags m2 in
      if phys == 0 then (false, undo m1) else if mapped then rest else (false, undo m3)

  -- `vmm_user_map` from the choice of `start` on.
  pub map_at : ℕ → ℕ → ℕ → Space → M → Outcome ℕ × Space × M
  map_at start length prot s m =
      let end = start + length in
      let (before, after) = find_neighbors s.regions start in
      let merged = merges_prev before start prot || merges_next after end prot in
      let (got, m1) = (if merged then (true, m) else env.oom_kalloc m) in
      let (populated, m2) =
        populate (length / page_size) start start (prot_to_page_flags prot) m1 in
      let both = merges_prev before start prot && merges_next after end prot in
      let m3 = (if merged then m2 else env.kfree m2) in
      let m4 = (if both then env.kfree m2 else m2) in
      if not merged && leb max_regions s.region_count
      then (fail enomem, s, m)
      else if not got
      then (fail enomem, s, m1)
      else if populated
      then (ok start, place before after start end prot s, m4)
      else (fail enomem, s, m3)

  -- `pointers`: none of `space`, `pml4` and `out_addr` is null.
  pub map : Bool → ℕ → ℕ → ℕ → ℕ → Space → M → Outcome ℕ × Space × M
  map pointers hint length prot flags s m =
      let len = page_round_up length in
      let chosen : Outcome ℕ × Space × M = elim (choose_start s.regions hint len) [
        | none ↦ (fail enomem, s, m)
        | some start ↦ map_at start len prot s m
      ] in
      let checked : Outcome ℕ × Space × M = elim (prot_check prot flags) [
        | some e ↦ (fail e, s, m)
        | none ↦
            if not (hint % page_size == 0)
            then (fail einval, s, m)
            else if ltb (mmap_limit - mmap_base) length
            then (fail enomem, s, m)
            else if ltb env.total_page_count (len / page_size)
            then (fail enomem, s, m)
            else chosen
      ] in
      if not pointers || length == 0 then (fail einval, s, m) else checked

  -- The loop of `vmm_user_unmap` over the regions that are left: those that stay, with the count.
  -- A split uses up the spare descriptor and ends the loop.
  pub unmap_loop : ℕ → ℕ → List Region → ℕ → M → List Region × ℕ × M
  unmap_loop addr end [] count m = ([], count, m)
  unmap_loop addr end (r ∷ rs) count m =
      let cut_start = (if ltb addr r.start then r.start else addr) in
      let cut_end = (if ltb r.end end then r.end else end) in
      let m1 = env.unmap_range cut_start (cut_end - cut_start) m in
      let skip = unmap_loop addr end rs count m in
      let drop_all = unmap_loop addr end rs (count - 1) (env.kfree m1) in
      let trimmed = unmap_loop addr end rs count m1 in
      if not (ltb r.start end)
      then (r ∷ rs, count, m)
      else if leb r.end addr
      then (r ∷ skip.0, skip.1, skip.2)
      else if leb addr r.start && leb r.end end
      then drop_all
      else if ltb r.start addr && ltb end r.end
      then (record r { end = addr } ∷ record r { start = end } ∷ rs, count + 1, m1)
      else if ltb r.start addr
      then (record r { end = addr } ∷ trimmed.0, trimmed.1, trimmed.2)
      else (record r { start = end } ∷ trimmed.0, trimmed.1, trimmed.2)

  -- `vmm_user_unmap` past its argument checks.
  pub unmap_range_of : ℕ → ℕ → Space → M → Option Errno × Space × M
  unmap_range_of addr end s m =
      let split = needs_split addr end s.regions in
      let (got, m1) = (if split then env.kalloc m else (true, m)) in
      let r = unmap_loop addr end s.regions s.region_count m1 in
      if split && leb max_regions s.region_count
      then (some enomem, s, m)
      else if not got
      then (some enomem, s, m1)
      else (none, record { regions = r.0; region_count = r.1 }, r.2)

  pub unmap : Bool → ℕ → ℕ → Space → M → Option Errno × Space × M
  unmap pointers addr length s m =
      let done = unmap_range_of addr (addr + page_round_up length) s m in
      if not pointers || not (range_ok addr length) then (some einval, s, m) else done
