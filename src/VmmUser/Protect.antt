-- ===== src/VmmUser/Protect.antt =====
-- kernel/mm/vmm_user.c, vmm_user_protect and vmm_user_release.
pub mod Cover
pub mod Change
pub mod Merge
pub mod Whole
mod Tests
use hydrogen_os.Prelude.{
  ℕ, zero, suc, ◌+◌, ◌-◌, Bool, true, false, ◌&&◌, ◌||◌, not, ltb, leb, ◌==◌, if◌then◌else◌, Option,
  none, some, List, [], ◌∷◌,
}
use hydrogen_os.VmmUser.{
  Region, Space, Machine, Errno, einval, enomem, max_regions, page_round_up, prot_check, range_ok,
  find_neighbors, prot_to_page_flags,
}

-- The loop that checks that the range is covered and counts the splits: `covered` and `splits`.
pub cover_loop : ℕ → ℕ → List Region → ℕ → ℕ → ℕ × ℕ
cover_loop addr end [] covered splits = (covered, splits)
cover_loop addr end (r ∷ rs) covered splits =
    let s1 = (if ltb r.start addr then splits + 1 else splits) in
    let s2 = (if ltb end r.end then s1 + 1 else s1) in
    let skip = cover_loop addr end rs covered splits in
    let next = cover_loop addr end rs r.end s2 in
    if not (ltb r.start end)
    then (covered, splits)
    else if leb r.end addr
    then skip
    else if ltb covered r.start
    then (covered, splits)
    else next

-- The list after a split at `point`, and whether there was one.
pub split_list : ℕ → List Region → List Region × Bool
split_list point [] = ([], false)
split_list point (r ∷ rs) =
    let rest = split_list point rs in
    if not (ltb r.start point)
    then (r ∷ rs, false)
    else if leb r.end point
    then (r ∷ rest.0, rest.1)
    else (record r { end = point } ∷ record r { start = point } ∷ rs, true)

pub split_at : ℕ → Space → Space × Bool
split_at point s =
    let t = split_list point s.regions in
    let count = (if t.1 then s.region_count + 1 else s.region_count) in
    (record { regions = t.0; region_count = count }, t.1)

-- The loop that sets the protection of the regions from `addr` to `end`.
pub set_prot : ℕ → ℕ → ℕ → List Region → List Region
set_prot addr end prot [] = []
set_prot addr end prot (r ∷ rs) =
    let rest = set_prot addr end prot rs in
    if not (ltb r.start end)
    then r ∷ rs
    else if leb addr r.start
    then record r { prot = prot } ∷ rest
    else r ∷ rest

-- The number of spares that the two splits use, with the space after them.
pub split_both : ℕ → ℕ → Space → Space × ℕ
split_both addr end s =
    let (s1, at_addr) = split_at addr s in
    let (s2, at_end) = split_at end s1 in
    let used = (if at_addr then 1 else 0) in (s2, if at_end then used + 1 else used)

module _ {M : Type 0} (env : Machine M) where
  -- The loop of `merge_around` at the region `r` with the ones that follow it; with the count.
  pub merge_loop : ℕ → Region → List Region → ℕ → M → List Region × ℕ × M
  merge_loop end r [] count m = (r ∷ [], count, m)
  merge_loop end r (following ∷ rs) count m =
      let joined = merge_loop end (record r { end = following.end }) rs (count - 1) (env.kfree m) in
      let next = merge_loop end following rs count m in
      if not (leb r.start end)
      then (r ∷ following ∷ rs, count, m)
      else if r.end == following.start && r.prot == following.prot
      then joined
      else (r ∷ next.0, next.1, next.2)

  -- From the last region of the first list on, or else from the first of the second.
  pub merge_from : ℕ → List Region → List Region → ℕ → M → List Region × ℕ × M
  merge_from end [] [] count m = ([], count, m)
  merge_from end [] (r ∷ rs) count m = merge_loop end r rs count m
  merge_from end (r ∷ []) after count m = merge_loop end r after count m
  merge_from end (r ∷ q ∷ before) after count m =
      let rest = merge_from end (q ∷ before) after count m in (r ∷ rest.0, rest.1, rest.2)

  pub merge_around : ℕ → ℕ → Space → M → Space × M
  merge_around start end s m =
      let (before, after) = find_neighbors s.regions start in
      let t = merge_from end before after s.region_count m in
      (record { regions = t.0; region_count = t.1 }, t.2)

  pub free_spares : ℕ → M → M
  free_spares zero m = m
  free_spares (suc n) m = free_spares n (env.kfree m)

  -- `n` spare descriptors are left to get, `i` are there.
  pub alloc_spares : ℕ → ℕ → M → Bool × M
  alloc_spares zero i m = (true, m)
  alloc_spares (suc n) i m =
      let (got, m1) = env.kalloc m in
      let rest = alloc_spares n (i + 1) m1 in if got then rest else (false, free_spares i m1)

  pub protect_range_of : ℕ → ℕ → ℕ → Space → M → Option Errno × Space × M
  protect_range_of addr end prot s m =
      let (covered, splits) = cover_loop addr end s.regions addr 0 in
      let (got, m1) = alloc_spares splits 0 m in
      let m2 = env.protect_range addr (end - addr) (prot_to_page_flags env prot) m1 in
      let (s2, used) = split_both addr end s in
      let (s3, m3) =
        merge_around addr end (record s2 { regions = set_prot addr end prot s2.regions }) m2 in
      if ltb covered end || ltb max_regions (s.region_count + splits)
      then (some enomem, s, m)
      else if not got
      then (some enomem, s, m1)
      else (none, s3, free_spares (splits - used) m3)

  pub protect : Bool → ℕ → ℕ → ℕ → ℕ → Space → M → Option Errno × Space × M
  protect pointers addr length prot flags s m =
      let done = protect_range_of addr (addr + page_round_up length) prot s m in
      let checked : Option Errno × Space × M = elim (prot_check prot flags) [
        | some e ↦ (some e, s, m)
        | none ↦ done
      ] in
      if not pointers || not (range_ok addr length) then (some einval, s, m) else checked

  -- `has_tables`: `pml4` is not null.
  pub release_loop : Bool → List Region → M → M
  release_loop has_tables [] m = m
  release_loop has_tables (r ∷ rs) m =
      let m1 = (if has_tables then env.unmap_range r.start (r.end - r.start) m else m) in
      release_loop has_tables rs (env.kfree m1)

  pub release : Bool → Space → M → Space × M
  release has_tables s m =
      (record { regions = []; region_count = 0 }, release_loop has_tables s.regions m)
