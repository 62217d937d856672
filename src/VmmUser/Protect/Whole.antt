-- ===== src/VmmUser/Protect/Whole.antt =====
-- kernel/mm/vmm_user.c, vmm_user_protect: the whole call.
use hydrogen_os.Prelude.{
  ℕ, ◌+◌, ◌%◌, ◌≤◌, ◌<◌, ◌≡◌, ◌≢◌, ◌∙◌, refl, sym, Bool-cases, Option-cases, true, false, ◌&&◌,
  ◌||◌, arith, ltb, leb, if◌then◌else◌, Option, none, some, ◌⊎◌, inl, inr, length,
}
use hydrogen_os.VmmUser.{
  Space, Machine, Errno, enomem, page_size, mmap_base, max_regions, page_round_up, prot_check,
  range_ok,
}
use hydrogen_os.VmmUser.Protect.{
  cover_loop, split_list, split_at, split_both, set_prot, merge_around, alloc_spares,
  protect_range_of, protect,
}
use hydrogen_os.VmmUser.Protect.Cover.{
  lookup-cover_loop, split_list-other, splits-cover_loop, one_if,
}
use hydrogen_os.VmmUser.Protect.Change.{
  lookup-split_list, length-split_list, Ordered-split_list, split_list-again, over, lookup-set_prot,
  Ordered-set_prot, length-set_prot,
}
use hydrogen_os.VmmUser.Protect.Merge.{merge_around_lem}
use hydrogen_os.VmmUser.View.{lookup, Ordered, IsValid, page_round_up_lem}

-- The space after the call: the range was mapped as a whole and has the protection, all else is as
-- before.
pub record Protected (addr end prot : ℕ) (s s' : Space) : Type 0 where
  pub valid : IsValid s'
  pub was_mapped : (a : ℕ) → addr ≤ a → a < end → lookup s.regions a ≢ none
  pub changed :
      (a : ℕ)
      → lookup s'.regions a ≡ (if leb addr a && ltb a end then some prot else lookup s.regions a)

over_lem :
    (addr end a prot : ℕ) (o o' : Option ℕ)
    → o ≡ o'
    → (addr ≤ a → a < end → o' ≢ none)
    → (if leb addr a && ltb a end then over prot o else o)
      ≡ (if leb addr a && ltb a end then some prot else o')
over_lem addr end a prot none o' e n = ground (arith, e, n)
over_lem addr end a prot (some p) o' e n = ground (arith, e)

module _ (addr end : ℕ) where
  -- The space after the two splits.
  record SplitBoth (s s2 : Space) (used : ℕ) : Type 0 where
    same : (a : ℕ) → lookup s2.regions a ≡ lookup s.regions a
    ordered : Ordered mmap_base s2.regions
    count : s2.region_count ≡ s.region_count + used
    counted : s2.region_count ≡ length s2.regions
    at_addr : (split_list addr s2.regions).1 ≡ false
    at_end : (split_list end s2.regions).1 ≡ false
    uses : used ≡ one_if (split_list addr s.regions).1 + one_if (split_list end s.regions).1

  SplitBoth-split_both :
      (s : Space)
      → addr < end
      → addr % page_size ≡ 0
      → end % page_size ≡ 0
      → IsValid s
      → SplitBoth s (split_both addr end s).0 (split_both addr end s).1
  unfolding split_both split_at
  SplitBoth-split_both s h ha he v =
      let rs = s.regions in
      let x = split_list addr rs in
      let y = split_list end x.0 in
      let ox = Ordered-split_list mmap_base addr rs ha v.ordered in
      let oy = Ordered-split_list mmap_base end x.0 he ox in
      let lx = length-split_list addr rs in
      let ly = length-split_list end x.0 in
      let other : y.1 ≡ (split_list end rs).1 =
        split_list-other mmap_base end addr rs v.ordered (omega arith) in
      record {
        same = λ a.
            lookup-split_list mmap_base end a x.0 ox
            ∙ lookup-split_list mmap_base addr a rs v.ordered;
        ordered = oy;
        count = ground arith;
        counted = ground (arith, lx, ly, v.count);
        at_addr =
            split_list-other mmap_base addr end x.0 ox (omega arith)
            ∙ split_list-again mmap_base addr rs v.ordered;
        at_end = split_list-again mmap_base end x.0 ox;
        uses = ground (arith, other);
      }

  spares_of :
      (s : Space)
      → addr < end
      → addr % page_size ≡ 0
      → end % page_size ≡ 0
      → IsValid s
      → end ≤ (cover_loop addr end s.regions addr 0).0
      → ((split_both addr end s).1 ≡ (cover_loop addr end s.regions addr 0).1)
        × ((split_both addr end s).1 ≤ 2)
  spares_of s h ha he v c =
      let b = SplitBoth-split_both s h ha he v in
      let n = splits-cover_loop mmap_base addr end addr 0 s.regions h (omega arith) v.ordered c in
      (ground (arith, b.uses, n), ground (arith, b.uses))

module _ {M : Type 0} (env : Machine M) (addr end : ℕ) where
  Protected-merge_around :
      (prot : ℕ) (s : Space) (m : M)
      → addr < end
      → addr % page_size ≡ 0
      → end % page_size ≡ 0
      → IsValid s
      → end ≤ (cover_loop addr end s.regions addr 0).0
      → s.region_count + (cover_loop addr end s.regions addr 0).1 ≤ max_regions
      → let s2 = (split_both addr end s).0 in
        Protected addr end prot s
          (merge_around env addr end
            (record s2 { regions = set_prot addr end prot s2.regions })
            m).0
  Protected-merge_around prot s m h ha he v c room =
      let (s2, used) = split_both addr end s in
      let b = SplitBoth-split_both addr end s h ha he v in
      let (same_count, _) = spares_of addr end s h ha he v c in
      let s3 : Space = record s2 { regions = set_prot addr end prot s2.regions } in
      let v3 : IsValid s3 = record {
        ordered = Ordered-set_prot mmap_base addr end prot s2.regions b.ordered;
        count = b.counted ∙ sym (length-set_prot addr end prot s2.regions);
        count_le = omega (arith, b.count, same_count, room);
      } in
      let (v4, same) = merge_around_lem env addr end s3 m v3 in
      let mapped : (a : ℕ) → addr ≤ a → a < end → lookup s.regions a ≢ none =
        λ a l u. lookup-cover_loop addr end addr 0 a s.regions (omega arith) c l u in
      record {
        valid = v4;
        was_mapped = mapped;
        changed = λ a.
            same a
            ∙ lookup-set_prot mmap_base addr end prot a s2.regions h b.ordered b.at_addr b.at_end
            ∙ over_lem addr end a prot (lookup s2.regions a) (lookup s.regions a) (b.same a)
                (mapped a);
      }

range_ok_lem :
    (addr len : ℕ)
    → range_ok addr len ≡ true
    → (addr % page_size ≡ 0)
      × (addr < addr + page_round_up len)
      × ((addr + page_round_up len) % page_size ≡ 0)
unfolding range_ok
range_ok_lem addr len h =
    let aligned : addr % page_size ≡ 0 = ground (arith, h) in
    let nonempty : 0 < len = ground (arith, h) in
    let (ra, rl, rh) = page_round_up_lem len (ground (arith, h)) in
    (aligned, omega (arith, rl, nonempty), omega (arith, aligned, ra))

-- On a valid space and a range that passes the argument checks, whenever `vmm_user_protect` finds
-- the page-rounded range covered, its two splits use exactly as many descriptors as it has counted
-- and got for them, and at most two: no split is left without a descriptor, and the array of two is
-- not overrun.
pub split_both-cover_loop :
    (addr len : ℕ) (s : Space)
    → range_ok addr len ≡ true
    → IsValid s
    → addr + page_round_up len ≤ (cover_loop addr (addr + page_round_up len) s.regions addr 0).0
    → ((split_both addr (addr + page_round_up len) s).1
        ≡ (cover_loop addr (addr + page_round_up len) s.regions addr 0).1)
      × ((split_both addr (addr + page_round_up len) s).1 ≤ 2)
split_both-cover_loop addr len s ok v c =
    let (ha, h, he) = range_ok_lem addr len ok in
    spares_of addr (addr + page_round_up len) s h ha he v c

module _ {M : Type 0} (env : Machine M) where
  protect_range_of_lem :
      (addr end prot : ℕ) (s : Space) (m : M)
      → addr < end
      → addr % page_size ≡ 0
      → end % page_size ≡ 0
      → IsValid s
      → let r = protect_range_of env addr end prot s m in
        ((r.0 ≡ none) × Protected addr end prot s r.1) ⊎ ((e : Errno) × (r.0 ≡ some e) × (r.1 ≡ s))
  unfolding protect_range_of
  protect_range_of_lem addr end prot s m h ha he v =
      let (covered, splits) = cover_loop addr end s.regions addr 0 in
      elim (Bool-cases (ltb covered end || ltb max_regions (s.region_count + splits))) [
        | inl e ↦ rw e (inr (enomem, refl, refl))
        | inr e ↦ elim (Bool-cases (alloc_spares env splits 0 m).0) [
          | inr f ↦ rw (e, f) (inr (enomem, refl, refl))
          | inl f ↦
              rw (e, f)
                (inl (
                  refl,
                  Protected-merge_around env addr end prot s _ h ha he v (ground (arith, e))
                      (ground (arith, e)),
                ))
        ]
      ]

  -- On a valid space and a range that passes the argument checks, `vmm_user_protect` either returns
  -- an error and leaves the space as it was; or it returns 0, and then every address of the
  -- page-rounded range was mapped and has the new protection, every other address has what it had,
  -- and the space is valid.
  pub protect_lem :
      (addr len prot flags : ℕ) (s : Space) (m : M)
      → range_ok addr len ≡ true
      → IsValid s
      → let r = protect env true addr len prot flags s m in
        ((r.0 ≡ none) × Protected addr (addr + page_round_up len) prot s r.1)
        ⊎ ((e : Errno) × (r.0 ≡ some e) × (r.1 ≡ s))
  unfolding protect
  protect_lem addr len prot flags s m ok v =
      let (ha, h, he) = range_ok_lem addr len ok in
      elim (Option-cases (prot_check prot flags)) [
        | inr (e, f) ↦ rw (ok, f) (inr (e, refl, refl))
        | inl f ↦
            rw (ok, f) (protect_range_of_lem addr (addr + page_round_up len) prot s m h ha he v)
      ]
