-- ===== src/VmmUser/Unmap.antt =====
-- kernel/mm/vmm_user.c, vmm_user_unmap: the loop over the regions and the whole call.
use hydrogen_os.Prelude.{
  ℕ, ◌+◌, ◌-◌, ◌%◌, ◌≤◌, ◌<◌, ◌≡◌, refl, ◌⊎◌, true, false, ◌&&◌, arith, ltb, leb, if◌then◌else◌,
  none, some, List, [], ◌∷◌, inl, inr, length, Bool-cases,
}
use hydrogen_os.VmmUser.{
  Region, Space, Machine, enomem, page_size, mmap_base, mmap_limit, max_regions, page_round_up,
  unmap_loop, needs_split, unmap_range_of, range_ok, unmap,
}
use hydrogen_os.VmmUser.View.{
  lookup, IsRegion, Ordered, IsValid, lookup-below, Ordered-weaken, page_round_up_lem,
}

-- What one region of the loop becomes.
data Cut {M : Type 0} (env : Machine M) (addr end : ℕ) (r : Region) (rs : List Region) (count : ℕ)
    (m : M) : List Region × ℕ × M → Type 0 where
  stop : end ≤ r.start → Cut env addr end r rs count m (r ∷ rs, count, m)
  keep :
      r.end ≤ addr
      → r.start < end
      → Cut env addr end r rs count m (
        r ∷ (unmap_loop env addr end rs count m).0,
        (unmap_loop env addr end rs count m).1,
        (unmap_loop env addr end rs count m).2,
      )
  remove :
      (m1 : M)
      → addr ≤ r.start
      → r.end ≤ end
      → Cut env addr end r rs count m (unmap_loop env addr end rs (count - 1) m1)
  split :
      (m1 : M)
      → r.start < addr
      → end < r.end
      → Cut env addr end r rs count m
          (record r { end = addr } ∷ record r { start = end } ∷ rs, count + 1, m1)
  cut_above :
      (m1 : M)
      → r.start < addr
      → addr < r.end
      → r.end ≤ end
      → Cut env addr end r rs count m (
        record r { end = addr } ∷ (unmap_loop env addr end rs count m1).0,
        (unmap_loop env addr end rs count m1).1,
        (unmap_loop env addr end rs count m1).2,
      )
  cut_below :
      (m1 : M)
      → addr ≤ r.start
      → r.start < end
      → end < r.end
      → Cut env addr end r rs count m (
        record r { start = end } ∷ (unmap_loop env addr end rs count m1).0,
        (unmap_loop env addr end rs count m1).1,
        (unmap_loop env addr end rs count m1).2,
      )

module _ {M : Type 0} (env : Machine M) (addr end : ℕ) where
  Cut-unmap_loop :
      (r : Region) (rs : List Region) (count : ℕ) (m : M)
      → Cut env addr end r rs count m (unmap_loop env addr end (r ∷ rs) count m)
  unfolding unmap_loop
  Cut-unmap_loop r rs count m =
      let cut_start = (if ltb addr r.start then r.start else addr) in
      let cut_end = (if ltb r.end end then r.end else end) in
      let m1 = env.unmap_range cut_start (cut_end - cut_start) m in
      elim (Bool-cases (ltb r.start end)) [
        | inr e1 ↦ rw e1 (stop (ground arith))
        | inl e1 ↦ elim (Bool-cases (leb r.end addr)) [
          | inl e2 ↦ rw (e1, e2) (keep (ground arith) (ground arith))
          | inr e2 ↦ elim (Bool-cases (leb addr r.start && leb r.end end)) [
            | inl e3 ↦ rw (e1, e2, e3) (remove (env.kfree m1) (ground arith) (ground arith))
            | inr e3 ↦ elim (Bool-cases (ltb r.start addr && ltb end r.end)) [
              | inl e4 ↦ rw (e1, e2, e3, e4) (split m1 (ground arith) (ground arith))
              | inr e4 ↦ elim (Bool-cases (ltb r.start addr)) [
                | inl e5 ↦
                    rw (e1, e2, e3, e4, e5)
                      (cut_above m1 (ground arith) (ground arith) (ground arith))
                | inr e5 ↦
                    rw (e1, e2, e3, e4, e5)
                      (cut_below m1 (ground arith) (ground arith) (ground arith))
              ]
            ]
          ]
        ]
      ]

  lookup-Cut :
      (a : ℕ) (r : Region) (rs : List Region) (count : ℕ) (m : M)
      → IsRegion r
      → addr < end
      → (a < r.end → lookup rs a ≡ none)
      → ((count' : ℕ) (m' : M)
          → lookup (unmap_loop env addr end rs count' m').0 a
            ≡ (if leb addr a && ltb a end then none else lookup rs a))
      → {t : List Region × ℕ × M} → Cut env addr end r rs count m t
      → lookup t.0 a ≡ (if leb addr a && ltb a end then none else lookup (r ∷ rs) a)
  lookup-Cut a r rs count m v h below ih (stop p) = ground (arith, v.nonempty, below)
  lookup-Cut a r rs count m v h below ih (keep p q) = ground (arith, ih count m)
  lookup-Cut a r rs count m v h below ih (remove m1 p q) = ground (arith, ih (count - 1) m1)
  lookup-Cut a r rs count m v h below ih (split m1 p q) = ground (arith, below, h)
  lookup-Cut a r rs count m v h below ih (cut_above m1 p q u) = ground (arith, ih count m1)
  lookup-Cut a r rs count m v h below ih (cut_below m1 p q u) = ground (arith, ih count m1)

  lookup-unmap_loop :
      (lo a : ℕ) (rs : List Region) (count : ℕ) (m : M)
      → addr < end
      → Ordered lo rs
      → lookup (unmap_loop env addr end rs count m).0 a
        ≡ (if leb addr a && ltb a end then none else lookup rs a)
  unfolding unmap_loop
  lookup-unmap_loop lo a [] count m h o = ground arith
  lookup-unmap_loop lo a (r ∷ rs) count m h (le, v, o) =
      lookup-Cut a r rs count m v h (lookup-below r.end a rs o)
        (λ count' m'. lookup-unmap_loop r.end a rs count' m' h o) (Cut-unmap_loop r rs count m)

  Ordered-Cut :
      (lo : ℕ) (r : Region) (rs : List Region) (count : ℕ) (m : M)
      → addr % page_size ≡ 0
      → end % page_size ≡ 0
      → addr < end
      → Ordered lo (r ∷ rs)
      → ((lo' count' : ℕ) (m' : M)
          → Ordered lo' rs
          → Ordered lo' (unmap_loop env addr end rs count' m').0)
      → {t : List Region × ℕ × M} → Cut env addr end r rs count m t
      → Ordered lo t.0
  Ordered-Cut lo r rs count m ha he h (le, v, o) ih (stop p) = (le, v, o)
  Ordered-Cut lo r rs count m ha he h (le, v, o) ih (keep p q) = (le, v, ih r.end count m o)
  Ordered-Cut lo r rs count m ha he h (le, v, o) ih (remove m1 p q) =
      ih lo (count - 1) m1 (Ordered-weaken r.end lo rs o (omega (arith, v.nonempty)))
  Ordered-Cut lo r rs count m ha he h (le, v, o) ih (split m1 p q) = (
    le,
    record {
      nonempty = p;
      start_aligned = v.start_aligned;
      end_aligned = ha;
      in_window = omega (arith, v.in_window);
    },
    (
      omega arith,
      record {
        nonempty = q;
        start_aligned = he;
        end_aligned = v.end_aligned;
        in_window = v.in_window;
      },
      o,
    ),
  )
  Ordered-Cut lo r rs count m ha he h (le, v, o) ih (cut_above m1 p q u) = (
    le,
    record {
      nonempty = p;
      start_aligned = v.start_aligned;
      end_aligned = ha;
      in_window = omega (arith, v.in_window);
    },
    ih addr count m1 (Ordered-weaken r.end addr rs o (omega arith)),
  )
  Ordered-Cut lo r rs count m ha he h (le, v, o) ih (cut_below m1 p q u) = (
    omega arith,
    record {
      nonempty = u;
      start_aligned = he;
      end_aligned = v.end_aligned;
      in_window = v.in_window;
    },
    ih r.end count m1 o,
  )

  Ordered-unmap_loop :
      (lo : ℕ) (rs : List Region) (count : ℕ) (m : M)
      → addr % page_size ≡ 0
      → end % page_size ≡ 0
      → addr < end
      → Ordered lo rs
      → Ordered lo (unmap_loop env addr end rs count m).0
  unfolding unmap_loop
  Ordered-unmap_loop lo [] count m ha he h o = tt
  Ordered-unmap_loop lo (r ∷ rs) count m ha he h o =
      Ordered-Cut lo r rs count m ha he h o
        (λ lo' count' m'. Ordered-unmap_loop lo' rs count' m' ha he h) (Cut-unmap_loop r rs count m)

  -- The count that the loop returns is the length of the list, and the list has at most one region
  -- more, when some region is split.
  Counted : (rs : List Region) (count : ℕ) (m : M) → (List Region × ℕ × M) → Type 0
  Counted rs count m t =
      (t.1 + length rs ≡ count + length t.0)
      × (length t.0 ≤ (if needs_split addr end rs then 1 else 0) + length rs)

  length-Cut :
      (r : Region) (rs : List Region) (count : ℕ) (m : M)
      → IsRegion r
      → addr < end
      → length rs < count
      → ((count' : ℕ) (m' : M)
          → length rs ≤ count'
          → Counted rs count' m' (unmap_loop env addr end rs count' m'))
      → {t : List Region × ℕ × M} → Cut env addr end r rs count m t
      → Counted (r ∷ rs) count m t
  unfolding Counted needs_split
  length-Cut r rs count m v h l ih (stop p) = (refl, ground arith)
  length-Cut r rs count m v h l ih (keep p q) = ground (arith, ih count m)
  length-Cut r rs count m v h l ih (remove m1 p q) = ground (arith, ih (count - 1) m1)
  length-Cut r rs count m v h l ih (split m1 p q) = ground arith
  length-Cut r rs count m v h l ih (cut_above m1 p q u) = ground (arith, ih count m1)
  length-Cut r rs count m v h l ih (cut_below m1 p q u) = ground (arith, ih count m1)

  length-unmap_loop :
      (lo : ℕ) (rs : List Region) (count : ℕ) (m : M)
      → addr < end
      → Ordered lo rs
      → length rs ≤ count
      → Counted rs count m (unmap_loop env addr end rs count m)
  unfolding unmap_loop Counted needs_split
  length-unmap_loop lo [] count m h o l = ground arith
  length-unmap_loop lo (r ∷ rs) count m h (le, v, o) l =
      length-Cut r rs count m v h (omega arith)
        (λ count' m'. length-unmap_loop r.end rs count' m' h o) (Cut-unmap_loop r rs count m)

range_ok_lem :
    (addr len : ℕ)
    → range_ok addr len ≡ true
    → (addr % page_size ≡ 0) × (0 < len) × (len ≤ mmap_limit)
unfolding range_ok
range_ok_lem addr len h = ground arith

-- The space after an unmapping of the range: as before, with nothing mapped in the range.
pub record Unmapped (addr end : ℕ) (s s' : Space) : Type 0 where
  pub valid : IsValid s'
  pub without :
      (a : ℕ) → lookup s'.regions a ≡ (if leb addr a && ltb a end then none else lookup s.regions a)

module _ {M : Type 0} (env : Machine M) where
  Unmapped-loop :
      (addr end : ℕ) (s : Space) (m : M)
      → addr % page_size ≡ 0
      → end % page_size ≡ 0
      → addr < end
      → IsValid s
      → (needs_split addr end s.regions && leb max_regions s.region_count) ≡ false
      → let r = unmap_loop env addr end s.regions s.region_count m in
        Unmapped addr end s (record { regions = r.0; region_count = r.1 })
  unfolding Counted
  Unmapped-loop addr end s m ha he h v small =
      let c =
        length-unmap_loop env addr end mmap_base s.regions s.region_count m h v.ordered
          (omega (arith, v.count)) in
      record {
        valid = record {
          ordered =
              Ordered-unmap_loop env addr end mmap_base s.regions s.region_count m ha he h
                v.ordered;
          count = omega (arith, c.0, v.count);
          count_le = ground (arith, c.0, c.1, v.count, v.count_le, small);
        };
        without =
            λ a. lookup-unmap_loop env addr end mmap_base a s.regions s.region_count m h v.ordered;
      }

  unmap_range_of_lem :
      (addr end : ℕ) (s : Space) (m : M)
      → addr % page_size ≡ 0
      → end % page_size ≡ 0
      → addr < end
      → IsValid s
      → let r = unmap_range_of env addr end s m in
        ((r.0 ≡ none) × Unmapped addr end s r.1)
        ⊎ ((r.0 ≡ some enomem) × (r.1 ≡ s) × (needs_split addr end s.regions ≡ true))
  unfolding unmap_range_of
  unmap_range_of_lem addr end s m ha he h v = elim (Bool-cases (needs_split addr end s.regions)) [
    | inr e ↦ rw e (inl (refl, Unmapped-loop addr end s m ha he h v (rw e refl)))
    | inl e ↦ elim (Bool-cases (leb max_regions s.region_count)) [
      | inl f ↦ rw (e, f) (inr (refl, refl, refl))
      | inr f ↦ elim (Bool-cases (env.kalloc m).0) [
        | inl g ↦
            rw (e, f, g)
              (inl (refl, Unmapped-loop addr end s (env.kalloc m).1 ha he h v (rw (e, f) refl)))
        | inr g ↦ rw (e, f, g) (inr (refl, refl, refl))
      ]
    ]
  ]

  -- On a valid space and a range that passes the argument checks, `vmm_user_unmap` either returns 0,
  -- and then the space is valid, no address of the page-rounded range is mapped in it, and every
  -- other address has the protection it had; or it returns ENOMEM, and then the space is unchanged
  -- and some region reaches past both ends of the range.
  pub unmap_lem :
      (addr len : ℕ) (s : Space) (m : M)
      → range_ok addr len ≡ true
      → IsValid s
      → let r = unmap env true addr len s m in
        ((r.0 ≡ none) × Unmapped addr (addr + page_round_up len) s r.1)
        ⊎ ((r.0 ≡ some enomem)
            × (r.1 ≡ s)
            × (needs_split addr (addr + page_round_up len) s.regions ≡ true))
  unfolding unmap
  unmap_lem addr len s m ok v =
      let (aligned, nonempty, small) = range_ok_lem addr len ok in
      let (ra, rl, rh) = page_round_up_lem len small in
      rw ok (
        unmap_range_of_lem addr (addr + page_round_up len) s m aligned (omega (arith, aligned, ra))
          (omega (arith, rl, nonempty)) v)
