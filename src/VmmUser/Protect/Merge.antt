-- ===== src/VmmUser/Protect/Merge.antt =====
-- kernel/mm/vmm_user.c, merge_around: joining neighbours of equal protection keeps the map.
use hydrogen_os.Prelude.{
  ℕ, ◌+◌, ◌-◌, ◌≤◌, ◌≡◌, ◌∙◌, refl, sym, subst, Bool-cases, ◌&&◌, arith, leb, ◌==◌, List, [], ◌∷◌,
  ◌++◌, inl, inr, length,
}
use hydrogen_os.VmmUser.{Region, Space, Machine, find_neighbors, mmap_base}
use hydrogen_os.VmmUser.Protect.{merge_loop, merge_from, merge_around}
use hydrogen_os.VmmUser.View.{lookup, IsRegion, Ordered, IsValid}
use hydrogen_os.VmmUser.Split.{append-find_neighbors}

-- The list that is left stands for the same map, is in order, and is counted.
record Merged {M : Type 0} (lo : ℕ) (rs : List Region) (count : ℕ) (t : List Region × ℕ × M)
    : Type 0 where
  same : (a : ℕ) → lookup t.0 a ≡ lookup rs a
  ordered : Ordered lo t.0
  counted : t.1 + length rs ≡ count + length t.0
  shorter : length t.0 ≤ length rs

module _ {M : Type 0} (env : Machine M) where
  Merged-stay :
      (lo count : ℕ) (r : Region) (rs : List Region) (t : List Region × ℕ × M)
      → lo ≤ r.start
      → IsRegion r
      → Merged r.end rs count t
      → Merged lo (r ∷ rs) count (r ∷ t.0, t.1, t.2)
  Merged-stay lo count r rs t le v h = record {
    same = λ a. ground (arith, h.same a);
    ordered = (le, v, h.ordered);
    counted = omega (arith, h.counted);
    shorter = omega (arith, h.shorter);
  }

  Merged-join :
      (lo count : ℕ) (r s : Region) (rs : List Region) (t : List Region × ℕ × M)
      → r.end ≡ s.start
      → r.prot ≡ s.prot
      → IsRegion r
      → IsRegion s
      → length rs + 2 ≤ count
      → Merged lo (record r { end = s.end } ∷ rs) (count - 1) t
      → Merged lo (r ∷ s ∷ rs) count t
  Merged-join lo count r s rs t e p v w l h = record {
    same = λ a. h.same a ∙ ground (arith, e, p, v.nonempty, w.nonempty);
    ordered = h.ordered;
    counted = omega (arith, h.counted, l);
    shorter = omega (arith, h.shorter);
  }

  Merged-same :
      (lo count : ℕ) (rs : List Region) (m : M) → Ordered lo rs → Merged lo rs count (rs, count, m)
  Merged-same lo count rs m o = record {
    same = λ a. refl;
    ordered = o;
    counted = refl;
    shorter = omega arith;
  }

  Merged-merge_loop :
      (lo end : ℕ) (r : Region) (rs : List Region) (count : ℕ) (m : M)
      → Ordered lo (r ∷ rs)
      → length (r ∷ rs) ≤ count
      → Merged lo (r ∷ rs) count (merge_loop env end r rs count m)
  unfolding merge_loop
  Merged-merge_loop lo end r [] count m o l = Merged-same lo count (r ∷ []) m o
  Merged-merge_loop lo end r (s ∷ rs) count m (le, v, (ls, w, o)) l =
      elim (Bool-cases (leb r.start end)) [
        | inr e ↦ rw e (Merged-same lo count (r ∷ s ∷ rs) m (le, v, (ls, w, o)))
        | inl e ↦ elim (Bool-cases (r.end == s.start && r.prot == s.prot)) [
          | inl f ↦
              let (touch, prots) : (r.end ≡ s.start) × (r.prot ≡ s.prot) = ground (arith, f) in
              let whole : IsRegion (record r { end = s.end }) = record {
                nonempty = omega (arith, touch, v.nonempty, w.nonempty);
                start_aligned = v.start_aligned;
                end_aligned = w.end_aligned;
                in_window = w.in_window;
              } in
              rw (e, f)
                (Merged-join lo count r s rs _ touch prots v w (omega (arith, l)) (
                  Merged-merge_loop lo end (record r { end = s.end }) rs (count - 1) (env.kfree m)
                    (le, whole, o) (omega (arith, l))))
          | inr f ↦
              rw (e, f)
                (Merged-stay lo count r (s ∷ rs) (merge_loop env end s rs count m) le v
                  (Merged-merge_loop r.end end s rs count m (ls, w, o) (omega (arith, l))))
        ]
      ]

  Merged-merge_from :
      (lo end : ℕ) (before after : List Region) (count : ℕ) (m : M)
      → Ordered lo (before ++ after)
      → length (before ++ after) ≤ count
      → Merged lo (before ++ after) count (merge_from env end before after count m)
  unfolding merge_from
  Merged-merge_from lo end [] [] count m o l = Merged-same lo count [] m o
  Merged-merge_from lo end [] (r ∷ rs) count m o l = Merged-merge_loop lo end r rs count m o l
  Merged-merge_from lo end (r ∷ []) after count m o l = Merged-merge_loop lo end r after count m o l
  Merged-merge_from lo end (r ∷ q ∷ before) after count m (le, v, o) l =
      Merged-stay lo count r (q ∷ before ++ after) (merge_from env end (q ∷ before) after count m)
        le v (Merged-merge_from r.end end (q ∷ before) after count m o (omega (arith, l)))

  pub merge_around_lem :
      (start end : ℕ) (s : Space) (m : M)
      → IsValid s
      → IsValid (merge_around env start end s m).0
        × ((a : ℕ) → lookup (merge_around env start end s m).0.regions a ≡ lookup s.regions a)
  unfolding merge_around
  merge_around_lem start end s m v =
      let before = (find_neighbors s.regions start).0 in
      let after = (find_neighbors s.regions start).1 in
      let whole = append-find_neighbors s.regions start in
      let t = merge_from env end before after s.region_count m in
      let h : Merged mmap_base s.regions s.region_count t =
        subst (λ rs. Merged mmap_base rs s.region_count t) whole
          (Merged-merge_from mmap_base end before after s.region_count m
            (subst (λ rs. Ordered mmap_base rs) (sym whole) v.ordered)
            (subst (λ rs. length rs ≤ s.region_count) (sym whole) (omega (arith, v.count)))) in
      (
        record {
          ordered = h.ordered;
          count = omega (arith, h.counted, v.count);
          count_le = omega (arith, h.counted, h.shorter, v.count, v.count_le);
        },
        h.same,
      )
