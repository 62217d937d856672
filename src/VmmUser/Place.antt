-- ===== src/VmmUser/Place.antt =====
-- kernel/mm/vmm_user.c, the end of vmm_user_map: whether or not the new range joins its neighbours,
-- the list maps what it would map with a region of its own for the range.
use hydrogen_os.Prelude.{
  ℕ, ◌+◌, ◌≤◌, ◌<◌, ◌≡◌, ◌∙◌, refl, Bool-cases, true, false, ◌&&◌, arith, ltb, leb, if◌then◌else◌,
  ◌||◌, some, List, [], ◌∷◌, ◌++◌, inl, inr, length, drop,
}
use hydrogen_os.VmmUser.{
  Region, Space, max_regions, last?, set_last_end, merges_prev, merges_next, place, end_of_next,
  set_first_start,
}
use hydrogen_os.VmmUser.View.{lookup, IsRegion, Ordered, last_end, le-last_end}

-- The region of its own that the range would have.
abbrev pub own : ℕ → ℕ → ℕ → Region
own start end prot = record { start = start; end = end; prot = prot }

-- The two lists that agree as maps, both in order, with a number of regions less in the first.
record Same (lo : ℕ) (xs ys : List Region) (fewer : ℕ) : Type 0 where
  same : (a : ℕ) → lookup xs a ≡ lookup ys a
  ordered : Ordered lo xs
  count : length xs + fewer ≡ length ys

Same-set_last_end :
    (lo start end prot : ℕ) (before ys : List Region)
    → merges_prev before start prot ≡ true
    → Ordered lo before
    → IsRegion (own start end prot)
    → Ordered end ys
    → Same lo (set_last_end end before ++ ys) (before ++ (own start end prot ∷ ys)) 1
unfolding merges_prev last? set_last_end
Same-set_last_end lo start end prot [] ys e o n p = absurd (ground (arith, e))
Same-set_last_end lo start end prot (r ∷ []) ys e (le, v, o) n p =
    let (joined, prots) : (r.end ≡ start) × (r.prot ≡ prot) = ground (arith, e) in
    record {
      same = λ a. ground (arith, joined, prots, v.nonempty, n.nonempty);
      ordered = (
        le,
        record {
          nonempty = omega (arith, joined, v.nonempty, n.nonempty);
          start_aligned = v.start_aligned;
          end_aligned = n.end_aligned;
          in_window = n.in_window;
        },
        p,
      );
      count = omega arith;
    }
Same-set_last_end lo start end prot (r ∷ s ∷ rs) ys e (le, v, o) n p =
    let rest = Same-set_last_end r.end start end prot (s ∷ rs) ys e o n p in
    record {
      same = λ a. ground (arith, rest.same a);
      ordered = (le, v, rest.ordered);
      count = omega (arith, rest.count);
    }

-- The same in the middle of a list.
Same-append :
    (lo fewer : ℕ) (before xs ys : List Region)
    → Ordered lo before
    → Same (last_end lo before) xs ys fewer
    → Same lo (before ++ xs) (before ++ ys) fewer
Same-append lo fewer [] xs ys o s = s
Same-append lo fewer (r ∷ rs) xs ys (le, v, o) s =
    let rest = Same-append r.end fewer rs xs ys o s in
    record {
      same = λ a. ground (arith, rest.same a);
      ordered = (le, v, rest.ordered);
      count = omega (arith, rest.count);
    }

Same-merges_next :
    (lo start end prot : ℕ) (after : List Region)
    → merges_next after end prot ≡ true
    → lo ≤ start
    → IsRegion (own start end prot)
    → Ordered end after
    → Same lo (set_first_start start after) (own start end prot ∷ after) 1
unfolding merges_next set_first_start
Same-merges_next lo start end prot [] e l n p = absurd (ground (arith, e))
Same-merges_next lo start end prot (r ∷ rs) e l n (le, v, o) =
    let (joined, prots) : (r.start ≡ end) × (r.prot ≡ prot) = ground (arith, e) in
    record {
      same = λ a. ground (arith, joined, prots, v.nonempty, n.nonempty);
      ordered = (
        l,
        record {
          nonempty = omega (arith, joined, v.nonempty, n.nonempty);
          start_aligned = n.start_aligned;
          end_aligned = v.end_aligned;
          in_window = v.in_window;
        },
        o,
      );
      count = omega arith;
    }

Same-own :
    (lo start end prot : ℕ) (after : List Region)
    → lo ≤ start
    → IsRegion (own start end prot)
    → Ordered end after
    → Same lo (own start end prot ∷ after) (own start end prot ∷ after) 0
Same-own lo start end prot after l n o = record {
  same = λ a. refl;
  ordered = (l, n, o);
  count = omega arith;
}

Same-trans :
    {lo n m : ℕ} {xs ys zs : List Region}
    → Same lo xs ys n
    → Same lo ys zs m
    → Same lo xs zs (n + m)
Same-trans s t = record {
  same = λ a. s.same a ∙ t.same a;
  ordered = s.ordered;
  count = omega (arith, s.count, t.count);
}

-- The range and its next neighbour as one region.
Same-next_end :
    (lo start end prot : ℕ) (after : List Region)
    → merges_next after end prot ≡ true
    → lo ≤ start
    → IsRegion (own start end prot)
    → Ordered end after
    → Same lo (own start (end_of_next after end) prot ∷ drop 1 after) (own start end prot ∷ after) 1
unfolding merges_next end_of_next
Same-next_end lo start end prot [] e l n p = absurd (ground (arith, e))
Same-next_end lo start end prot (r ∷ rs) e l n (le, v, o) =
    let (joined, prots) : (r.start ≡ end) × (r.prot ≡ prot) = ground (arith, e) in
    record {
      same = λ a. ground (arith, joined, prots, v.nonempty, n.nonempty);
      ordered = (
        l,
        record {
          nonempty = omega (arith, joined, v.nonempty, n.nonempty);
          start_aligned = n.start_aligned;
          end_aligned = v.end_aligned;
          in_window = v.in_window;
        },
        o,
      );
      count = omega arith;
    }

Same-both :
    (lo start end prot : ℕ) (before after : List Region)
    → merges_prev before start prot ≡ true
    → merges_next after end prot ≡ true
    → Ordered lo before
    → last_end lo before ≤ start
    → IsRegion (own start end prot)
    → Ordered end after
    → Same lo
        (set_last_end (end_of_next after end) before ++ drop 1 after)
        (before ++ (own start end prot ∷ after))
        2
Same-both lo start end prot before after e f o l n p =
    let e2 = end_of_next after end in
    let next = Same-next_end (last_end lo before) start end prot after f l n p in
    let (le, v, q) = next.ordered in
    Same-trans (Same-set_last_end lo start e2 prot before (drop 1 after) e o v q)
      (Same-append lo 1 before _ _ o next)

pub lookup-own :
    (lo start end prot a : ℕ) (before after : List Region)
    → Ordered lo before
    → last_end lo before ≤ start
    → lookup (before ++ (own start end prot ∷ after)) a
      ≡ (if leb start a && ltb a end then some prot else lookup (before ++ after) a)
lookup-own lo start end prot a [] after o l = refl
lookup-own lo start end prot a (r ∷ rs) after (le, v, o) l =
    ground (arith, lookup-own r.end start end prot a rs after o l, le-last_end r.end rs o, l)

length-own :
    (start end prot : ℕ) (before after : List Region)
    → length (before ++ (own start end prot ∷ after)) ≡ length (before ++ after) + 1
length-own start end prot [] after = omega arith
length-own start end prot (r ∷ rs) after = omega (arith, length-own start end prot rs after)

-- What `place` leaves: as a map, what the region of its own would give.
pub record Placed (lo start end prot : ℕ) (before after : List Region) (s : Space) : Type 0 where
  pub same : (a : ℕ) → lookup s.regions a ≡ lookup (before ++ (own start end prot ∷ after)) a
  pub ordered : Ordered lo s.regions
  pub count : s.region_count ≡ length s.regions
  pub count_le : s.region_count ≤ max_regions

Placed-Same :
    (lo start end prot fewer : ℕ) (before after : List Region) (s : Space)
    → Same lo s.regions (before ++ (own start end prot ∷ after)) fewer
    → (length s.regions + fewer ≡ length (before ++ after) + 1 → s.region_count ≡ length s.regions)
    → s.region_count ≤ max_regions
    → Placed lo start end prot before after s
Placed-Same lo start end prot fewer before after s h c l = record {
  same = h.same;
  ordered = h.ordered;
  count = c (h.count ∙ length-own start end prot before after);
  count_le = l;
}

pub Placed-place :
    (lo start end prot : ℕ) (before after : List Region) (s : Space)
    → Ordered lo before
    → last_end lo before ≤ start
    → IsRegion (own start end prot)
    → Ordered end after
    → s.region_count ≡ length (before ++ after)
    → s.region_count ≤ max_regions
    → ((merges_prev before start prot || merges_next after end prot) ≡ false
        → s.region_count < max_regions)
    → Placed lo start end prot before after (place before after start end prot s)
unfolding place
Placed-place lo start end prot before after s o l n p c m room =
    let at = last_end lo before in
    elim (Bool-cases (merges_prev before start prot)) [
      | inl e ↦ elim (Bool-cases (merges_next after end prot)) [
        | inl f ↦
            let both = Same-both lo start end prot before after e f o l n p in
            rw (e, f)
              (Placed-Same lo start end prot 2 before after _ both (λ h. omega (arith, h, c))
                (omega arith))
        | inr f ↦
            let joined = Same-set_last_end lo start end prot before after e o n p in
            rw (e, f)
              (Placed-Same lo start end prot 1 before after _ joined (λ h. omega (arith, h, c)) m)
      ]
      | inr e ↦ elim (Bool-cases (merges_next after end prot)) [
        | inl f ↦
            let joined =
              Same-append lo 1 before _ _ o (Same-merges_next at start end prot after f l n p) in
            rw (e, f)
              (Placed-Same lo start end prot 1 before after _ joined (λ h. omega (arith, h, c)) m)
        | inr f ↦
            let apart = Same-append lo 0 before _ _ o (Same-own at start end prot after l n p) in
            rw (e, f)
              (Placed-Same lo start end prot 0 before after _ apart (λ h. omega (arith, h, c))
                (omega (arith, room (rw (e, f) refl))))
      ]
    ]
