-- ===== src/Sort/Whole.antt =====
-- userspace/lib/sort.c, introsort and qsort: the two parts of a partition, sorted one after the other.
use hydrogen_os.Prelude.{
  ℕ, zero, suc, ◌+◌, ◌-◌, ◌≤◌, ◌<◌, ◌≡◌, ◌∙◌, refl, sym, subst, ap, ltb, leb, ◌==◌, Bool-cases,
  nat_cases, inl, inr, arith,
}
use hydrogen_os.Sort.{
  Sign, at_offset, insertion_limit, insertion_sort, median_to_front, partition, introsort,
  budget_loop, qsort,
}
use hydrogen_os.Sort.Order.{IsOrder, Le, IsSorted, Le-refl}
use hydrogen_os.Sort.Move.{
  Rearranged, Rearranged-refl, Rearranged-trans, Rearranged-widen, Rearranged-at_offset,
  Rearranged-all,
}
use hydrogen_os.Sort.Insertion.{Rearranged-insertion_sort, IsSorted-insertion_sort}
use hydrogen_os.Sort.Heap.{Rearranged-heap_sort, IsSorted-heap_sort}
use hydrogen_os.Sort.Partition.{Rearranged-median_to_front, Partitioned, Partitioned-partition}

module _ {ℓ} {A : Type ℓ} (compare : A → A → Sign) where
  -- The first `n` elements are those of `a`, in order, and all others are where they were.
  pub record Sorts (n : ℕ) (a b : ℕ → A) : Type ℓ where
    pub sorted : IsSorted compare n b
    pub rearranged : Rearranged n a b

  module _ (order : IsOrder compare) (n pivot : ℕ) (x : A) where
    record Around (b : ℕ → A) : Type ℓ where
      at : b pivot ≡ x
      before : (k : ℕ) → k < pivot → Le compare (b k) x
      after : (k : ℕ) → pivot < k → k < n → Le compare x (b k)

    abbrev SortedAfter : (ℕ → A) → Type 0
    SortedAfter b = (p q : ℕ) → pivot < p → p ≤ q → q < n → Le compare (b p) (b q)

    Around-left : (b c : ℕ → A) → Rearranged pivot b c → Around b → Around c
    Around-left b c r v =
        let kept : (k : ℕ) → pivot ≤ k → c k ≡ b k = λ k h. r.moved k ∙ ap b (r.outside k h) in
        record {
          at = kept pivot (omega arith) ∙ v.at;
          before = Rearranged-all (λ y. Le compare y x) pivot b c r v.before;
          after = λ k l u.
              subst (λ y. Le compare x y) (sym (kept k (omega (arith, l)))) (v.after k l u);
        }

    SortedAfter-left : (b c : ℕ → A) → Rearranged pivot b c → SortedAfter b → SortedAfter c
    SortedAfter-left b c r s p q l le u =
        let kept : (k : ℕ) → pivot ≤ k → c k ≡ b k = λ k h. r.moved k ∙ ap b (r.outside k h) in
        rw (kept p (omega (arith, l)), kept q (omega (arith, l, le))) (s p q l le u)

    module _ (f : (ℕ → A) → ℕ → A) (b : ℕ → A)
        (s : Sorts (n - pivot - 1) (λ j. b (pivot + 1 + j)) (f (λ j. b (pivot + 1 + j)))) where
      Around-right : Around b → Around (at_offset (pivot + 1) f b)
      Around-right v =
          let m = n - pivot - 1 in
          let view : ℕ → A = λ j. b (pivot + 1 + j) in
          let after : (k : ℕ) → k < m → Le compare x (f view k) =
            Rearranged-all (λ y. Le compare x y) m view (f view) s.rearranged
              (λ k h. v.after (pivot + 1 + k) (omega arith) (omega (arith, h))) in
          record {
            at = ground (arith, v.at);
            before = λ k h. ground (arith, v.before k, h);
            after = λ k l u. ground (arith, after (k - (pivot + 1)), l, u);
          }

      IsSorted-right : IsSorted compare pivot b → IsSorted compare pivot (at_offset (pivot + 1) f b)
      IsSorted-right t p q le u = ground (arith, t p q, le, u)

      SortedAfter-right : SortedAfter (at_offset (pivot + 1) f b)
      SortedAfter-right p q l le u =
          ground (arith, s.sorted (p - (pivot + 1)) (q - (pivot + 1)), l, le, u)

    IsSorted-Around :
        (c : ℕ → A) → Around c → IsSorted compare pivot c → SortedAfter c → IsSorted compare n c
    IsSorted-Around c v left right p q le u =
        let at_pivot : (k : ℕ) → k ≡ pivot → c k ≡ x = λ k e. ap c e ∙ v.at in
        elim (Bool-cases (ltb q pivot)) [
          | inl e ↦ left p q le (ground (arith, e))
          | inr e ↦ elim (Bool-cases (ltb pivot p)) [
            | inl f ↦ right p q (ground (arith, f)) le u
            | inr f ↦
                let low : Le compare (c p) x = elim (nat_cases p pivot) [
                  | inl g ↦ rw (at_pivot p g) (Le-refl compare order x)
                  | inr g ↦ v.before p (ground (arith, f, g))
                ] in
                let high : Le compare x (c q) = elim (nat_cases q pivot) [
                  | inl g ↦ rw (at_pivot q g) (Le-refl compare order x)
                  | inr g ↦ v.after q (ground (arith, e, g)) u
                ] in
                order.trans (c p) x (c q) low high
          ]
        ]

module _ {ℓ} {A : Type ℓ} (compare : A → A → Sign) (order : IsOrder compare) where
  Sorts-trans :
      {n : ℕ} {a b c : ℕ → A} → Rearranged n a b → Sorts compare n b c → Sorts compare n a c
  Sorts-trans r s = record { sorted = s.sorted; rearranged = Rearranged-trans r s.rearranged }

  Sorts-zero : (a : ℕ → A) → Sorts compare 0 a a
  Sorts-zero a = record {
    sorted = λ p q le u. absurd (omega (arith, u));
    rearranged = Rearranged-refl 0 a;
  }

  -- The two parts of a partition, sorted in either order.
  module _ (n pivot : ℕ) (a b : ℕ → A) (f g : (ℕ → A) → ℕ → A)
      (part : Partitioned compare n pivot a b) (left : (c : ℕ → A) → Sorts compare pivot c (f c))
      (right : (c : ℕ → A) → Sorts compare (n - pivot - 1) c (g c)) where
    view : (ℕ → A) → ℕ → A
    view c j = c (pivot + 1 + j)

    start : Around compare order n pivot (b pivot) b
    start = record { at = refl; before = part.before; after = part.after }

    moved_right : (c : ℕ → A) → Rearranged n c (at_offset (pivot + 1) g c)
    moved_right c =
        Rearranged-at_offset n (n - pivot - 1) (pivot + 1) g c (omega (arith, part.inside))
          (right (λ j. c (pivot + 1 + j))).rearranged

    Sorts-left_first : Sorts compare n a (at_offset (pivot + 1) g (f b))
    Sorts-left_first =
        let x = b pivot in
        let around = Around-left compare order n pivot x b (f b) (left b).rearranged start in
        let s = right (λ j. f b (pivot + 1 + j)) in
        record {
          sorted =
              IsSorted-Around compare order n pivot x (at_offset (pivot + 1) g (f b))
                (Around-right compare order n pivot x g (f b) s around)
                (IsSorted-right compare order n pivot x g (f b) s (left b).sorted)
                (SortedAfter-right compare order n pivot x g (f b) s);
          rearranged = Rearranged-trans part.rearranged (
              Rearranged-trans (Rearranged-widen (omega (arith, part.inside)) (left b).rearranged)
                (moved_right (f b)));
        }

    Sorts-right_first : Sorts compare n a (f (at_offset (pivot + 1) g b))
    Sorts-right_first =
        let x = b pivot in
        let c = at_offset (pivot + 1) g b in
        let s = right (λ j. b (pivot + 1 + j)) in
        let l = left c in
        let around = Around-right compare order n pivot x g b s start in
        let after = SortedAfter-right compare order n pivot x g b s in
        record {
          sorted =
              IsSorted-Around compare order n pivot x (f c)
                (Around-left compare order n pivot x c (f c) l.rearranged around) l.sorted
                (SortedAfter-left compare order n pivot x c (f c) l.rearranged after);
          rearranged = Rearranged-trans part.rearranged (
              Rearranged-trans (moved_right b)
                (Rearranged-widen (omega (arith, part.inside)) l.rearranged));
        }

  Sorts-insertion_sort : (n : ℕ) (a : ℕ → A) → Sorts compare n a (insertion_sort compare n a)
  Sorts-insertion_sort n a = record {
    sorted = IsSorted-insertion_sort compare order n a;
    rearranged = Rearranged-insertion_sort compare n a;
  }

  Sorts-introsort :
      (fuel n budget : ℕ) (a : ℕ → A)
      → n ≤ fuel
      → Sorts compare n a (introsort compare fuel n budget a)
  unfolding introsort
  Sorts-introsort zero n budget a h =
      subst (λ m. Sorts compare m a a) {x = 0} {y = n} (omega arith) (Sorts-zero a)
  Sorts-introsort (suc fuel) n budget a h =
      let t = partition compare n (median_to_front compare n a) in
      let right_count = n - t.0 - 1 in
      elim (Bool-cases (leb n insertion_limit)) [
        | inl e ↦ rw e (Sorts-insertion_sort n a)
        | inr e ↦ elim (Bool-cases (budget == 0)) [
          | inl f ↦
              rw (e, f)
                (record {
                  sorted = IsSorted-heap_sort compare order n a (ground (arith, e));
                  rearranged = Rearranged-heap_sort compare n a (ground (arith, e));
                })
          | inr f ↦
              let pos : 0 < n = ground (arith, e) in
              let part = Partitioned-partition compare order n (median_to_front compare n a) pos in
              let left = λ (c : ℕ → A).
                Sorts-introsort fuel t.0 (budget - 1) c (omega (arith, part.inside, h)) in
              let right = λ (c : ℕ → A).
                Sorts-introsort fuel right_count (budget - 1) c (omega (arith, h, pos)) in
              let first = Rearranged-median_to_front compare n a pos in
              elim (Bool-cases (ltb t.0 right_count)) [
                | inl g ↦
                    rw (e, f, g)
                      (Sorts-trans first (Sorts-left_first n t.0 _ t.1 _ _ part left right))
                | inr g ↦
                    rw (e, f, g)
                      (Sorts-trans first (Sorts-right_first n t.0 _ t.1 _ _ part left right))
              ]
        ]
      ]

  -- For a comparison that is consistent, `qsort` leaves the first `count` elements in order; they are
  -- the elements that were there, moved by a bijection of their indices, and nothing else changes.
  pub Sorts-qsort : (count : ℕ) (a : ℕ → A) → Sorts compare count a (qsort compare count a)
  unfolding qsort
  Sorts-qsort count a = elim (Bool-cases (ltb count 2)) [
    | inr e ↦ rw e (Sorts-introsort count count (budget_loop count count) a (omega arith))
    | inl e ↦ rw e (record {
      sorted = λ p q le u. ground (arith, e, u, le, Le-refl compare order (a 0));
      rearranged = Rearranged-refl count a;
    })
  ]
