-- ===== src/Sort/Heap.antt =====
-- userspace/lib/sort.c, sift_down and heap_sort.
use hydrogen_os.Prelude.{
  ℕ, zero, suc, ◌+◌, ◌-◌, ◌*◌, ◌/◌, ◌≤◌, ◌<◌, ◌≡◌, ◌≢◌, ◌∙◌, sym, subst, ap, ◌&&◌, ltb, leb,
  Bool-cases, nat_cases, inl, inr, ◌⊎◌, arith,
}
use hydrogen_os.Sort.{Sign, is_negative, swap, larger_child, sift_down, heapify, drain, heap_sort}
use hydrogen_os.Sort.Order.{IsOrder, Le, IsSorted, Le-refl, Le-of_negative, Le-of_not_negative}
use hydrogen_os.Sort.Move.{
  Rearranged, Rearranged-refl, Rearranged-trans, Rearranged-widen, Rearranged-swap, Rearranged-all,
}

module _ {ℓ} {A : Type ℓ} (compare : A → A → Sign) where
  -- Every child that is inside, with a parent from `lo` on, is not above its parent.
  abbrev pub IsHeapFrom : ℕ → ℕ → (ℕ → A) → Type 0
  IsHeapFrom lo n a =
      (c : ℕ) → 0 < c → c < n → lo ≤ (c - 1) / 2 → Le compare (a c) (a ((c - 1) / 2))

  -- The same but for the children of `i`, whose children are not above `i`'s parent.
  record Sinking (lo n i : ℕ) (a : ℕ → A) : Type 0 where
    edges :
        (c : ℕ)
        → 0 < c
        → c < n
        → lo ≤ (c - 1) / 2
        → (c - 1) / 2 ≢ i
        → Le compare (a c) (a ((c - 1) / 2))
    bridged :
        (c : ℕ)
        → 0 < c
        → c < n
        → (c - 1) / 2 ≡ i
        → 0 < i
        → lo ≤ (i - 1) / 2
        → Le compare (a c) (a ((i - 1) / 2))

  record IsLargerChild (n i m : ℕ) (a : ℕ → A) : Type 0 where
    inside : m < n
    child : (m - 1) / 2 ≡ i
    below : i < m
    largest : (c : ℕ) → 0 < c → c < n → (c - 1) / 2 ≡ i → Le compare (a c) (a m)

  Rearranged-sift_down :
      (fuel root n : ℕ) (a : ℕ → A) → root < n → Rearranged n a (sift_down compare fuel root n a)
  unfolding sift_down larger_child
  Rearranged-sift_down zero root n a h = Rearranged-refl n a
  Rearranged-sift_down (suc fuel) root n a h =
      let child = larger_child compare root n a in
      elim (Bool-cases (leb n (2 * root + 1))) [
        | inl e ↦ rw e (Rearranged-refl n a)
        | inr e ↦ elim (Bool-cases (is_negative (compare (a root) (a child)))) [
          | inr f ↦ rw (e, f) (Rearranged-refl n a)
          | inl f ↦
              let inside : child < n = ground (arith, e) in
              rw (e, f)
                (Rearranged-trans (Rearranged-swap n root child a h inside)
                  (Rearranged-sift_down fuel child n (swap root child a) inside))
        ]
      ]

  Rearranged-heapify : (i n : ℕ) (a : ℕ → A) → i ≤ n → Rearranged n a (heapify compare i n a)
  unfolding heapify
  Rearranged-heapify zero n a h = Rearranged-refl n a
  Rearranged-heapify (suc i) n a h =
      Rearranged-trans (Rearranged-sift_down n i n a (omega arith))
        (Rearranged-heapify i n (sift_down compare n i n a) (omega arith))

  Rearranged-drain : (end n : ℕ) (a : ℕ → A) → end < n → Rearranged n a (drain compare end a)
  unfolding drain
  Rearranged-drain zero n a h = Rearranged-refl n a
  Rearranged-drain (suc end) n a h =
      let b = swap 0 (suc end) a in
      let sifted = Rearranged-sift_down (suc end) 0 (suc end) b (omega arith) in
      Rearranged-trans (Rearranged-swap n 0 (suc end) a (omega arith) h) (
        Rearranged-trans (Rearranged-widen (omega arith) sifted)
          (Rearranged-drain end n (sift_down compare (suc end) 0 (suc end) b) (omega arith)))

  pub Rearranged-heap_sort : (n : ℕ) (a : ℕ → A) → 0 < n → Rearranged n a (heap_sort compare n a)
  unfolding heap_sort
  Rearranged-heap_sort n a h =
      Rearranged-trans (Rearranged-heapify (n / 2) n a (omega arith))
        (Rearranged-drain (n - 1) n (heapify compare (n / 2) n a) (omega arith))

  module _ (order : IsOrder compare) where
    IsLargerChild-larger_child :
        (n i : ℕ) (a : ℕ → A) → 2 * i + 1 < n → IsLargerChild n i (larger_child compare i n a) a
    unfolding larger_child
    IsLargerChild-larger_child n i a h =
        let left = 2 * i + 1 in
        let bound : (c : ℕ) → 0 < c → (c - 1) / 2 ≡ i → (c ≡ left) ⊎ (c ≡ left + 1) =
          λ c p e. omega (arith, p, e) in
        elim (Bool-cases (ltb (left + 1) n && is_negative (compare (a left) (a (left + 1))))) [
          | inl e ↦
              let less = Le-of_negative compare order (a left) (a (left + 1)) (ground (arith, e)) in
              rw e (record {
                inside = ground (arith, e);
                child = omega arith;
                below = omega arith;
                largest = λ c p q r. elim (bound c p r) [
                  | inl s ↦ subst (λ t. Le compare (a t) (a (left + 1))) (sym s) less
                  | inr s ↦
                      subst (λ t. Le compare (a t) (a (left + 1))) (sym s)
                        (Le-refl compare order (a (left + 1)))
                ];
              })
          | inr e ↦ rw e (record {
            inside = h;
            child = omega arith;
            below = omega arith;
            largest = λ c p q r. elim (bound c p r) [
              | inl s ↦
                  subst (λ t. Le compare (a t) (a left)) (sym s) (Le-refl compare order (a left))
              | inr s ↦
                  let more =
                    Le-of_not_negative compare order (a left) (a (left + 1))
                      (ground (arith, e, q, s)) in
                  subst (λ t. Le compare (a t) (a left)) (sym s) more
            ];
          })
        ]

    Sinking-swap :
        (lo n i m : ℕ) (a : ℕ → A)
        → Sinking lo n i a
        → IsLargerChild n i m a
        → lo ≤ i
        → Le compare (a i) (a m)
        → Sinking lo n m (swap i m a)
    Sinking-swap lo n i m a v s l le =
        let child = s.child in
        let below = s.below in
        record {
          edges = λ c p q r t. ground (
            arith,
            v.edges c,
            v.bridged m,
            s.largest c,
            s.inside,
            child,
            below,
            l,
            le,
            p,
            q,
            r,
            t,
          );
          bridged = λ c p q r t u. ground (arith, v.edges c, child, below, l, p, q, r);
        }

    IsHeapFrom-sift_down :
        (fuel lo n i : ℕ) (a : ℕ → A)
        → n ≤ fuel + i
        → lo ≤ i
        → i < n
        → Sinking lo n i a
        → IsHeapFrom lo n (sift_down compare fuel i n a)
    unfolding sift_down
    IsHeapFrom-sift_down zero lo n i a f l h v = absurd (omega arith)
    IsHeapFrom-sift_down (suc fuel) lo n i a f l h v =
        let m = larger_child compare i n a in
        elim (Bool-cases (leb n (2 * i + 1))) [
          | inl e ↦ rw e (λ c p q r. v.edges c p q r (ground (arith, e, p, q)))
          | inr e ↦
              let s = IsLargerChild-larger_child n i a (ground (arith, e)) in
              elim (Bool-cases (is_negative (compare (a i) (a m)))) [
                | inl g ↦
                    rw (e, g)
                      (IsHeapFrom-sift_down fuel lo n m (swap i m a) (omega (arith, s.below, f))
                        (omega (arith, s.below)) s.inside
                        (Sinking-swap lo n i m a v s l
                          (Le-of_negative compare order (a i) (a m) g)))
                | inr g ↦
                    let top = Le-of_not_negative compare order (a i) (a m) g in
                    rw (e, g)
                      (λ c p q r. elim (nat_cases ((c - 1) / 2) i) [
                        | inr t ↦ v.edges c p q r t
                        | inl t ↦
                            subst (λ x. Le compare (a c) (a x)) (sym t)
                              (order.trans (a c) (a m) (a i) (s.largest c p q t) top)
                      ])
              ]
        ]

    root_greatest :
        (k n i : ℕ) (a : ℕ → A) → IsHeapFrom 0 n a → i < k → i < n → Le compare (a i) (a 0)
    root_greatest zero n i a h f l = absurd (omega arith)
    root_greatest (suc k) n zero a h f l = Le-refl compare order (a 0)
    root_greatest (suc k) n (suc i) a h f l =
        let up = i / 2 in
        order.trans (a (suc i)) (a up) (a 0) (ground (arith, h (suc i), l))
          (root_greatest k n up a h (omega (arith, f)) (omega (arith, l)))

    IsHeapFrom-heapify :
        (i n : ℕ) (a : ℕ → A) → i ≤ n → IsHeapFrom i n a → IsHeapFrom 0 n (heapify compare i n a)
    unfolding heapify
    IsHeapFrom-heapify zero n a l h = h
    IsHeapFrom-heapify (suc i) n a l h =
        let v : Sinking i n i a = record {
          edges = λ c p q r t. h c p q (omega (arith, r, t));
          bridged = λ c p q r t u. absurd (omega (arith, t, u));
        } in
        IsHeapFrom-heapify i n (sift_down compare n i n a) (omega arith)
          (IsHeapFrom-sift_down n i n i a (omega arith) (omega arith) (omega arith) v)

    -- The elements after `end` are in order, and none of those up to it is above them.
    abbrev Drained : ℕ → ℕ → (ℕ → A) → Type 0
    Drained end n a = (p q : ℕ) → p ≤ q → end < q → q < n → Le compare (a p) (a q)

    module _ (end n : ℕ) (a : ℕ → A) (h : IsHeapFrom 0 (suc (suc end)) a) where
      Sinking-root : Sinking 0 (suc end) 0 (swap 0 (suc end) a)
      Sinking-root = record {
        edges = λ c p q r t. ground (arith, h c, p, q, t);
        bridged = λ c p q r t u. absurd (omega (arith, t));
      }

      Drained-sift_down :
          Drained (suc end) n a
          → Drained end n (sift_down compare (suc end) 0 (suc end) (swap 0 (suc end) a))
      Drained-sift_down t p q le l u =
          let b = swap 0 (suc end) a in
          let c = sift_down compare (suc end) 0 (suc end) b in
          let r = Rearranged-sift_down (suc end) 0 (suc end) b (omega arith) in
          let last : (k : ℕ) → end < k → c k ≡ b k =
            λ k m. r.moved k ∙ ap b (r.outside k (omega (arith, m))) in
          let greatest : (k : ℕ) → k ≤ suc end → Le compare (a k) (a 0) = λ k m.
            root_greatest (suc (suc end)) (suc (suc end)) k a h (omega (arith, m))
              (omega (arith, m)) in
          let above : (x : A)
              → ((k : ℕ) → k ≤ suc end → Le compare (a k) x)
              → (k : ℕ) → k ≤ end
              → Le compare (c k) x =
            λ x f k m.
              Rearranged-all (λ y. Le compare y x) (suc end) b c r
                (λ j s. ground (arith, f (suc end), f j, s)) k (omega (arith, m)) in
          elim (nat_cases p q) [
            | inl e ↦ subst (λ j. Le compare (c p) (c j)) e (Le-refl compare order (c p))
            | inr e ↦
                subst (λ y. Le compare (c p) y) (sym (last q l))
                  (elim (nat_cases q (suc end)) [
                    | inl f ↦
                        let root : b q ≡ a 0 = ground (arith, f) in
                        subst (λ y. Le compare (c p) y) (sym root)
                          (above (a 0) greatest p (omega (arith, e, f, le)))
                    | inr f ↦
                        let kept : b q ≡ a q = ground (arith, f, l) in
                        let tail : (k : ℕ) → k ≤ q → Le compare (a k) (a q) =
                          λ k m. t k q m (omega (arith, f, l)) u in
                        subst (λ y. Le compare (c p) y) (sym kept)
                          (elim (Bool-cases (leb p end)) [
                            | inl g ↦
                                above (a q) (λ k m. tail k (omega (arith, f, l, m))) p
                                  (ground (arith, g))
                            | inr g ↦
                                subst (λ x. Le compare x (a q)) (sym (last p (ground (arith, g))))
                                  (ground (arith, g, tail 0, tail p, tail (suc end), f, l, le))
                          ])
                  ])
          ]

    IsSorted-drain :
        (end n : ℕ) (a : ℕ → A)
        → end < n
        → IsHeapFrom 0 (suc end) a
        → Drained end n a
        → IsSorted compare n (drain compare end a)
    unfolding drain
    IsSorted-drain zero n a l h t = λ p q le u. elim (nat_cases p q) [
      | inl e ↦ subst (λ j. Le compare (a p) (a j)) e (Le-refl compare order (a p))
      | inr e ↦ t p q le (omega (arith, e, le)) u
    ]
    IsSorted-drain (suc end) n a l h t =
        let b = swap 0 (suc end) a in
        IsSorted-drain end n (sift_down compare (suc end) 0 (suc end) b) (omega arith)
          (IsHeapFrom-sift_down (suc end) 0 (suc end) 0 b (omega arith) (omega arith) (omega arith)
            (Sinking-root end n a h))
          (Drained-sift_down end n a h t)

    pub IsSorted-heap_sort :
        (n : ℕ) (a : ℕ → A) → 0 < n → IsSorted compare n (heap_sort compare n a)
    unfolding heap_sort
    IsSorted-heap_sort n a h =
        let heap =
          IsHeapFrom-heapify (n / 2) n a (omega arith)
            (λ c p q r. absurd (omega (arith, p, q, r))) in
        IsSorted-drain (n - 1) n (heapify compare (n / 2) n a) (omega arith)
          (λ c p q r. heap c p (omega (arith, q, h)) r) (λ p q le l u. absurd (omega (arith, l, u)))
