-- ===== src/Sort/Partition.antt =====
-- userspace/lib/sort.c, median_to_front and partition.
use hydrogen_os.Prelude.{
  ℕ, zero, suc, ◌+◌, ◌-◌, ◌/◌, ◌≤◌, ◌<◌, subst, leb, Bool-cases, nat_cases, inl, inr, arith,
}
use hydrogen_os.Sort.{
  Sign, is_negative, is_positive, swap, order_pair, median_to_front, scan_up, scan_down,
  partition_loop, partition,
}
use hydrogen_os.Sort.Order.{IsOrder, Le, Le-of_negative, Le-of_not_negative, Le-of_positive}
use hydrogen_os.Sort.Move.{Rearranged, Rearranged-refl, Rearranged-trans, Rearranged-swap}

module _ {ℓ} {A : Type ℓ} (compare : A → A → Sign) where
  Rearranged-order_pair :
      (n x y : ℕ) (a : ℕ → A) → x < n → y < n → Rearranged n a (order_pair compare x y a)
  unfolding order_pair
  Rearranged-order_pair n x y a hx hy = elim (Bool-cases (is_negative (compare (a x) (a y)))) [
    | inl e ↦ rw e (Rearranged-swap n x y a hx hy)
    | inr e ↦ rw e (Rearranged-refl n a)
  ]

  pub Rearranged-median_to_front :
      (n : ℕ) (a : ℕ → A) → 0 < n → Rearranged n a (median_to_front compare n a)
  unfolding median_to_front
  Rearranged-median_to_front n a h =
      let middle = n / 2 in
      let last = n - 1 in
      let b = order_pair compare middle 0 a in
      let first = Rearranged-order_pair n middle 0 a (omega (arith, h)) h in
      elim (Bool-cases (is_negative (compare (b last) (b middle)))) [
        | inl e ↦
            let c = swap last middle b in
            rw e (
              Rearranged-trans first (
                Rearranged-trans
                  (Rearranged-swap n last middle b (omega (arith, h)) (omega (arith, h)))
                  (Rearranged-trans (Rearranged-order_pair n middle 0 c (omega (arith, h)) h) (
                    Rearranged-swap n 0 middle (order_pair compare middle 0 c) h
                      (omega (arith, h))))))
        | inr e ↦ rw e (Rearranged-trans first (Rearranged-swap n 0 middle b h (omega (arith, h))))
      ]

  record ScannedUp (n i u : ℕ) (a : ℕ → A) : Type 0 where
    from : i ≤ u
    to : u ≤ i + n
    passed : (k : ℕ) → i ≤ k → k < u → Le compare (a k) (a 0)
    at_rest : u < i + n → Le compare (a 0) (a u)

  record ScannedDown (j d : ℕ) (a : ℕ → A) : Type 0 where
    from : d ≤ j
    passed : (k : ℕ) → d < k → k ≤ j → Le compare (a 0) (a k)
    at_rest : 0 < d → Le compare (a d) (a 0)

  -- The pivot stands at its index, with nothing above it before and nothing below it after.
  pub record Partitioned (n pivot : ℕ) (a b : ℕ → A) : Type ℓ where
    pub inside : pivot < n
    pub before : (k : ℕ) → k < pivot → Le compare (b k) (b pivot)
    pub after : (k : ℕ) → pivot < k → k < n → Le compare (b pivot) (b k)
    pub rearranged : Rearranged n a b

  module _ (order : IsOrder compare) where
    ScannedUp-scan_up : (n i : ℕ) (a : ℕ → A) → ScannedUp n i (scan_up compare n i a) a
    unfolding scan_up
    ScannedUp-scan_up zero i a = record {
      from = omega arith;
      to = omega arith;
      passed = λ k l u. absurd (omega (arith, l, u));
      at_rest = λ u. absurd (omega (arith, u));
    }
    ScannedUp-scan_up (suc n) i a =
        let rest = ScannedUp-scan_up n (suc i) a in
        elim (Bool-cases (is_negative (compare (a i) (a 0)))) [
          | inr e ↦ rw e (record {
            from = omega arith;
            to = omega arith;
            passed = λ k l u. absurd (omega (arith, l, u));
            at_rest = λ u. Le-of_not_negative compare order (a i) (a 0) e;
          })
          | inl e ↦
              let here = Le-of_negative compare order (a i) (a 0) e in
              rw e (record {
                from = omega (arith, rest.from);
                to = omega (arith, rest.to);
                passed = λ k l u. elim (nat_cases i k) [
                  | inl f ↦ subst (λ t. Le compare (a t) (a 0)) f here
                  | inr f ↦ rest.passed k (omega (arith, f, l)) u
                ];
                at_rest = λ u. rest.at_rest (omega (arith, u));
              })
        ]

    ScannedDown-scan_down : (j : ℕ) (a : ℕ → A) → ScannedDown j (scan_down compare j a) a
    unfolding scan_down
    ScannedDown-scan_down zero a = record {
      from = omega arith;
      passed = λ k l u. absurd (omega (arith, l, u));
      at_rest = λ u. absurd (omega (arith, u));
    }
    ScannedDown-scan_down (suc j) a =
        let rest = ScannedDown-scan_down j a in
        elim (Bool-cases (is_positive (compare (a (suc j)) (a 0)))) [
          | inr e ↦ rw e (record {
            from = omega arith;
            passed = λ k l u. absurd (omega (arith, l, u));
            at_rest = λ u. e;
          })
          | inl e ↦
              let here = Le-of_positive compare order (a (suc j)) (a 0) e in
              rw e (record {
                from = omega (arith, rest.from);
                passed = λ k l u. elim (nat_cases (suc j) k) [
                  | inl f ↦ subst (λ t. Le compare (a 0) (a t)) f here
                  | inr f ↦ rest.passed k l (omega (arith, f, u))
                ];
                at_rest = rest.at_rest;
              })
        ]

    -- The elements up to `i` are not above the pivot, those from `j` on are not below it.
    record Narrowed (n i j : ℕ) (a : ℕ → A) : Type 0 where
      apart : i < j
      inside : j ≤ n
      low : (k : ℕ) → 0 < k → k ≤ i → Le compare (a k) (a 0)
      high : (k : ℕ) → j ≤ k → k < n → Le compare (a 0) (a k)

    Partitioned-partition_loop :
        (fuel n i j : ℕ) (a : ℕ → A)
        → j ≤ fuel
        → Narrowed n i j a
        → let t = partition_loop compare fuel n i j a in Partitioned n t.0 a t.1
    unfolding partition_loop
    Partitioned-partition_loop zero n i j a f v = absurd (omega (arith, f, v.apart))
    Partitioned-partition_loop (suc fuel) n i j a f v =
        let u = scan_up compare (n - suc i) (suc i) a in
        let d = scan_down compare (j - 1) a in
        let up = ScannedUp-scan_up (n - suc i) (suc i) a in
        let down = ScannedDown-scan_down (j - 1) a in
        let apart = v.apart in
        let inside = v.inside in
        let low : (k : ℕ) → 0 < k → k < u → Le compare (a k) (a 0) = λ k l h.
          elim (Bool-cases (leb k i)) [
            | inl e ↦ v.low k l (ground (arith, e))
            | inr e ↦ up.passed k (ground (arith, e)) h
          ] in
        let high : (k : ℕ) → d < k → k < n → Le compare (a 0) (a k) = λ k l h.
          elim (Bool-cases (leb j k)) [
            | inl e ↦ v.high k (ground (arith, e)) h
            | inr e ↦ down.passed k l (ground (arith, e, apart))
          ] in
        elim (Bool-cases (leb d u)) [
          | inl e ↦ rw e (record {
            inside = omega (arith, down.from, apart, inside);
            before = λ k l. ground (arith, low k, down.at_rest, e, l);
            after = λ k l h. ground (arith, high k, l, h);
            rearranged =
                Rearranged-swap n 0 d a (omega (arith, apart, inside))
                  (omega (arith, down.from, apart, inside));
          })
          | inr e ↦
              let b = swap u d a in
              let lt : u < d = ground (arith, e) in
              let next : Narrowed n u d b = record {
                apart = lt;
                inside = omega (arith, down.from, inside);
                low = λ k l h. ground (arith, low k, down.at_rest, lt, up.from, l, h);
                high = λ k l h.
                    ground (arith, high k, up.at_rest, lt, up.from, down.from, inside, l, h);
              } in
              let rest =
                Partitioned-partition_loop fuel n u d b (omega (arith, down.from, f, apart)) next in
              rw e (record {
                inside = rest.inside;
                before = rest.before;
                after = rest.after;
                rearranged =
                    Rearranged-trans
                      (Rearranged-swap n u d a (omega (arith, lt, down.from, inside))
                        (omega (arith, down.from, apart, inside)))
                      rest.rearranged;
              })
        ]

    pub Partitioned-partition :
        (n : ℕ) (a : ℕ → A)
        → 0 < n
        → Partitioned n (partition compare n a).0 a (partition compare n a).1
    unfolding partition
    Partitioned-partition n a h = Partitioned-partition_loop n n 0 n a (omega arith) (record {
      apart = h;
      inside = omega arith;
      low = λ k l u. absurd (omega (arith, l, u));
      high = λ k l u. absurd (omega (arith, l, u));
    })
