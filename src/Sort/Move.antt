-- ===== src/Sort/Move.antt =====
-- userspace/lib/sort.c: rearrangements of the first elements of an array, by bijections of the
-- indices. Every operation of the sort is one.
use hydrogen_os.Prelude.{
  ℕ, ◌+◌, ◌-◌, ◌≤◌, ◌<◌, ◌≡◌, ◌∙◌, refl, sym, subst, ap, ltb, if◌then◌else◌, Bool-cases, inl, inr,
  arith,
}
use hydrogen_os.Sort.{swap, at_offset}

-- `b` holds the elements of `a`: the one at `k` comes from `to k`. The indices from `n` on keep theirs.
pub record Rearranged {ℓ} {A : Type ℓ} (n : ℕ) (a b : ℕ → A) : Type ℓ where
  pub to : ℕ → ℕ
  pub from : ℕ → ℕ
  pub moved : (k : ℕ) → b k ≡ a (to k)
  pub inside : (k : ℕ) → k < n → to k < n
  pub outside : (k : ℕ) → n ≤ k → to k ≡ k
  pub from-to : (k : ℕ) → from (to k) ≡ k
  pub to-from : (k : ℕ) → to (from k) ≡ k

module _ {ℓ} {A : Type ℓ} where
  pub Rearranged-refl : (n : ℕ) (a : ℕ → A) → Rearranged n a a
  Rearranged-refl n a = record {
    to = λ k. k;
    from = λ k. k;
    moved = λ k. refl;
    inside = λ k h. h;
    outside = λ k h. refl;
    from-to = λ k. refl;
    to-from = λ k. refl;
  }

  pub Rearranged-trans :
      {n : ℕ} {a b c : ℕ → A} → Rearranged n a b → Rearranged n b c → Rearranged n a c
  Rearranged-trans {n} r s = record {
    to = λ k. r.to (s.to k);
    from = λ k. s.from (r.from k);
    moved = λ k. s.moved k ∙ r.moved (s.to k);
    inside = λ k h. r.inside (s.to k) (s.inside k h);
    outside =
        λ k h. r.outside (s.to k) (subst (λ t. n ≤ t) (sym (s.outside k h)) h) ∙ s.outside k h;
    from-to = λ k. ap s.from (r.from-to (s.to k)) ∙ s.from-to k;
    to-from = λ k. ap r.to (s.to-from (r.from k)) ∙ r.to-from k;
  }

  pub Rearranged-widen : {n m : ℕ} {a b : ℕ → A} → n ≤ m → Rearranged n a b → Rearranged m a b
  Rearranged-widen {n} {m} {a} {b} le r = record {
    to = r.to;
    from = r.from;
    moved = r.moved;
    inside = λ k h. elim (Bool-cases (ltb k n)) [
      | inl e ↦ omega (arith, r.inside k (ground (arith, e)))
      | inr e ↦ subst (λ t. t < m) (sym (r.outside k (ground (arith, e)))) h
    ];
    outside = λ k h. r.outside k (omega (arith, le, h));
    from-to = r.from-to;
    to-from = r.to-from;
  }

  pub Rearranged-swap : (n i j : ℕ) (a : ℕ → A) → i < n → j < n → Rearranged n a (swap i j a)
  Rearranged-swap n i j a hi hj =
      let at = swap i j (λ (k : ℕ). k) in
      record {
        to = at;
        from = at;
        moved = λ k. ground arith;
        inside = λ k h. ground arith;
        outside = λ k h. ground arith;
        from-to = λ k. ground arith;
        to-from = λ k. ground arith;
      }

  -- What a rearrangement does to the array from an offset on.
  pub Rearranged-at_offset :
      (n m offset : ℕ) (f : (ℕ → A) → ℕ → A) (a : ℕ → A)
      → offset + m ≤ n
      → Rearranged m (λ j. a (offset + j)) (f (λ j. a (offset + j)))
      → Rearranged n a (at_offset offset f a)
  Rearranged-at_offset n m offset f a le r = record {
    to = λ k. if ltb k offset then k else offset + r.to (k - offset);
    from = λ k. if ltb k offset then k else offset + r.from (k - offset);
    moved = λ k. ground (arith, r.moved (k - offset));
    inside = λ k h. ground (arith, r.inside (k - offset), r.outside (k - offset));
    outside = λ k h. ground (arith, r.outside (k - offset));
    from-to = λ k. ground (arith, r.from-to (k - offset), offset + r.to (k - offset) - offset);
    to-from = λ k. ground (arith, r.to-from (k - offset));
  }

  -- A property of all the first elements is kept.
  pub Rearranged-all {κ} :
      (P : A → Type κ) (n : ℕ) (a b : ℕ → A)
      → Rearranged n a b
      → ((k : ℕ) → k < n → P (a k))
      → (k : ℕ) → k < n
      → P (b k)
  Rearranged-all P n a b r h k l = subst P (sym (r.moved k)) (h (r.to k) (r.inside k l))
