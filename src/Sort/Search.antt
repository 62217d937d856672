-- ===== src/Sort/Search.antt =====
-- userspace/lib/sort.c, bsearch.
use hydrogen_os.Prelude.{
  ℕ, zero, suc, ◌+◌, ◌-◌, ◌/◌, ◌≤◌, ◌<◌, ◌≡◌, ◌≢◌, ◌∙◌, refl, sym, ap, ltb, Bool-cases, inl, inr,
  ◌⊎◌, Option, none, some, arith,
}
use hydrogen_os.Sort.{Sign, negative, null, positive, bsearch_loop, bsearch}

-- The order in which a sorted array meets a key: above some elements, then equal, then below.
pub record Descending (count : ℕ) (order : ℕ → Sign) : Type 0 where
  pub below : (p q : ℕ) → p ≤ q → q < count → order p ≡ negative → order q ≡ negative
  pub above : (p q : ℕ) → p ≤ q → q < count → order q ≡ positive → order p ≡ positive

Sign-cases : (s : Sign) → (s ≡ negative) ⊎ ((s ≡ null) ⊎ (s ≡ positive))
Sign-cases negative = inl refl
Sign-cases null = inr (inl refl)
Sign-cases positive = inr (inr refl)

-- What a search returns.
pub Found : ℕ → (ℕ → Sign) → Option ℕ → Type 0
Found count order r =
    ((m : ℕ) × (r ≡ some m) × (m < count) × (order m ≡ null))
    ⊎ ((r ≡ none) × ((k : ℕ) → k < count → order k ≢ null))

is_null : Sign → ℕ
is_null negative = 0
is_null null = 1
is_null positive = 2

negative_or_positive : (s : Sign) → (s ≡ negative) ⊎ (s ≡ positive) → s ≢ null
unfolding is_null
negative_or_positive s (inl e) n = absurd (omega (arith, ap is_null (sym e ∙ n)))
negative_or_positive s (inr e) n = absurd (omega (arith, ap is_null (sym e ∙ n)))

module _ (count : ℕ) (order : ℕ → Sign) (v : Descending count order) where
  Found-bsearch_loop :
      (fuel low high : ℕ)
      → high ≤ low + fuel
      → high ≤ count
      → ((k : ℕ) → k < low → k < count → order k ≡ positive)
      → ((k : ℕ) → high ≤ k → k < count → order k ≡ negative)
      → Found count order (bsearch_loop fuel order low high)
  unfolding bsearch_loop Found
  Found-bsearch_loop zero low high f h pos neg = inr (
    refl,
    λ k u. negative_or_positive (order k) (elim (Bool-cases (ltb k low)) [
      | inl e ↦ inr (pos k (ground (arith, e)) u)
      | inr e ↦ inl (neg k (ground (arith, e, f)) u)
    ]),
  )
  Found-bsearch_loop (suc fuel) low high f h pos neg =
      let middle = low + (high - low) / 2 in
      elim (Bool-cases (ltb low high)) [
        | inr e ↦ rw e (
            inr (
              refl,
              λ k u. negative_or_positive (order k) (elim (Bool-cases (ltb k low)) [
                | inl g ↦ inr (pos k (ground (arith, g)) u)
                | inr g ↦ inl (neg k (ground (arith, e, g)) u)
              ]),
            ))
        | inl e ↦
            let lt : low < high = ground (arith, e) in
            elim (Sign-cases (order middle)) [
              | inl g ↦
                  rw (e, g)
                    (Found-bsearch_loop fuel low middle (omega (arith, lt, f))
                      (omega (arith, lt, h)) pos (λ k l u. v.below middle k l u g))
              | inr (inl g) ↦ rw (e, g) (inl (middle, refl, omega (arith, lt, h), g))
              | inr (inr g) ↦
                  rw (e, g)
                    (Found-bsearch_loop fuel (middle + 1) high (omega (arith, lt, f)) h
                      (λ k l u. v.above k middle (omega (arith, l)) (omega (arith, lt, h)) g) neg)
            ]
      ]

  -- On an array sorted with respect to the key, `bsearch` returns the index of an element that
  -- compares as equal to the key; it returns null only when there is none.
  pub Found-bsearch : Found count order (bsearch count order)
  unfolding bsearch
  Found-bsearch =
      Found-bsearch_loop count 0 count (omega arith) (omega arith)
        (λ k l u. absurd (omega (arith, l))) (λ k l u. absurd (omega (arith, l, u)))
