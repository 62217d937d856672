-- ===== src/Sort/Insertion.antt =====
-- userspace/lib/sort.c, insertion_sort.
use hydrogen_os.Prelude.{
  ℕ, zero, suc, ◌+◌, ◌-◌, ◌≤◌, ◌<◌, ◌≢◌, subst, Bool-cases, nat_cases, inl, inr, arith,
}
use hydrogen_os.Sort.{Sign, is_positive, swap, insert_loop, insertion_loop, insertion_sort}
use hydrogen_os.Sort.Order.{IsOrder, Le, IsSorted, Le-refl, Le-of_positive}
use hydrogen_os.Sort.Move.{Rearranged, Rearranged-refl, Rearranged-trans, Rearranged-swap}

module _ {ℓ} {A : Type ℓ} (compare : A → A → Sign) where
  Rearranged-insert_loop : (j n : ℕ) (a : ℕ → A) → j < n → Rearranged n a (insert_loop compare j a)
  unfolding insert_loop
  Rearranged-insert_loop zero n a h = Rearranged-refl n a
  Rearranged-insert_loop (suc j) n a h =
      elim (Bool-cases (is_positive (compare (a j) (a (suc j))))) [
        | inr e ↦ rw e (Rearranged-refl n a)
        | inl e ↦ rw e (
            Rearranged-trans (Rearranged-swap n j (suc j) a (omega arith) h)
              (Rearranged-insert_loop j n (swap j (suc j) a) (omega arith)))
      ]

  Rearranged-insertion_loop :
      (n i m : ℕ) (a : ℕ → A) → n + i ≤ m → Rearranged m a (insertion_loop compare n i a)
  unfolding insertion_loop
  Rearranged-insertion_loop zero i m a h = Rearranged-refl m a
  Rearranged-insertion_loop (suc n) i m a h =
      Rearranged-trans (Rearranged-insert_loop i m a (omega arith))
        (Rearranged-insertion_loop n (suc i) m (insert_loop compare i a) (omega arith))

  pub Rearranged-insertion_sort : (n : ℕ) (a : ℕ → A) → Rearranged n a (insertion_sort compare n a)
  unfolding insertion_sort insertion_loop
  Rearranged-insertion_sort zero a = Rearranged-refl 0 a
  Rearranged-insertion_sort (suc n) a =
      Rearranged-insertion_loop (suc n - 1) 1 (suc n) a (omega arith)

  module _ (order : IsOrder compare) where
    -- In order but for the element at `j`, which may stand too high.
    SortedBut : ℕ → ℕ → (ℕ → A) → Type 0
    SortedBut n j a = (p q : ℕ) → p < q → q < n → q ≢ j → Le compare (a p) (a q)

    SortedBut-swap :
        (n j : ℕ) (a : ℕ → A)
        → suc j < n
        → Le compare (a (suc j)) (a j)
        → SortedBut n (suc j) a
        → SortedBut n j (swap j (suc j) a)
    unfolding SortedBut
    SortedBut-swap n j a h le s p q l u other = elim (nat_cases q (suc j)) [
      | inl e ↦ elim (nat_cases p j) [
        | inl f ↦ ground (arith, e, f, le)
        | inr f ↦ ground (arith, e, f, l, s p j)
      ]
      | inr e ↦ elim (nat_cases p j) [
        | inl f ↦ ground (arith, e, f, l, u, other, s (suc j) q)
        | inr f ↦ elim (nat_cases p (suc j)) [
          | inl g ↦ ground (arith, e, f, g, l, u, other, s j q)
          | inr g ↦ ground (arith, e, f, g, l, u, other, s p q)
        ]
      ]
    ]

    IsSorted-insert_loop :
        (j n : ℕ) (a : ℕ → A)
        → j < n
        → SortedBut n j a
        → IsSorted compare n (insert_loop compare j a)
    unfolding insert_loop SortedBut
    IsSorted-insert_loop zero n a h s = λ p q le u. elim (nat_cases p q) [
      | inl e ↦ subst (λ t. Le compare (a p) (a t)) e (Le-refl compare order (a p))
      | inr e ↦ s p q (omega (arith, e, le)) u (omega (arith, e, le))
    ]
    IsSorted-insert_loop (suc j) n a h s =
        elim (Bool-cases (is_positive (compare (a j) (a (suc j))))) [
          | inl e ↦ rw e (
              IsSorted-insert_loop j n (swap j (suc j) a) (omega arith)
                (SortedBut-swap n j a h (Le-of_positive compare order (a j) (a (suc j)) e) s))
          | inr e ↦ rw e (λ p q le u. at_rest p q le u e)
        ]
      where
        at_rest : (p q : ℕ) → p ≤ q → q < n → Le compare (a j) (a (suc j)) → Le compare (a p) (a q)
        at_rest p q le u e = elim (nat_cases p q) [
          | inl f ↦ subst (λ t. Le compare (a p) (a t)) f (Le-refl compare order (a p))
          | inr f ↦ elim (nat_cases q (suc j)) [
            | inr g ↦ s p q (omega (arith, f, le)) u g
            | inl g ↦ elim (nat_cases p j) [
              | inl k ↦ ground (arith, g, k, e)
              | inr k ↦
                  let top =
                    order.trans (a p) (a j) (a (suc j))
                      (s p j (omega (arith, f, g, k, le)) (omega (arith, h)) (omega arith)) e in
                  ground (arith, g, top)
            ]
          ]
        ]

    SortedBut-IsSorted : (i : ℕ) (a : ℕ → A) → IsSorted compare i a → SortedBut (suc i) i a
    unfolding SortedBut
    SortedBut-IsSorted i a s p q l u other = s p q (omega arith) (omega arith)

    IsSorted-insertion_loop :
        (n i : ℕ) (a : ℕ → A)
        → IsSorted compare i a
        → IsSorted compare (n + i) (insertion_loop compare n i a)
    unfolding insertion_loop
    IsSorted-insertion_loop zero i a s = λ p q le u. s p q le (omega (arith, u))
    IsSorted-insertion_loop (suc n) i a s =
        let next : IsSorted compare (suc i) (insert_loop compare i a) =
          IsSorted-insert_loop i (suc i) a (omega arith) (SortedBut-IsSorted i a s) in
        λ p q le u.
          IsSorted-insertion_loop n (suc i) (insert_loop compare i a) next p q le (omega (arith, u))

    pub IsSorted-insertion_sort :
        (n : ℕ) (a : ℕ → A) → IsSorted compare n (insertion_sort compare n a)
    unfolding insertion_sort
    IsSorted-insertion_sort n a p q le u =
        IsSorted-insertion_loop (n - 1) 1 a
          (λ p q le u. ground (arith, Le-refl compare order (a 0))) p q le (omega (arith, u))
