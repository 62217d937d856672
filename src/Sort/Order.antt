-- ===== src/Sort/Order.antt =====
-- userspace/lib/sort.c: what qsort asks of the caller's comparison, and sorted arrays.
use hydrogen_os.Prelude.{ℕ, ◌≤◌, ◌<◌, ◌≡◌, ◌∙◌, refl, sym, true, false, Bool-cases, inl, inr, arith}
use hydrogen_os.Sort.{Sign, negative, null, positive, is_negative, is_positive}

-- A consistent comparison: exchanging the arguments turns the sign around, and "not above" is
-- transitive. Different elements may compare as equal.
pub record IsOrder {ℓ} {A : Type ℓ} (compare : A → A → Sign) : Type ℓ where
  pub flip : (x y : A) → is_positive (compare x y) ≡ is_negative (compare y x)
  pub trans :
      (x y z : A)
      → is_positive (compare x y) ≡ false
      → is_positive (compare y z) ≡ false
      → is_positive (compare x z) ≡ false

module _ {ℓ} {A : Type ℓ} (compare : A → A → Sign) where
  abbrev pub Le : A → A → Type 0
  Le x y = is_positive (compare x y) ≡ false

  -- The first `n` elements are in order.
  abbrev pub IsSorted : ℕ → (ℕ → A) → Type 0
  IsSorted n a = (p q : ℕ) → p ≤ q → q < n → Le (a p) (a q)

  module _ (order : IsOrder compare) where
    not_negative_lem : (s : Sign) → is_negative s ≡ true → is_positive s ≡ false
    not_negative_lem negative e = refl
    not_negative_lem null e = refl
    not_negative_lem positive e = absurd (ground (arith, e))

    pub Le-of_negative : (x y : A) → is_negative (compare x y) ≡ true → Le x y
    Le-of_negative x y e = not_negative_lem (compare x y) e

    pub Le-of_not_negative : (x y : A) → is_negative (compare x y) ≡ false → Le y x
    Le-of_not_negative x y e = order.flip y x ∙ e

    pub Le-of_positive : (x y : A) → is_positive (compare x y) ≡ true → Le y x
    Le-of_positive x y e = Le-of_negative y x (sym (order.flip x y) ∙ e)

    pub Le-refl : (x : A) → Le x x
    Le-refl x = elim (Bool-cases (is_positive (compare x x))) [
      | inr e ↦ e
      | inl e ↦ Le-of_positive x x e
    ]
