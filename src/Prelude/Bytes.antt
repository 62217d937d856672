-- ===== src/Prelude/Bytes.antt =====
-- The bits of a byte, by a table over all bytes and bit numbers.
use Prim.Native.Nat.{ℕ, zero, suc, ◌-◌, ◌^◌, ◌<◌, bit_and, bit_or}
use mathlib.Core.Path.{◌≡◌, refl}
use mathlib.Core.Bool.{Bool, true, false, not, ◌&&◌}
use native.Mathlib.Omega.{arith}
use hydrogen_os.Prelude.Tests.{◌==◌, ltb, ltb→lt, if◌then◌else◌}

-- `byte & (1u << k)`, as a truth value.
unfoldable pub bit_at : ℕ → ℕ → Bool
bit_at b k = not (bit_and b (2 ^ k) == 0)

-- `byte |= 1u << k`
unfoldable pub bit_set : ℕ → ℕ → ℕ
bit_set b k = bit_or b (2 ^ k)

-- `byte &= ~(1u << k)`; the complement is that of a 32-bit word.
unfoldable pub bit_clear : ℕ → ℕ → ℕ
bit_clear b k = bit_and b (2 ^ 32 - 1 - 2 ^ k)

all_below : ℕ → (ℕ → Bool) → Bool
all_below zero p = true
all_below (suc n) p = p n && all_below n p

all_below-true : (n : ℕ) (p : ℕ → Bool) (x : ℕ) → all_below n p ≡ true → x < n → p x ≡ true
unfolding all_below
all_below-true zero p x h lt = absurd (omega arith)
all_below-true (suc n) p x h lt = ground (arith, all_below-true n p x)

bool_eq : Bool → Bool → Bool
bool_eq true b = b
bool_eq false b = not b

bool_eq-true : (a b : Bool) → bool_eq a b ≡ true → a ≡ b
unfolding bool_eq
bool_eq-true a b h = ground arith

bit_row : ℕ → ℕ → ℕ → Bool
unfolding bit_at bit_set bit_clear bool_eq
bit_row b i j =
    bool_eq (bit_at (bit_set b i) j) (if i == j then true else bit_at b j)
    && bool_eq (bit_at (bit_clear b i) j) (if i == j then false else bit_at b j)
    && ltb (bit_set b i) 256
    && ltb (bit_clear b i) 256

bit_table : all_below 256 (λ b. all_below 8 (λ i. all_below 8 (λ j. bit_row b i j))) ≡ true
unfolding all_below bit_row
bit_table = refl

bit_row-true : (b i j : ℕ) → b < 256 → i < 8 → j < 8 → bit_row b i j ≡ true
bit_row-true b i j hb hi hj =
    all_below-true 8 _ j (all_below-true 8 _ i (all_below-true 256 _ b bit_table hb) hi) hj

module _ (b i j : ℕ) (hb : b < 256) (hi : i < 8) (hj : j < 8) where
  pub bit_at-bit_set : bit_at (bit_set b i) j ≡ (if i == j then true else bit_at b j)
  unfolding bit_row
  bit_at-bit_set = bool_eq-true _ _ (ground (arith, bit_row-true b i j hb hi hj))

  pub bit_at-bit_clear : bit_at (bit_clear b i) j ≡ (if i == j then false else bit_at b j)
  unfolding bit_row
  bit_at-bit_clear = bool_eq-true _ _ (ground (arith, bit_row-true b i j hb hi hj))

pub bit_set-lt : (b i : ℕ) → b < 256 → i < 8 → bit_set b i < 256
unfolding bit_row
bit_set-lt b i hb hi = ltb→lt _ _ (ground (arith, bit_row-true b i 0 hb hi))

pub bit_clear-lt : (b i : ℕ) → b < 256 → i < 8 → bit_clear b i < 256
unfolding bit_row
bit_clear-lt b i hb hi = ltb→lt _ _ (ground (arith, bit_row-true b i 0 hb hi))
