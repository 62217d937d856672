-- ===== src/Sort.antt =====
-- userspace/lib/sort.c, qsort and bsearch. An array is a function from indices to elements, and a
-- pointer into it is a view of the array from that element on. `compare` is the caller's function;
-- only the sign of what it returns is used. Exchanging two elements chunk by chunk is one step here.
pub mod Order
pub mod Move
pub mod Insertion
pub mod Heap
pub mod Partition
pub mod Whole
pub mod Search
mod Tests
use hydrogen_os.Prelude.{
  ℕ, zero, suc, ◌+◌, ◌-◌, ◌*◌, ◌/◌, Bool, true, false, ◌&&◌, not, ltb, leb, ◌==◌, if◌then◌else◌,
  Option, none, some,
}

-- Below, equal to or above 0.
pub data Sign : Type 0 where
  negative null positive : Sign

abbrev pub is_negative : Sign → Bool
is_negative negative = true
is_negative null = false
is_negative positive = false

abbrev pub is_positive : Sign → Bool
is_positive negative = false
is_positive null = false
is_positive positive = true

abbrev pub insertion_limit : ℕ
insertion_limit = 16

-- What a function on arrays does to the array from index `offset` on.
abbrev pub at_offset {ℓ} : {A : Type ℓ} → ℕ → ((ℕ → A) → ℕ → A) → (ℕ → A) → ℕ → A
at_offset offset f a k = if ltb k offset then a k else f (λ j. a (offset + j)) (k - offset)

abbrev pub swap {ℓ} : {A : Type ℓ} → ℕ → ℕ → (ℕ → A) → ℕ → A
swap i j a k = if k == i then a j else if k == j then a i else a k

-- `for (size_t n = count; n > 1; n >>= 1) budget += 2;`
pub budget_loop : ℕ → ℕ → ℕ
budget_loop zero n = 0
budget_loop (suc fuel) n = let rest = budget_loop fuel (n / 2) in if ltb 1 n then rest + 2 else 0

module _ {ℓ} {A : Type ℓ} (compare : A → A → Sign) where
  -- The inner loop of `insertion_sort` at `j`.
  pub insert_loop : ℕ → (ℕ → A) → ℕ → A
  insert_loop zero a = a
  insert_loop (suc j) a =
      let rest = insert_loop j (swap j (suc j) a) in
      if is_positive (compare (a j) (a (suc j))) then rest else a

  -- The outer loop at `i` with `n` rounds left.
  pub insertion_loop : ℕ → ℕ → (ℕ → A) → ℕ → A
  insertion_loop zero i a = a
  insertion_loop (suc n) i a = insertion_loop n (suc i) (insert_loop i a)

  pub insertion_sort : ℕ → (ℕ → A) → ℕ → A
  insertion_sort count a = insertion_loop (count - 1) 1 a

  -- The child of `root` that `sift_down` compares it with.
  pub larger_child : ℕ → ℕ → (ℕ → A) → ℕ
  larger_child root count a =
      let child = 2 * root + 1 in
      if ltb (child + 1) count && is_negative (compare (a child) (a (child + 1)))
      then child + 1
      else child

  pub sift_down : ℕ → ℕ → ℕ → (ℕ → A) → ℕ → A
  sift_down zero root count a = a
  sift_down (suc fuel) root count a =
      let child = larger_child root count a in
      let rest = sift_down fuel child count (swap root child a) in
      if leb count (2 * root + 1)
      then a
      else if is_negative (compare (a root) (a child))
      then rest
      else a

  -- `for (size_t i = count / 2; i-- > 0;)`
  pub heapify : ℕ → ℕ → (ℕ → A) → ℕ → A
  heapify zero count a = a
  heapify (suc i) count a = heapify i count (sift_down count i count a)

  -- `for (size_t end = count - 1; end > 0; --end)`
  pub drain : ℕ → (ℕ → A) → ℕ → A
  drain zero a = a
  drain (suc end) a = drain end (sift_down (suc end) 0 (suc end) (swap 0 (suc end) a))

  pub heap_sort : ℕ → (ℕ → A) → ℕ → A
  heap_sort count a = drain (count - 1) (heapify (count / 2) count a)

  -- `if (compare(x, y) < 0) swap_elements(x, y)` for the elements at two indices
  pub order_pair : ℕ → ℕ → (ℕ → A) → ℕ → A
  order_pair x y a = if is_negative (compare (a x) (a y)) then swap x y a else a

  pub median_to_front : ℕ → (ℕ → A) → ℕ → A
  median_to_front count a =
      let middle = count / 2 in
      let last = count - 1 in
      let b = order_pair middle 0 a in
      let c =
        (if is_negative (compare (b last) (b middle))
          then order_pair middle 0 (swap last middle b)
          else b) in
      swap 0 middle c

  -- `do ++i; while (i < count && …)` from the incremented `i` on, with `n` elements left.
  pub scan_up : ℕ → ℕ → (ℕ → A) → ℕ
  scan_up zero i a = i
  scan_up (suc n) i a =
      let rest = scan_up n (suc i) a in if is_negative (compare (a i) (a 0)) then rest else i

  -- `do --j; while (j > 0 && …)` from the decremented `j` on.
  pub scan_down : ℕ → (ℕ → A) → ℕ
  scan_down zero a = zero
  scan_down (suc j) a =
      let rest = scan_down j a in if is_positive (compare (a (suc j)) (a 0)) then rest else suc j

  -- The loop of `partition`: the pivot's final index, and the array.
  pub partition_loop : ℕ → ℕ → ℕ → ℕ → (ℕ → A) → ℕ × (ℕ → A)
  partition_loop zero count i j a = (j, a)
  partition_loop (suc fuel) count i j a =
      let up = scan_up (count - suc i) (suc i) a in
      let down = scan_down (j - 1) a in
      let rest = partition_loop fuel count up down (swap up down a) in
      if leb down up then (down, swap 0 down a) else rest

  pub partition : ℕ → (ℕ → A) → ℕ × (ℕ → A)
  partition count a = partition_loop count count 0 count a

  -- The smaller part is sorted by the recursive call, the other by the next round of the loop.
  pub introsort : ℕ → ℕ → ℕ → (ℕ → A) → ℕ → A
  introsort zero count budget a = a
  introsort (suc fuel) count budget a =
      let (pivot, b) = partition count (median_to_front count a) in
      let right_count = count - pivot - 1 in
      let left = introsort fuel pivot (budget - 1) in
      let right = at_offset (pivot + 1) (introsort fuel right_count (budget - 1)) in
      if leb count insertion_limit
      then insertion_sort count a
      else if budget == 0
      then heap_sort count a
      else if ltb pivot right_count
      then right (left b)
      else left (right b)

  -- For a base that is not null and elements of at least one byte.
  pub qsort : ℕ → (ℕ → A) → ℕ → A
  qsort count a = if ltb count 2 then a else introsort count count (budget_loop count count) a

-- `order k` is the sign of `compare(key, items + k)`.
pub bsearch_loop : ℕ → (ℕ → Sign) → ℕ → ℕ → Option ℕ
bsearch_loop zero order low high = none
bsearch_loop (suc fuel) order low high =
    let middle = low + (high - low) / 2 in
    let below = bsearch_loop fuel order low middle in
    let above = bsearch_loop fuel order (middle + 1) high in
    if ltb low high
    then elim (order middle) [ negative ↦ below | positive ↦ above | null ↦ some middle ]
    else none

pub bsearch : ℕ → (ℕ → Sign) → Option ℕ
bsearch count order = bsearch_loop count order 0 count
