-- ===== src/Sort/Tests.antt =====
-- userspace/lib/sort.c: runs on arrays of numbers, compared by their last digits.
use hydrogen_os.Prelude.{
  ℕ, zero, suc, ◌%◌, ◌≡◌, refl, ltb, if◌then◌else◌, List, [], ◌∷◌, get_or, some, arith,
}
use hydrogen_os.Sort.{
  Sign, negative, null, positive, insertion_sort, heap_sort, partition, introsort, qsort, bsearch,
  insert_loop, insertion_loop, larger_child, sift_down, heapify, drain, scan_up, scan_down,
  partition_loop, bsearch_loop,
}
use hydrogen_os.Sort.Order.{IsOrder}
use hydrogen_os.Sort.Whole.{Sorts, Sorts-qsort}
use hydrogen_os.Sort.Search.{Descending, Found, Found-bsearch}

abbrev by_last_digit : ℕ → ℕ → Sign
by_last_digit x y =
    if ltb (x % 10) (y % 10) then negative else if ltb (y % 10) (x % 10) then positive else null

by_last_digit-IsOrder : IsOrder by_last_digit
by_last_digit-IsOrder = record {
  flip = λ x y. ground arith;
  trans = λ x y z e f. ground (arith, e, f);
}

abbrev numbers : ℕ → ℕ
numbers k =
    get_or (17 ∷ 23 ∷ 5 ∷ 9 ∷ 31 ∷ 2 ∷ 44 ∷ 18 ∷ 6 ∷ 50 ∷ 12 ∷ 3 ∷ 7 ∷ 28 ∷ 11 ∷ 39 ∷ 46 ∷ 20 ∷ [])
      k 99

abbrev first_digits : ℕ → (ℕ → ℕ) → List ℕ
first_digits zero a = []
first_digits (suc n) a = a 0 % 10 ∷ first_digits n (λ k. a (suc k))

-- A short array is sorted by insertion.
qsort_sorts : first_digits 6 (qsort by_last_digit 6 numbers) ≡ 1 ∷ 2 ∷ 3 ∷ 5 ∷ 7 ∷ 9 ∷ []
unfolding qsort introsort insertion_sort insertion_loop insert_loop
qsort_sorts = refl

-- The pivot 7 goes to index 3, between the smaller elements and the larger one.
partition_splits : (partition by_last_digit 5 numbers).0 ≡ 3
unfolding partition partition_loop scan_up scan_down
partition_splits = refl

-- With no budget left it is the heap sort.
heap_sort_sorts : first_digits 5 (heap_sort by_last_digit 5 numbers) ≡ 1 ∷ 3 ∷ 5 ∷ 7 ∷ 9 ∷ []
unfolding heap_sort heapify sift_down larger_child drain
heap_sort_sorts = refl

Sorts-qsort_example : Sorts by_last_digit 18 numbers (qsort by_last_digit 18 numbers)
Sorts-qsort_example = Sorts-qsort by_last_digit by_last_digit-IsOrder 18 numbers

-- The key 3 in 1, 3, 3, 5.
abbrev three : ℕ → Sign
three k = if ltb k 1 then positive else if ltb k 3 then null else negative

three-Descending : Descending 4 three
three-Descending = record { below = λ p q l u e. ground arith; above = λ p q l u e. ground arith }

bsearch_finds : bsearch 4 three ≡ some 2
unfolding bsearch bsearch_loop
bsearch_finds = refl

Found-bsearch_example : Found 4 three (bsearch 4 three)
Found-bsearch_example = Found-bsearch 4 three three-Descending
