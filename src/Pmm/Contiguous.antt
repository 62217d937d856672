-- ===== src/Pmm/Contiguous.antt =====
-- kernel/mm/pmm.c: `pmm_alloc_contiguous` is a first fit over runs of free pages.
use hydrogen_os.Prelude.{
  ℕ, zero, suc, ◌+◌, ◌-◌, ◌*◌, ◌≤◌, ◌<◌, ◌≡◌, refl, ◌≢◌, ◌⊎◌, true, false, arith, ltb, ◌==◌,
  if◌then◌else◌, inl, inr, Bool-cases, lt_cases, nat_cases, eq→==, ne→==,
}
use hydrogen_os.Pmm.{
  Pmm, max_pages, page_size, test_bit, set_range, contiguous_scan, alloc_contiguous,
}
use hydrogen_os.Pmm.Bits.{
  IsValid, within, test_bit-set_range, set_range-AreBytes, first_free_hint-set_range,
}

-- Some page of the run of `pages` pages from `s` on is in use.
abbrev pub Blocked : Pmm → ℕ → ℕ → Type 0
Blocked p pages s = (j : ℕ) × (s ≤ j) × (j < s + pages) × (test_bit j p ≡ true)

abbrev pub FreeRun : Pmm → ℕ → ℕ → Type 0
FreeRun p pages s = (j : ℕ) → s ≤ j → j < s + pages → test_bit j p ≡ false

-- `r` returns the run from `s` on: it was free, no earlier run was, and it alone is marked.
pub record RunTaken (p : Pmm) (pages s : ℕ) (r : ℕ × Pmm) : Type 0 where
  pub address : r.0 ≡ s * page_size
  pub in_range : s + pages ≤ max_pages
  pub was_free : FreeRun p pages s
  pub first : (t : ℕ) → t < s → Blocked p pages t
  pub bits : (j : ℕ) → test_bit j r.1 ≡ (if within s pages j then true else test_bit j p)
  pub valid : IsValid r.1

pub record NoRun (p : Pmm) (pages : ℕ) (r : ℕ × Pmm) : Type 0 where
  pub address : r.0 ≡ 0
  pub full : (s : ℕ) → s + pages ≤ max_pages → Blocked p pages s
  pub same : r.1 ≡ p

-- What the loop knows before page `i`: the current run is `[i - run_len, i)`.
record Scanned (p : Pmm) (pages i run_start run_len : ℕ) : Type 0 where
  short : run_len < pages
  run_le : run_len ≤ i
  start : run_len ≢ 0 → run_start + run_len ≡ i
  free : (j : ℕ) → i ≤ j + run_len → j < i → test_bit j p ≡ false
  edge : (i ≡ run_len) ⊎ (test_bit (i - run_len - 1) p ≡ true)
  before : (s : ℕ) → s + pages ≤ i → Blocked p pages s

module _ {p : Pmm} {pages i run_start run_len : ℕ} (k : Scanned p pages i run_start run_len) where
  after_used : test_bit i p ≡ true → Scanned p pages (i + 1) run_start 0
  after_used used = record {
    short = omega (arith, k.short);
    run_le = omega arith;
    start = λ ne. absurd (ne refl);
    free = λ j a b. absurd (omega arith);
    edge = inr (let e : i + 1 - 0 - 1 ≡ i = omega arith in ground arith);
    before = λ s h. elim (lt_cases i (s + pages)) [
      | inl lt ↦ (i, omega (arith, k.short), lt, used)
      | inr ge ↦ k.before s ge
    ];
  }

  ending_here : (s : ℕ) → run_len + 1 ≢ pages → s + pages ≡ i + 1 → Blocked p pages s
  ending_here s more e = elim k.edge [
    | inl all ↦ absurd (omega (arith, k.short))
    | inr used ↦ (i - run_len - 1, omega (arith, k.short), omega (arith, k.short), used)
  ]

  after_free :
      test_bit i p ≡ false
      → run_len + 1 ≢ pages
      → Scanned p pages (i + 1) (if run_len == 0 then i else run_start) (run_len + 1)
  after_free free more = record {
    short = omega (arith, k.short);
    run_le = omega (arith, k.run_le);
    start = λ _. ground (arith, k.start);
    free = λ j a b. elim (lt_cases j i) [
      | inl lt ↦ k.free j (omega arith) lt
      | inr ge ↦ (let e : j ≡ i = omega arith in ground arith)
    ];
    edge = elim k.edge [
      | inl all ↦ inl (omega arith)
      | inr used ↦
          inr (let e : i + 1 - (run_len + 1) - 1 ≡ i - run_len - 1 = omega arith in rw e used)
    ];
    before = λ s h. elim (lt_cases i (s + pages)) [
      | inl lt ↦ ending_here s more (omega arith)
      | inr ge ↦ k.before s ge
    ];
  }

  found :
      IsValid p
      → i < max_pages
      → test_bit i p ≡ false
      → run_len + 1 ≡ pages
      → let s = (if run_len == 0 then i else run_start) in
        RunTaken p pages s (s * page_size, set_range pages s p)
  found v lt free e =
      let s : ℕ = (if run_len == 0 then i else run_start) in
      let ends : s + pages ≡ i + 1 = ground (arith, k.start) in
      record {
        address = refl;
        in_range = omega arith;
        was_free = λ j a b. elim (lt_cases j i) [
          | inl l ↦ k.free j (omega arith) l
          | inr ge ↦ (let same : j ≡ i = omega arith in ground arith)
        ];
        first = λ t l. k.before t (omega arith);
        bits = λ j. test_bit-set_range pages s j p v.bytes;
        valid = record {
          bytes = set_range-AreBytes pages s p v.bytes;
          hint_le = omega (arith, first_free_hint-set_range pages s p, v.hint_le);
          below = λ j hj. ground (
            arith,
            test_bit-set_range pages s j p v.bytes,
            first_free_hint-set_range pages s p,
            v.below j,
          );
        };
      }

contiguous_scan_lem :
    (n i : ℕ) {pages run_start run_len : ℕ} {p : Pmm}
    → IsValid p
    → Scanned p pages i run_start run_len
    → i + n ≡ max_pages
    → ((s : ℕ) × RunTaken p pages s (contiguous_scan n i pages run_start run_len p))
      ⊎ NoRun p pages (contiguous_scan n i pages run_start run_len p)
unfolding contiguous_scan
contiguous_scan_lem zero i v k e =
    inr (record { address = refl; full = λ s h. k.before s (omega arith); same = refl })
contiguous_scan_lem (suc n) i {pages} {run_start} {run_len} {p} v k e =
    elim (Bool-cases (test_bit i p)) [
      | inl used ↦ rw used (contiguous_scan_lem n (i + 1) v (after_used k used) (omega arith))
      | inr free ↦ rw free (elim (nat_cases (run_len + 1) pages) [
        | inl full ↦
            rw (eq→== _ _ full)
              (inl ((if run_len == 0 then i else run_start), found k v (omega arith) free full))
        | inr more ↦
            rw (ne→== _ _ more)
              (contiguous_scan_lem n (i + 1) v (after_free k free more) (omega arith))
      ])
    ]

-- For 1 to PMM_MAX_PAGES pages `pmm_alloc_contiguous` returns the lowest run of free pages of that
-- length and marks exactly it, the state staying valid; it refuses with 0, changing nothing, only
-- when every run of that length has a page in use.
pub alloc_contiguous-first_fit :
    (pages : ℕ) (p : Pmm)
    → IsValid p
    → 0 < pages
    → pages ≤ max_pages
    → ((s : ℕ) × RunTaken p pages s (alloc_contiguous pages p))
      ⊎ NoRun p pages (alloc_contiguous pages p)
unfolding alloc_contiguous
alloc_contiguous-first_fit pages p v pos le =
    let ne : (pages == 0) ≡ false = ground arith in
    let ok : ltb max_pages pages ≡ false = ground arith in
    rw (ne, ok) (contiguous_scan_lem max_pages 0 v start refl)
  where
    start : Scanned p pages 0 0 0
    start = record {
      short = pos;
      run_le = omega arith;
      start = λ ne. absurd (ne refl);
      free = λ j a b. elim b [ ];
      edge = inl refl;
      before = λ s h. absurd (omega arith);
    }
