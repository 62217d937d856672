-- ===== src/VmmUser/View.antt =====
-- kernel/mm/vmm_user.c: a list of regions as a map from addresses to protections, and the invariant
-- that the header states of it.
use hydrogen_os.Prelude.{
  ℕ, ◌+◌, ◌%◌, ◌≤◌, ◌<◌, ◌≡◌, refl, ◌&&◌, arith, ltb, leb, if◌then◌else◌, Option, none, some, List,
  [], ◌∷◌, ◌++◌, length,
}
use hydrogen_os.VmmUser.{
  Region, Space, page_size, mmap_base, mmap_limit, max_regions, page_round_up,
}

-- The protection of the region that holds address `a`.
abbrev pub lookup : List Region → ℕ → Option ℕ
lookup [] a = none
lookup (r ∷ rs) a = if leb r.start a && ltb a r.end then some r.prot else lookup rs a

-- One region of the window, not empty, with page-aligned ends.
pub record IsRegion (r : Region) : Type 0 where
  pub nonempty : r.start < r.end
  pub start_aligned : r.start % page_size ≡ 0
  pub end_aligned : r.end % page_size ≡ 0
  pub in_window : r.end ≤ mmap_limit

-- Sorted by start address, not overlapping, from `lo` on.
abbrev pub Ordered : ℕ → List Region → Type 0
Ordered lo [] = Unit {0}
Ordered lo (r ∷ rs) = (lo ≤ r.start) × IsRegion r × Ordered r.end rs

pub record IsValid (s : Space) : Type 0 where
  pub ordered : Ordered mmap_base s.regions
  pub count : s.region_count ≡ length s.regions
  pub count_le : s.region_count ≤ max_regions

-- Where a list of regions from `lo` on ends.
abbrev pub last_end : ℕ → List Region → ℕ
last_end lo [] = lo
last_end lo (r ∷ rs) = last_end r.end rs

pub lookup-below : (lo a : ℕ) (rs : List Region) → Ordered lo rs → a < lo → lookup rs a ≡ none
lookup-below lo a [] o h = refl
lookup-below lo a (r ∷ rs) (le, v, o) h =
    ground (arith, lookup-below r.end a rs o (omega (arith, v.nonempty)))

pub Ordered-weaken : (lo lo' : ℕ) (rs : List Region) → Ordered lo rs → lo' ≤ lo → Ordered lo' rs
Ordered-weaken lo lo' [] o h = tt
Ordered-weaken lo lo' (r ∷ rs) (le, v, o) h = (omega arith, v, o)

pub le-last_end : (lo : ℕ) (rs : List Region) → Ordered lo rs → lo ≤ last_end lo rs
le-last_end lo [] o = omega arith
le-last_end lo (r ∷ rs) (le, v, o) = omega (arith, le-last_end r.end rs o, v.nonempty)

pub lookup-above :
    (lo a : ℕ) (rs : List Region) → Ordered lo rs → last_end lo rs ≤ a → lookup rs a ≡ none
lookup-above lo a [] o h = refl
lookup-above lo a (r ∷ rs) (le, v, o) h =
    ground (arith, lookup-above r.end a rs o h, le-last_end r.end rs o)

pub Ordered-append :
    (lo : ℕ) (xs ys : List Region)
    → Ordered lo xs
    → Ordered (last_end lo xs) ys
    → Ordered lo (xs ++ ys)
Ordered-append lo [] ys o p = p
Ordered-append lo (x ∷ xs) ys (le, v, o) p = (le, v, Ordered-append x.end xs ys o p)

-- A lookup in two lists, the second one from the end of the first on.
pub lookup-append :
    (lo : ℕ) (xs ys zs : List Region) (a : ℕ)
    → lookup ys a ≡ lookup zs a
    → lookup (xs ++ ys) a ≡ lookup (xs ++ zs) a
lookup-append lo [] ys zs a e = e
lookup-append lo (x ∷ xs) ys zs a e = ground (arith, lookup-append lo xs ys zs a e)

pub page_round_up_lem :
    (length : ℕ)
    → length ≤ mmap_limit
    → (page_round_up length % page_size ≡ 0)
      × (length ≤ page_round_up length)
      × (page_round_up length < length + page_size)
unfolding page_round_up
page_round_up_lem length h = omega arith
