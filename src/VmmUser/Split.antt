-- ===== src/VmmUser/Split.antt =====
-- kernel/mm/vmm_user.c, range_is_free, find_free_range and find_neighbors: a range that the search
-- chooses lies in the gap between the two neighbours.
use hydrogen_os.Prelude.{
  ℕ, ◌+◌, ◌-◌, ◌%◌, ◌≤◌, ◌<◌, ◌≡◌, refl, sym, subst, ap, ◌^◌, Bool-cases, true, false, ◌&&◌, arith,
  ltb, leb, some, List, [], ◌∷◌, ◌++◌, inl, inr,
}
use hydrogen_os.VmmUser.{
  Region, page_size, mmap_base, mmap_limit, range_is_free, find_free_range, find_neighbors,
  choose_start,
}
use hydrogen_os.VmmUser.View.{IsRegion, Ordered, last_end}

-- The range lies in the window, between the neighbours that `find_neighbors` gives for its start.
pub record Fits (lo : ℕ) (rs : List Region) (start end : ℕ) : Type 0 where
  pub from : lo ≤ start
  pub in_window : end ≤ mmap_limit
  pub aligned : start % page_size ≡ 0
  pub after_prev : last_end lo (find_neighbors rs start).0 ≤ start
  pub before_next : Ordered end (find_neighbors rs start).1

pub append-find_neighbors :
    (rs : List Region) (start : ℕ) → (find_neighbors rs start).0 ++ (find_neighbors rs start).1 ≡ rs
unfolding find_neighbors
append-find_neighbors [] start = refl
append-find_neighbors (r ∷ rs) start = elim (Bool-cases (ltb r.start start)) [
  | inl e ↦ rw e (ap (λ t. r ∷ t) (append-find_neighbors rs start))
  | inr e ↦ rw e refl
]

pub Ordered-find_neighbors :
    (lo : ℕ) (rs : List Region) (start : ℕ) → Ordered lo rs → Ordered lo (find_neighbors rs start).0
unfolding find_neighbors
Ordered-find_neighbors lo [] start o = tt
Ordered-find_neighbors lo (r ∷ rs) start (le, v, o) = elim (Bool-cases (ltb r.start start)) [
  | inl e ↦ rw e (le, v, Ordered-find_neighbors r.end rs start o)
  | inr e ↦ rw e tt
]

Fits-below :
    (lo start end : ℕ) (r : Region) (rs : List Region)
    → lo ≤ r.start
    → r.start < start
    → IsRegion r
    → Fits r.end rs start end
    → Fits lo (r ∷ rs) start end
unfolding find_neighbors
Fits-below lo start end r rs le h v f =
    let e : ltb r.start start ≡ true = ground arith in
    record {
      from = omega arith;
      in_window = f.in_window;
      aligned = f.aligned;
      after_prev = rw e f.after_prev;
      before_next = rw e f.before_next;
    }

Fits-here :
    (lo start end : ℕ) (r : Region) (rs : List Region)
    → lo ≤ start
    → start < end
    → end ≤ r.start
    → end ≤ mmap_limit
    → start % page_size ≡ 0
    → Ordered lo (r ∷ rs)
    → Fits lo (r ∷ rs) start end
unfolding find_neighbors
Fits-here lo start end r rs l h e w a (le, v, o) =
    let f : ltb r.start start ≡ false = ground arith in
    record {
      from = l;
      in_window = w;
      aligned = a;
      after_prev = rw f l;
      before_next = rw f (e, v, o);
    }

Fits-range_is_free :
    (lo : ℕ) (rs : List Region) (start end : ℕ)
    → Ordered lo rs
    → lo ≤ start
    → start < end
    → end ≤ mmap_limit
    → start % page_size ≡ 0
    → range_is_free rs start end ≡ true
    → Fits lo rs start end
unfolding range_is_free find_neighbors
Fits-range_is_free lo [] start end o l h w a e = record {
  from = l;
  in_window = w;
  aligned = a;
  after_prev = l;
  before_next = tt;
}
Fits-range_is_free lo (r ∷ rs) start end (le, v, o) l h w a e =
    elim (Bool-cases (ltb r.start start)) [
      | inl f ↦
          let clear : r.end ≤ start = ground (arith, e, h) in
          let rest : range_is_free rs start end ≡ true = ground (arith, e, h) in
          Fits-below lo start end r rs le (ground arith) v
            (Fits-range_is_free r.end rs start end o clear h w a rest)
      | inr f ↦ Fits-here lo start end r rs l h (ground (arith, e, v.nonempty)) w a (le, v, o)
    ]

Fits-find_free_range :
    (lo len start : ℕ) (rs : List Region)
    → Ordered lo rs
    → lo ≤ mmap_limit
    → lo % page_size ≡ 0
    → 0 < len
    → find_free_range rs lo len ≡ some start
    → Fits lo rs start (start + len)
unfolding find_free_range find_neighbors
Fits-find_free_range lo len start [] o w a h e =
    let (same, fits) : (lo ≡ start) × (lo + len ≤ mmap_limit) = ground (arith, e) in
    record {
      from = omega arith;
      in_window = omega arith;
      aligned = rw (sym same) a;
      after_prev = omega arith;
      before_next = tt;
    }
Fits-find_free_range lo len start (r ∷ rs) (le, v, o) w a h e =
    elim (Bool-cases (leb len ((r.start + 2 ^ 64 - lo) % 2 ^ 64))) [
      | inl f ↦
          let same : lo ≡ start = ground (arith, e, f) in
          let fits : start + len ≤ r.start = ground (arith, same, f, v.nonempty, v.in_window) in
          Fits-here lo start (start + len) r rs (omega arith) (omega arith) fits
            (omega (arith, v.nonempty, v.in_window)) (rw (sym same) a) (le, v, o)
      | inr f ↦
          let g : find_free_range rs r.end len ≡ some start = ground (arith, e, f) in
          let fit = Fits-find_free_range r.end len start rs o v.in_window v.end_aligned h g in
          Fits-below lo start (start + len) r rs le (omega (arith, fit.from, v.nonempty)) v fit
    ]

pub Fits-choose_start :
    (rs : List Region) (hint len start : ℕ)
    → Ordered mmap_base rs
    → hint % page_size ≡ 0
    → 0 < len
    → choose_start rs hint len ≡ some start
    → Fits mmap_base rs start (start + len)
unfolding choose_start
Fits-choose_start rs hint len start o a h e =
    let at_hint =
      leb mmap_base hint
      && ltb hint mmap_limit
      && leb len (mmap_limit - hint)
      && range_is_free rs hint (hint + len) in
    elim (Bool-cases at_hint) [
      | inl f ↦
          let same : hint ≡ start = ground (arith, e, f) in
          subst (λ t. Fits mmap_base rs t (t + len)) same
            (Fits-range_is_free mmap_base rs hint (hint + len) o (ground (arith, f)) (omega arith)
              (ground (arith, f)) a (ground (arith, f)))
      | inr f ↦
          Fits-find_free_range mmap_base len start rs o (omega arith) (omega arith) h
            (ground (arith, e, f))
    ]

-- If a range of the window is free, the search finds one.
find_free_range-some :
    (lo len start : ℕ) (rs : List Region)
    → Ordered lo rs
    → 0 < len
    → lo ≤ start
    → start + len ≤ mmap_limit
    → range_is_free rs start (start + len) ≡ true
    → (s : ℕ) × (find_free_range rs lo len ≡ some s)
unfolding find_free_range range_is_free
find_free_range-some lo len start [] o h l w e =
    let big : leb len ((mmap_limit + 2 ^ 64 - lo) % 2 ^ 64) ≡ true = ground (arith, l, w) in
    rw big (lo, refl)
find_free_range-some lo len start (r ∷ rs) (le, v, o) h l w e =
    elim (Bool-cases (leb len ((r.start + 2 ^ 64 - lo) % 2 ^ 64))) [
      | inl g ↦ rw g (lo, refl)
      | inr g ↦
          let before : r.start < start + len = ground (arith, g, l, le, v.nonempty, v.in_window) in
          let clear : r.end ≤ start = ground (arith, e, before, h) in
          let rest : range_is_free rs start (start + len) ≡ true = ground (arith, e, before) in
          rw g (find_free_range-some r.end len start rs o h clear w rest)
    ]

pub choose_start-some :
    (rs : List Region) (hint len start : ℕ)
    → Ordered mmap_base rs
    → 0 < len
    → mmap_base ≤ start
    → start + len ≤ mmap_limit
    → range_is_free rs start (start + len) ≡ true
    → (s : ℕ) × (choose_start rs hint len ≡ some s)
unfolding choose_start
choose_start-some rs hint len start o h l w e =
    let at_hint =
      leb mmap_base hint
      && ltb hint mmap_limit
      && leb len (mmap_limit - hint)
      && range_is_free rs hint (hint + len) in
    elim (Bool-cases at_hint) [
      | inl f ↦ rw f (hint, refl)
      | inr f ↦ rw f (find_free_range-some mmap_base len start rs o h l w e)
    ]
