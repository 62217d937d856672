-- ===== src/VmmUser/Map.antt =====
-- kernel/mm/vmm_user.c, vmm_user_map: the whole call on a valid list of regions.
use hydrogen_os.Prelude.{
  ℕ, ◌+◌, ◌-◌, ◌/◌, ◌%◌, ◌≤◌, ◌<◌, ◌≡◌, ◌∙◌, refl, sym, subst, ap, Bool, Bool-cases, Option-cases,
  false, not, ◌&&◌, ◌||◌, arith, ltb, leb, ◌==◌, if◌then◌else◌, none, some, List, [], ◌∷◌, ◌++◌,
  ◌⊎◌, inl, inr, length,
}
use hydrogen_os.VmmUser.{
  Region, Space, Machine, Outcome, ok, fail, Errno, einval, enomem, page_size, mmap_base,
  mmap_limit, max_regions, page_round_up, find_neighbors, prot_check, merges_prev, merges_next,
  choose_start, place, populate, prot_to_page_flags, map_at, map,
}
use hydrogen_os.VmmUser.View.{
  lookup, IsRegion, Ordered, IsValid, last_end, lookup-below, le-last_end, page_round_up_lem,
}
use hydrogen_os.VmmUser.Split.{
  Fits, Fits-choose_start, append-find_neighbors, Ordered-find_neighbors,
}
use hydrogen_os.VmmUser.Place.{own, Placed-place, lookup-own}

-- The space after a mapping: an aligned range of the window in which nothing was mapped has the
-- protection, and all else is as before.
pub record Mapped (start len prot : ℕ) (s s' : Space) : Type 0 where
  pub valid : IsValid s'
  pub from : mmap_base ≤ start
  pub to : start + len ≤ mmap_limit
  pub aligned : start % page_size ≡ 0
  pub was_free : (a : ℕ) → start ≤ a → a < start + len → lookup s.regions a ≡ none
  pub with_range :
      (a : ℕ)
      → lookup s'.regions a
        ≡ (if leb start a && ltb a (start + len) then some prot else lookup s.regions a)

lookup-gap :
    (lo a end : ℕ) (before after : List Region)
    → Ordered lo before
    → last_end lo before ≤ a
    → Ordered end after
    → a < end
    → lookup (before ++ after) a ≡ none
lookup-gap lo a end [] after o l p h = lookup-below end a after p h
lookup-gap lo a end (r ∷ rs) after (le, v, o) l p h =
    ground (arith, lookup-gap r.end a end rs after o l p h, le-last_end r.end rs o, l)

Mapped-place :
    (start len prot : ℕ) (s : Space)
    → IsValid s
    → 0 < len
    → len % page_size ≡ 0
    → Fits mmap_base s.regions start (start + len)
    → ((merges_prev (find_neighbors s.regions start).0 start prot
            || merges_next (find_neighbors s.regions start).1 (start + len) prot)
          ≡ false
        → s.region_count < max_regions)
    → Mapped start len prot s (
        place
          (find_neighbors s.regions start).0
          (find_neighbors s.regions start).1
          start
          (start + len)
          prot
          s)
Mapped-place start len prot s v h a f room =
    let before = (find_neighbors s.regions start).0 in
    let after = (find_neighbors s.regions start).1 in
    let o = Ordered-find_neighbors mmap_base s.regions start v.ordered in
    let whole = append-find_neighbors s.regions start in
    let n : IsRegion (own start (start + len) prot) = record {
      nonempty = omega arith;
      start_aligned = f.aligned;
      end_aligned = omega (arith, f.aligned, a);
      in_window = f.in_window;
    } in
    let p =
      Placed-place mmap_base start (start + len) prot before after s o f.after_prev n f.before_next
        (v.count ∙ ap (λ t. length t) (sym whole)) v.count_le room in
    record {
      valid = record { ordered = p.ordered; count = p.count; count_le = p.count_le };
      from = f.from;
      to = f.in_window;
      aligned = f.aligned;
      was_free = λ b l u.
          subst (λ t. lookup t b ≡ none) whole
            (lookup-gap mmap_base b (start + len) before after o (omega (arith, f.after_prev))
              f.before_next u);
      with_range = λ b.
          p.same b
          ∙ lookup-own mmap_base start (start + len) prot b before after o f.after_prev
          ∙ ap (λ t. if leb start b && ltb b (start + len) then some prot else lookup t b) whole;
    }

-- What a call returns: an error and the space as it was, or the start of a mapping of `len` bytes.
pub MapResult : ℕ → ℕ → Space → Outcome ℕ → Space → Type 0
MapResult len prot s result s' =
    ((e : Errno) × (result ≡ fail e) × (s' ≡ s))
    ⊎ ((start : ℕ) × (result ≡ ok start) × Mapped start len prot s s')

module _ {M : Type 0} (env : Machine M) where
  map_at_lem :
      (start len prot : ℕ) (s : Space) (m : M)
      → IsValid s
      → 0 < len
      → len % page_size ≡ 0
      → Fits mmap_base s.regions start (start + len)
      → MapResult len prot s (map_at env start len prot s m).0 (map_at env start len prot s m).1
  unfolding map_at MapResult
  map_at_lem start len prot s m v h a f =
      let before = (find_neighbors s.regions start).0 in
      let after = (find_neighbors s.regions start).1 in
      let merged = merges_prev before start prot || merges_next after (start + len) prot in
      let pages = len / page_size in
      let flags = prot_to_page_flags env prot in
      elim (Bool-cases merged) [
        | inl e ↦ elim (Bool-cases (populate env pages start start flags m).0) [
          | inl g ↦
              rw (e, g)
                (inr (
                  start,
                  refl,
                  Mapped-place start len prot s v h a f (rw e (λ t. absurd (ground (arith, t)))),
                ))
          | inr g ↦ rw (e, g) (inl (enomem, refl, refl))
        ]
        | inr e ↦ elim (Bool-cases (leb max_regions s.region_count)) [
          | inl c ↦ rw (e, c) (inl (enomem, refl, refl))
          | inr c ↦ elim (Bool-cases (env.oom_kalloc m).0) [
            | inr k ↦ rw (e, c, k) (inl (enomem, refl, refl))
            | inl k ↦
                elim (Bool-cases (populate env pages start start flags (env.oom_kalloc m).1).0) [
                  | inl g ↦
                      rw (e, c, k, g)
                        (inr (
                          start,
                          refl,
                          Mapped-place start len prot s v h a f (λ t. ground (arith, c)),
                        ))
                  | inr g ↦ rw (e, c, k, g) (inl (enomem, refl, refl))
                ]
          ]
        ]
      ]

  -- On a valid space, `vmm_user_map` either returns an error, and then the space is unchanged; or it
  -- returns the start of a range of the page-rounded length. This range is page-aligned, lies in the
  -- window, and had no mapping; afterwards the space is valid, each address of the range has the
  -- protection that was asked for, and each other address has what it had.
  pub map_lem :
      (pointers : Bool) (hint len prot flags : ℕ) (s : Space) (m : M)
      → IsValid s
      → let r = map env pointers hint len prot flags s m in
        MapResult (page_round_up len) prot s r.0 r.1
  unfolding map MapResult
  map_lem pointers hint len prot flags s m v =
      let len' = page_round_up len in
      elim (Bool-cases (not pointers || len == 0)) [
        | inl e ↦ rw e (inl (einval, refl, refl))
        | inr e ↦ elim (Option-cases (prot_check prot flags)) [
          | inr (c, f) ↦ rw (e, f) (inl (c, refl, refl))
          | inl f ↦ elim (Bool-cases (hint % page_size == 0)) [
            | inr g ↦ rw (e, f, g) (inl (einval, refl, refl))
            | inl g ↦ elim (Bool-cases (ltb (mmap_limit - mmap_base) len)) [
              | inl k ↦ rw (e, f, g, k) (inl (enomem, refl, refl))
              | inr k ↦ elim (Bool-cases (ltb env.total_page_count (len' / page_size))) [
                | inl t ↦ rw (e, f, g, k, t) (inl (enomem, refl, refl))
                | inr t ↦ elim (Option-cases (choose_start s.regions hint len')) [
                  | inl c ↦ rw (e, f, g, k, t, c) (inl (enomem, refl, refl))
                  | inr (start, c) ↦
                      let (a, l, u) = page_round_up_lem len (ground (arith, k)) in
                      let h : 0 < len' = ground (arith, l, e) in
                      rw (e, f, g, k, t, c)
                        (map_at_lem start len' prot s m v h a (
                          Fits-choose_start s.regions hint len' start v.ordered (ground (arith, g))
                            h c))
                ]
              ]
            ]
          ]
        ]
      ]
