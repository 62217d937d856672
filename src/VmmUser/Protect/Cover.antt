-- ===== src/VmmUser/Protect/Cover.antt =====
-- kernel/mm/vmm_user.c, vmm_user_protect: the check that the range is covered, and the descriptors
-- that the two splits use.
use hydrogen_os.Prelude.{
  ℕ, ◌+◌, ◌≤◌, ◌<◌, ◌≡◌, ◌≢◌, ◌∙◌, refl, sym, Bool, Bool-cases, false, arith, ltb, leb,
  if◌then◌else◌, none, List, [], ◌∷◌, inl, inr,
}
use hydrogen_os.VmmUser.{Region}
use hydrogen_os.VmmUser.Protect.{cover_loop, split_list}
use hydrogen_os.VmmUser.View.{lookup, Ordered}

-- When the loop gets to the end of the range, the whole range is mapped.
pub lookup-cover_loop :
    (addr end covered splits a : ℕ) (rs : List Region)
    → addr ≤ covered
    → end ≤ (cover_loop addr end rs covered splits).0
    → covered ≤ a
    → a < end
    → lookup rs a ≢ none
unfolding cover_loop
lookup-cover_loop addr end covered splits a [] l e h u = absurd (omega arith)
lookup-cover_loop addr end covered splits a (r ∷ rs) l e h u =
    let s1 = (if ltb r.start addr then splits + 1 else splits) in
    let s2 = (if ltb end r.end then s1 + 1 else s1) in
    elim (Bool-cases (leb r.end a)) [
      | inl f ↦ elim (Bool-cases (leb r.end addr)) [
        | inl g ↦
            let same : lookup (r ∷ rs) a ≡ lookup rs a = ground (arith, f) in
            let rest =
              lookup-cover_loop addr end covered splits a rs l (ground (arith, e, g, u, h, l)) h
                u in
            λ n. rest (sym same ∙ n)
        | inr g ↦
            let same : lookup (r ∷ rs) a ≡ lookup rs a = ground (arith, f) in
            let rest =
              lookup-cover_loop addr end r.end s2 a rs (ground (arith, g))
                (ground (arith, e, g, u, h, l)) (ground (arith, f)) u in
            λ n. rest (sym same ∙ n)
      ]
      | inr f ↦ λ n. ground (arith, f, e, h, u, l, n)
    ]

pub split_list-below :
    (lo p : ℕ) (rs : List Region) → Ordered lo rs → p ≤ lo → (split_list p rs).1 ≡ false
unfolding split_list
split_list-below lo p [] o h = refl
split_list-below lo p (r ∷ rs) (le, v, o) h = ground arith

pub split_list-other :
    (lo p q : ℕ) (rs : List Region)
    → Ordered lo rs
    → p ≢ q
    → (split_list p (split_list q rs).0).1 ≡ (split_list p rs).1
unfolding split_list
split_list-other lo p q [] o n = refl
split_list-other lo p q (r ∷ rs) (le, v, o) n = elim (Bool-cases (ltb r.start q)) [
  | inr e ↦ rw e refl
  | inl e ↦ elim (Bool-cases (leb r.end q)) [
    | inl f ↦ rw (e, f) (ground (arith, split_list-other r.end p q rs o n))
    | inr f ↦ rw (e, f) (ground (arith, v.nonempty, n))
  ]
]

-- One for a split.
abbrev pub one_if : Bool → ℕ
one_if b = if b then 1 else 0

-- The count of splits is the number of the two ends of the range that lie inside a region.
pub splits-cover_loop :
    (lo addr end covered splits : ℕ) (rs : List Region)
    → addr < end
    → addr ≤ covered
    → Ordered lo rs
    → end ≤ (cover_loop addr end rs covered splits).0
    → (cover_loop addr end rs covered splits).1
      ≡ splits + one_if (split_list addr rs).1 + one_if (split_list end rs).1
unfolding cover_loop split_list
splits-cover_loop lo addr end covered splits [] h l o e = ground arith
splits-cover_loop lo addr end covered splits (r ∷ rs) h l (le, v, o) e =
    let s1 = (if ltb r.start addr then splits + 1 else splits) in
    let s2 = (if ltb end r.end then s1 + 1 else s1) in
    let below_addr = split_list-below r.end addr rs o in
    let below_end = split_list-below r.end end rs o in
    let next = splits-cover_loop r.end addr end r.end s2 rs h in
    let skip = splits-cover_loop r.end addr end covered splits rs h l o in
    elim (Bool-cases (ltb r.start end)) [
      | inr f ↦ ground (arith, f, e, h)
      | inl f ↦ elim (Bool-cases (leb r.end addr)) [
        | inl g ↦
            let rest = skip (ground (arith, e, f, g)) in ground (arith, f, g, rest, v.nonempty, h)
        | inr g ↦ elim (Bool-cases (ltb covered r.start)) [
          | inl k ↦ absurd (ground (arith, e, f, g, k))
          | inr k ↦
              let rest = next (ground (arith, g)) o (ground (arith, e, f, g, k)) in
              let none_addr = below_addr (ground (arith, g)) in
              elim (Bool-cases (ltb end r.end)) [
                | inl m ↦ ground (
                  arith,
                  rest,
                  none_addr,
                  below_end (ground (arith, m)),
                  f,
                  g,
                  k,
                  m,
                  v.nonempty,
                  h,
                )
                | inr m ↦ ground (arith, rest, none_addr, f, g, k, m, v.nonempty, h)
              ]
        ]
      ]
    ]
