-- ===== src/VmmUser/Protect/Change.antt =====
-- kernel/mm/vmm_user.c, vmm_user_protect: the splits keep the map, and the loop changes it.
use hydrogen_os.Prelude.{
  ℕ, ◌+◌, ◌%◌, ◌<◌, ◌≡◌, ◌∙◌, refl, sym, ap, Bool-cases, false, ◌&&◌, arith, ltb, leb,
  if◌then◌else◌, Option, none, some, List, [], ◌∷◌, inl, inr, length,
}
use hydrogen_os.VmmUser.{Region, page_size}
use hydrogen_os.VmmUser.Protect.{split_list, set_prot}
use hydrogen_os.VmmUser.Protect.Cover.{split_list-below, one_if}
use hydrogen_os.VmmUser.View.{lookup, IsRegion, Ordered, lookup-below}

pub lookup-split_list :
    (lo p a : ℕ) (rs : List Region) → Ordered lo rs → lookup (split_list p rs).0 a ≡ lookup rs a
unfolding split_list
lookup-split_list lo p a [] o = refl
lookup-split_list lo p a (r ∷ rs) (le, v, o) = ground (arith, lookup-split_list r.end p a rs o)

pub length-split_list :
    (p : ℕ) (rs : List Region) → length (split_list p rs).0 ≡ length rs + one_if (split_list p rs).1
unfolding split_list
length-split_list p [] = refl
length-split_list p (r ∷ rs) = ground (arith, length-split_list p rs)

pub Ordered-split_list :
    (lo p : ℕ) (rs : List Region)
    → p % page_size ≡ 0
    → Ordered lo rs
    → Ordered lo (split_list p rs).0
unfolding split_list
Ordered-split_list lo p [] h o = tt
Ordered-split_list lo p (r ∷ rs) h (le, v, o) = elim (Bool-cases (ltb r.start p)) [
  | inr e ↦ rw e (le, v, o)
  | inl e ↦ elim (Bool-cases (leb r.end p)) [
    | inl f ↦ rw (e, f) (le, v, Ordered-split_list r.end p rs h o)
    | inr f ↦
        let lower : IsRegion (record r { end = p }) = record {
          nonempty = ground (arith, e);
          start_aligned = v.start_aligned;
          end_aligned = h;
          in_window = ground (arith, f, v.in_window);
        } in
        let upper : IsRegion (record r { start = p }) = record {
          nonempty = ground (arith, f);
          start_aligned = h;
          end_aligned = v.end_aligned;
          in_window = v.in_window;
        } in
        rw (e, f) (le, lower, (omega arith, upper, o))
  ]
]

-- After a split at an address, no region goes across it.
pub split_list-again :
    (lo p : ℕ) (rs : List Region) → Ordered lo rs → (split_list p (split_list p rs).0).1 ≡ false
unfolding split_list
split_list-again lo p [] o = refl
split_list-again lo p (r ∷ rs) (le, v, o) = elim (Bool-cases (ltb r.start p)) [
  | inr e ↦ rw (e, e) refl
  | inl e ↦ elim (Bool-cases (leb r.end p)) [
    | inl f ↦ rw (e, f) (ground (arith, split_list-again r.end p rs o, e, f))
    | inr f ↦ rw (e, f) (ground (arith, e, f))
  ]
]

-- The protection of an address that is mapped.
abbrev pub over : ℕ → Option ℕ → Option ℕ
over prot none = none
over prot (some old) = some prot

pub lookup-set_prot :
    (lo addr end prot a : ℕ) (rs : List Region)
    → addr < end
    → Ordered lo rs
    → (split_list addr rs).1 ≡ false
    → (split_list end rs).1 ≡ false
    → lookup (set_prot addr end prot rs) a
      ≡ (if leb addr a && ltb a end then over prot (lookup rs a) else lookup rs a)
unfolding set_prot split_list
lookup-set_prot lo addr end prot a [] h o e f = ground arith
lookup-set_prot lo addr end prot a (r ∷ rs) h (le, v, o) e f =
    let ih = lookup-set_prot r.end addr end prot a rs h o in
    elim (Bool-cases (ltb r.start end)) [
      | inr g ↦ elim (Bool-cases (leb addr a && ltb a end)) [
        | inl k ↦
            let none_there =
              lookup-below end a (r ∷ rs) (ground (arith, g), v, o) (ground (arith, k)) in
            rw (g, k) (none_there ∙ sym (ap (λ t. over prot t) none_there))
        | inr k ↦ rw (g, k) refl
      ]
      | inl g ↦
          let below = split_list-below r.end addr rs o in
          let e2 : (split_list addr rs).1 ≡ false = ground (arith, e, below, v.nonempty) in
          let f2 : (split_list end rs).1 ≡ false = ground (arith, f, g) in
          ground (arith, ih e2 f2, e, f, g, v.nonempty, h)
    ]

pub Ordered-set_prot :
    (lo addr end prot : ℕ) (rs : List Region)
    → Ordered lo rs
    → Ordered lo (set_prot addr end prot rs)
unfolding set_prot
Ordered-set_prot lo addr end prot [] o = tt
Ordered-set_prot lo addr end prot (r ∷ rs) (le, v, o) =
    let rest = Ordered-set_prot r.end addr end prot rs o in
    let same : IsRegion (record r { prot = prot }) = record {
      nonempty = v.nonempty;
      start_aligned = v.start_aligned;
      end_aligned = v.end_aligned;
      in_window = v.in_window;
    } in
    elim (Bool-cases (ltb r.start end)) [
      | inr e ↦ rw e (le, v, o)
      | inl e ↦ elim (Bool-cases (leb addr r.start)) [
        | inl f ↦ rw (e, f) (le, same, rest)
        | inr f ↦ rw (e, f) (le, v, rest)
      ]
    ]

pub length-set_prot :
    (addr end prot : ℕ) (rs : List Region) → length (set_prot addr end prot rs) ≡ length rs
unfolding set_prot
length-set_prot addr end prot [] = refl
length-set_prot addr end prot (r ∷ rs) = ground (arith, length-set_prot addr end prot rs)
