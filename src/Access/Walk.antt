-- ===== src/Access/Walk.antt =====
-- kernel/fs/vfs_access.c, check_search_path: which directories on the way to a path are searched.
use hydrogen_os.Prelude.{
  ℕ, zero, suc, ◌+◌, ◌≤◌, ◌<◌, ◌≡◌, ◌≢◌, refl, sym, ◌∙◌, ap, true, false, ◌||◌, not, leb, ◌==◌,
  Option, none, some, List, length, get_or, ◌⊎◌, inl, inr, Bool-cases, Option-cases, arith,
  nat_cases,
}
use hydrogen_os.Access.Search.{
  may_search, mode_allows-may_search, DirName, DirName-prefix_at, prefix_at-DirName,
}
use hydrogen_os.Access.{
  eacces, Credentials, Stat, Vfs, slash, access_exec, path_max, mode_allows, prefix_at, search_loop,
  check_search_path,
}

module _ {F : Type 0} (env : Vfs F) (cred : Credentials) (path : List ℕ) (f : F) where
  -- The code stats a directory at the slash at `k`.
  record StatAt (k : ℕ) (st : Stat) : Type 0 where
    is_slash : get_or path k 0 ≡ slash
    found : env.stat (prefix_at path k) f ≡ some st
    is_dir : st.type ≡ 2

  -- It does so at every slash from `i` on and before `k`.
  Passed : ℕ → ℕ → Type 0
  Passed i k = (j : ℕ) → i ≤ j → j < k → get_or path j 0 ≡ slash → (st : Stat) × StatAt j st

  -- From `i` on, its check passes at every directory that the walk reaches.
  Allowed : ℕ → Type 0
  Allowed i =
      (k : ℕ) (st : Stat)
      → i ≤ k
      → k < length path
      → StatAt k st
      → Passed i k
      → mode_allows cred st access_exec ≡ 0

  -- From `i` on, the walk reaches a directory at which the check gives `rc`.
  record Refused (i rc : ℕ) : Type 0 where
    at : ℕ
    st : Stat
    from : i ≤ at
    inside : at < length path
    dir : StatAt at st
    reached : Passed i at
    refused : mode_allows cred st access_exec ≡ rc
    nonzero : rc ≢ 0

  Walked : ℕ → ℕ → Type 0
  Walked i rc = ((rc ≡ 0) × Allowed i) ⊎ Refused i rc

  -- A slash that is no directory's ends the walk.
  Allowed-stop :
      (i : ℕ)
      → get_or path i 0 ≡ slash
      → ((st : Stat) → env.stat (prefix_at path i) f ≡ some st → st.type ≢ 2)
      → Allowed i
  unfolding Allowed Passed
  Allowed-stop i s n k st l u d r = elim (nat_cases i k) [
    | inl e ↦ absurd (n st (ap (λ t. env.stat (prefix_at path t) f) e ∙ d.found) d.is_dir)
    | inr e ↦ let (st', d') = r i (omega arith) (omega arith) s in absurd (n st' d'.found d'.is_dir)
  ]

  -- A position that the walk passes.
  Walked-pass :
      (i rc : ℕ)
      → ((st : Stat) → StatAt i st → mode_allows cred st access_exec ≡ 0)
      → (get_or path i 0 ≡ slash → (st : Stat) × StatAt i st)
      → Walked (i + 1) rc
      → Walked i rc
  unfolding Walked Allowed Passed
  Walked-pass i rc allowed dir (inl (e, s)) = inl (
    e,
    λ k st l u d r. elim (nat_cases i k) [
      | inl same ↦ allowed st (record {
        is_slash = ap (λ t. get_or path t 0) same ∙ d.is_slash;
        found = ap (λ t. env.stat (prefix_at path t) f) same ∙ d.found;
        is_dir = d.is_dir;
      })
      | inr other ↦ s k st (omega arith) u d (λ j l' u'. r j (omega arith) u')
    ],
  )
  Walked-pass i rc allowed dir (inr d) = inr (record {
    at = d.at;
    st = d.st;
    from = omega (arith, d.from);
    inside = d.inside;
    dir = d.dir;
    reached = λ j l u s. elim (nat_cases i j) [
      | inl same ↦
          let (st', d') = dir (ap (λ t. get_or path t 0) same ∙ s) in
          (
            st',
            record {
              is_slash = s;
              found = ap (λ t. env.stat (prefix_at path t) f) (sym same) ∙ d'.found;
              is_dir = d'.is_dir;
            },
          )
      | inr other ↦ d.reached j (omega arith) u s
    ];
    refused = d.refused;
    nonzero = d.nonzero;
  })

  Walked-search_loop : (n i : ℕ) → i + n ≡ length path → Walked i (search_loop env cred path f n i)
  unfolding search_loop Walked Allowed Passed
  Walked-search_loop zero i e = inl (refl, λ k st l u d r. absurd (omega arith))
  Walked-search_loop (suc n) i e =
      let rest = Walked-search_loop n (i + 1) (omega arith) in
      elim (Bool-cases (get_or path i 0 == slash)) [
        | inr s ↦
            let no : get_or path i 0 ≢ slash = ground (arith, s) in
            rw s (Walked-pass i _ (λ st d. absurd (no d.is_slash)) (λ h. absurd (no h)) rest)
        | inl s ↦
            let yes : get_or path i 0 ≡ slash = ground (arith, s) in
            elim (Option-cases (env.stat (prefix_at path i) f)) [
              | inl g ↦
                  rw (s, g)
                    (inl (refl, Allowed-stop i yes (λ st h t. absurd (ground (arith, g, h)))))
              | inr (st, g) ↦
                  let only : (st' : Stat) → env.stat (prefix_at path i) f ≡ some st' → st ≡ st' =
                    λ st' h.
                      ap (λ (o : Option Stat). elim o [ none ↦ st | some x ↦ x ]) (sym g ∙ h) in
                  let rc = mode_allows cred st access_exec in
                  elim (Bool-cases (st.type == 2)) [
                    | inr t ↦
                        rw (s, g, t)
                          (inl (
                            refl,
                            Allowed-stop i yes (λ st' h d.
                                absurd
                                  (ground (arith, t, ap (λ (x : Stat). x.type) (only st' h), d))),
                          ))
                    | inl t ↦
                        let dir : StatAt i st = record {
                          is_slash = yes;
                          found = g;
                          is_dir = ground (arith, t);
                        } in
                        elim (Bool-cases (rc == 0)) [
                          | inl z ↦
                              rw (s, g, t, z)
                                (Walked-pass i _
                                  (λ st' d.
                                    ap (λ x. mode_allows cred x access_exec)
                                      (sym (only st' d.found))
                                    ∙ ground (arith, z))
                                  (λ h. (st, dir)) rest)
                          | inr z ↦
                              rw (s, g, t, z)
                                (inr (record {
                                  at = i;
                                  st = st;
                                  from = omega arith;
                                  inside = omega (arith, e);
                                  dir = dir;
                                  reached = λ j l u h. absurd (omega (arith, l, u));
                                  refused = refl;
                                  nonzero = ground (arith, z);
                                }))
                        ]
                  ]
            ]
      ]

  -- The slash at `k` ends the name of a directory.
  pub record IsDirAt (k : ℕ) (st : Stat) : Type 0 where
    pub is_slash : get_or path k 0 ≡ slash
    pub name : List ℕ
    pub named : DirName path k name
    pub found : env.stat name f ≡ some st
    pub is_dir : st.type ≡ 2

  -- Every slash before `k` ends the name of a directory.
  pub Reached : ℕ → Type 0
  Reached k = (j : ℕ) → j < k → get_or path j 0 ≡ slash → (st : Stat) × IsDirAt j st

  -- Every directory that the walk reaches may be searched.
  pub Searchable : Type 0
  Searchable =
      (k : ℕ) (st : Stat) → k < length path → IsDirAt k st → Reached k → may_search cred st ≡ true

  -- The walk reaches a directory that may not be searched.
  pub record Denied : Type 0 where
    pub at : ℕ
    pub st : Stat
    pub inside : at < length path
    pub dir : IsDirAt at st
    pub reached : Reached at
    pub refused : may_search cred st ≡ false

  IsDirAt-StatAt : (k : ℕ) (st : Stat) → k < length path → IsDirAt k st → StatAt k st
  IsDirAt-StatAt k st u d = record {
    is_slash = d.is_slash;
    found = ap (λ t. env.stat t f) (prefix_at-DirName path k d.name u d.is_slash d.named) ∙ d.found;
    is_dir = d.is_dir;
  }

  StatAt-IsDirAt : (k : ℕ) (st : Stat) → k < length path → StatAt k st → IsDirAt k st
  StatAt-IsDirAt k st u d = record {
    is_slash = d.is_slash;
    name = prefix_at path k;
    named = DirName-prefix_at path k u d.is_slash;
    found = d.found;
    is_dir = d.is_dir;
  }

  Passed-Reached : (k : ℕ) → k < length path → Reached k → Passed 0 k
  unfolding Passed Reached
  Passed-Reached k u r =
      λ j lo hi s. let (st, d) = r j hi s in (st, IsDirAt-StatAt j st (omega (arith, hi, u)) d)

  Reached-Passed : (k : ℕ) → k < length path → Passed 0 k → Reached k
  unfolding Passed Reached
  Reached-Passed k u r = λ j hi s.
      let (st, d) = r j (omega arith) hi s in (st, StatAt-IsDirAt j st (omega (arith, hi, u)) d)

  -- For an absolute path of fewer than 256 bytes, `check_search_path` returns 0 when every
  -- directory that the walk along the path reaches may be searched, and otherwise -EACCES when it
  -- reaches one that may not be searched. The walk reaches the directory that a slash ends, which is
  -- the root for the first slash and what stands before the slash for a later one, when every
  -- earlier slash ends the name of a directory. Root may search all, others by the execute bit of
  -- their class.
  pub check_search_path_lem :
      length path < path_max
      → get_or path 0 0 ≡ slash
      → ((check_search_path env cred path f ≡ 0) × Searchable)
        ⊎ ((check_search_path env cred path f ≡ eacces) × Denied)
  unfolding check_search_path Walked Searchable Allowed
  check_search_path_lem short absolute =
      let ok : (leb path_max (length path) || not (get_or path 0 0 == slash)) ≡ false =
        ground (arith, short, absolute) in
      rw ok (elim (Walked-search_loop (length path) 0 (omega arith)) [
        | inl (z, allowed) ↦ inl (
          z,
          λ k st u d r.
              let passed =
                allowed k st (omega arith) u (IsDirAt-StatAt k st u d) (Passed-Reached k u r) in
              ground (arith, passed, mode_allows-may_search cred st d.is_dir),
        )
        | inr d ↦
            let code = mode_allows-may_search cred d.st d.dir.is_dir in
            inr (
              ground (arith, d.refused, d.nonzero, code),
              record {
                at = d.at;
                st = d.st;
                inside = d.inside;
                dir = StatAt-IsDirAt d.at d.st d.inside d.dir;
                reached = Reached-Passed d.at d.inside d.reached;
                refused = ground (arith, d.refused, d.nonzero, code);
              },
            )
      ])
