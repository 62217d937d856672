-- ===== src/Access/Owner.antt =====
-- kernel/fs/vfs_access.c and kernel/core/credentials.c: who may change the owner and the mode of a
-- file, and that an unprivileged process stays what it is.
use hydrogen_os.Prelude.{
  ℕ, ◌-◌, ◌^◌, ◌≡◌, ◌≢◌, refl, ◌∙◌, ap, false, ◌&&◌, not, ◌==◌, if◌then◌else◌, none, some, List, [],
  ◌∷◌, ◌⊎◌, inl, inr, Bool-cases, Option-cases, bit_and, arith,
}
use hydrogen_os.Access.{
  Credentials, Stat, Vfs, id_none, is_root, set_uid, set_gid, access_check, stat_reachable,
  access_chmod, access_chown,
}

-- A call by which a process changes its credentials.
pub data Call : Type 0 where
  call_uid call_gid : ℕ → Call

pub run : List Call → Credentials → Credentials
run [] cred = cred
run (call_uid id ∷ calls) cred = run calls (set_uid id cred).1
run (call_gid id ∷ calls) cred = run calls (set_gid id cred).1

set_uid-unprivileged :
    (id : ℕ) (cred : Credentials)
    → cred.euid ≢ 0
    → cred.uid ≡ cred.euid
    → (set_uid id cred).1 ≡ cred
unfolding set_uid is_root
set_uid-unprivileged id cred h e =
    let user : (cred.euid == 0) ≡ false = ground (arith, h) in
    elim (Bool-cases (id == id_none)) [
      | inl a ↦ rw a refl
      | inr a ↦ elim (Bool-cases (id == cred.uid)) [
        | inr b ↦ rw (a, user, b) refl
        | inl b ↦
            let same : id ≡ cred.uid = ground (arith, b) in
            rw (a, user, b)
              (ap (λ t. record cred { uid = t; euid = id }) same
                ∙ ap (λ t. record cred { euid = t }) (same ∙ e))
      ]
    ]

set_gid-unprivileged : (id : ℕ) (cred : Credentials) → cred.euid ≢ 0 → (set_gid id cred).1 ≡ cred
unfolding set_gid is_root
set_gid-unprivileged id cred h =
    let user : (cred.euid == 0) ≡ false = ground (arith, h) in
    elim (Bool-cases (id == id_none)) [
      | inl a ↦ rw a refl
      | inr a ↦ elim (Bool-cases (id == cred.gid)) [
        | inr b ↦ rw (a, user, b) refl
        | inl b ↦ rw (a, user, b) (ap (λ t. record cred { gid = t }) (ground (arith, b)))
      ]
    ]

-- No sequence of calls of `credentials_set_uid` and `credentials_set_gid` changes the credentials of
-- a process that is not root and whose two user ids agree.
pub run-unprivileged :
    (calls : List Call) (cred : Credentials)
    → cred.euid ≢ 0
    → cred.uid ≡ cred.euid
    → run calls cred ≡ cred
unfolding run
run-unprivileged [] cred h e = refl
run-unprivileged (call_uid id ∷ calls) cred h e =
    ap (λ c. run calls c) (set_uid-unprivileged id cred h e) ∙ run-unprivileged calls cred h e
run-unprivileged (call_gid id ∷ calls) cred h e =
    ap (λ c. run calls c) (set_gid-unprivileged id cred h) ∙ run-unprivileged calls cred h e

module _ {F : Type 0} (env : Vfs F) (cred : Credentials) where
  stat_reachable_lem :
      (path : List ℕ) (f : F)
      → ((stat_reachable env cred path f).1 ≡ none) × ((stat_reachable env cred path f).0 ≢ 0)
        ⊎ ((st : Stat) × ((stat_reachable env cred path f).1 ≡ some st)
            × (env.stat path f ≡ some st)
            × (access_check env cred path 0 f ≡ 0))
  unfolding stat_reachable
  stat_reachable_lem path f = elim (Bool-cases (access_check env cred path 0 f == 0)) [
    | inr e ↦ rw e (inl (refl, ground (arith, e)))
    | inl e ↦ elim (Option-cases (env.stat path f)) [
      | inl g ↦ rw (e, g) (inl (refl, λ h. omega (arith, h)))
      | inr (st, g) ↦ rw (e, g) (inr (st, refl, refl, ground (arith, e)))
    ]
  ]

  -- `vfs_access_chmod` either fails with a status that is not 0 and changes nothing, or it is the
  -- file system's own change of mode, and then the mode has permission bits only, the caller may
  -- search the way to the target, which is there, and is root or the target's owner.
  pub access_chmod_lem :
      (path : List ℕ) (mode : ℕ) (f : F)
      → let r = access_chmod env cred path mode f in
        ((r.0 ≢ 0) × (r.1 ≡ f))
        ⊎ ((st : Stat) × (r ≡ env.chmod path mode f)
            × (bit_and mode (2 ^ 32 - 1 - 511) ≡ 0)
            × (env.stat path f ≡ some st)
            × (access_check env cred path 0 f ≡ 0)
            × ((cred.euid ≡ 0) ⊎ (cred.euid ≡ st.uid)))
  unfolding access_chmod is_root
  access_chmod_lem path mode f = elim (Bool-cases (bit_and mode (2 ^ 32 - 1 - 511) == 0)) [
    | inr e ↦ rw e (inl (λ h. omega (arith, h), refl))
    | inl e ↦ elim (stat_reachable_lem path f) [
      | inl (g, n) ↦ rw (e, g) (inl (n, refl))
      | inr (st, g, found, reach) ↦
          elim (Bool-cases (not (cred.euid == 0) && not (cred.euid == st.uid))) [
            | inl b ↦ rw (e, g, b) (inl (λ h. omega (arith, h), refl))
            | inr b ↦
                rw (e, g, b) (inr (st, refl, ground (arith, e), found, reach, ground (arith, b)))
          ]
    ]
  ]

  -- `vfs_access_chown` either fails with a status that is not 0 and changes nothing, or it is the
  -- file system's own change of owner, and then the caller is root, the target is there, and each id
  -- that is given as none is the one that the target has.
  pub access_chown_lem :
      (path : List ℕ) (uid gid : ℕ) (f : F)
      → let r = access_chown env cred path uid gid f in
        ((r.0 ≢ 0) × (r.1 ≡ f))
        ⊎ ((st : Stat) × (r
              ≡ env.chown path
                  (if uid == id_none then st.uid else uid)
                  (if gid == id_none then st.gid else gid)
                  f)
            × (env.stat path f ≡ some st)
            × (cred.euid ≡ 0))
  unfolding access_chown is_root
  access_chown_lem path uid gid f = elim (stat_reachable_lem path f) [
    | inl (g, n) ↦ rw (access_chown, g) (inl (n, refl))
    | inr (st, g, found, reach) ↦ elim (Bool-cases (cred.euid == 0)) [
      | inr b ↦ rw (access_chown, g, b) (inl (λ h. omega (arith, h), refl))
      | inl b ↦ rw (access_chown, g, b) (inr (st, refl, found, ground (arith, b)))
    ]
  ]
