-- ===== src/Access/Tests.antt =====
-- kernel/fs/vfs_access.c and kernel/core/credentials.c: runs on a file system with `/`, the private
-- directory `/a` of user 5, and the file `/a/b` of user 5, whose state is the file's mode.
use hydrogen_os.Prelude.{
  ℕ, ◌-◌, ◌^◌, ◌≡◌, ◌≢◌, ◌⊎◌, ◌==◌, refl, if◌then◌else◌, some, List, [], ◌∷◌, length, arith,
  bit_and,
}
use hydrogen_os.Access.{
  Credentials, Stat, Vfs, slash, eacces, id_none, class_bits, mode_allows, prefix_at, search_loop,
  check_search_path, check_target, is_root, access_check, access_chmod, access_chown,
}
use hydrogen_os.Access.Walk.{Searchable, Denied, check_search_path_lem}
use hydrogen_os.Access.Owner.{
  call_uid, call_gid, run, run-unprivileged, access_chmod_lem, access_chown_lem,
}

abbrev small : Vfs ℕ
small = record {
  stat = λ path f.
      if length path == 1
      then some (record { type = 2; mode = 493; uid = 0; gid = 0 })
      else if length path == 2
      then some (record { type = 2; mode = 448; uid = 5; gid = 5 })
      else some (record { type = 1; mode = f; uid = 5; gid = 5 });
  chmod = λ path mode f. (0, mode);
  chown = λ path uid gid f. (0, f);
}

abbrev user : ℕ → Credentials
user id = record { uid = id; euid = id; gid = id }

abbrev file : List ℕ
file = slash ∷ 97 ∷ slash ∷ 98 ∷ []

-- Another user does not get through `/a`.
other_denied : access_check small (user 6) file 4 420 ≡ eacces
unfolding access_check is_root check_search_path search_loop prefix_at mode_allows class_bits
other_denied = refl

-- The owner reads the file and changes its mode.
owner_allowed : access_check small (user 5) file 4 420 ≡ 0
unfolding access_check is_root check_search_path search_loop prefix_at mode_allows class_bits
    check_target
owner_allowed = refl

run-unprivileged_example : run (call_uid 0 ∷ call_gid 0 ∷ call_uid 5 ∷ []) (user 5) ≡ user 5
run-unprivileged_example =
    run-unprivileged (call_uid 0 ∷ call_gid 0 ∷ call_uid 5 ∷ []) (user 5) (λ h. omega (arith, h))
      refl

check_search_path_example :
    ((check_search_path small (user 6) file 420 ≡ 0) × Searchable small (user 6) file 420)
    ⊎ ((check_search_path small (user 6) file 420 ≡ eacces) × Denied small (user 6) file 420)
check_search_path_example = check_search_path_lem small (user 6) file 420 (omega arith) refl

access_chmod_example :
    (((access_chmod small (user 5) file 384 420).0 ≢ 0)
      × ((access_chmod small (user 5) file 384 420).1 ≡ 420))
    ⊎ ((st : Stat) × (access_chmod small (user 5) file 384 420 ≡ (0, 384))
        × (bit_and 384 (2 ^ 32 - 1 - 511) ≡ 0)
        × (small.stat file 420 ≡ some st)
        × (access_check small (user 5) file 0 420 ≡ 0)
        × (((user 5).euid ≡ 0) ⊎ ((user 5).euid ≡ st.uid)))
access_chmod_example = access_chmod_lem small (user 5) file 384 420

access_chown_example :
    (((access_chown small (user 0) file id_none 7 420).0 ≢ 0)
      × ((access_chown small (user 0) file id_none 7 420).1 ≡ 420))
    ⊎ ((st : Stat) × (access_chown small (user 0) file id_none 7 420 ≡ (0, 420))
        × (small.stat file 420 ≡ some st)
        × ((user 0).euid ≡ 0))
access_chown_example = access_chown_lem small (user 0) file id_none 7 420
