-- ===== src/Access.antt =====
-- kernel/fs/vfs_access.c and kernel/core/credentials.c, who may do what to a file. A path is the list
-- of its bytes; a status is the negated return value, 0 for success. The virtual file system below
-- is the interface `Vfs`, over a state of its own.
pub mod Search
pub mod Walk
pub mod Owner
mod Tests
use hydrogen_os.Prelude.{
  ℕ, zero, suc, ◌+◌, ◌-◌, ◌/◌, ◌^◌, Bool, true, false, ◌&&◌, ◌||◌, not, ltb, leb, ◌==◌,
  if◌then◌else◌, Option, none, some, List, [], ◌∷◌, length, take, get_or, bit_and, bit_or,
}

abbrev pub eperm : ℕ
eperm = 1

abbrev pub enoent : ℕ
enoent = 2

abbrev pub eacces : ℕ
eacces = 13

abbrev pub einval : ℕ
einval = 22

abbrev pub access_exec : ℕ
access_exec = 1

abbrev pub access_write : ℕ
access_write = 2

abbrev pub path_max : ℕ
path_max = 256

abbrev pub id_none : ℕ
id_none = 0xFFFFFFFF

abbrev pub slash : ℕ
slash = 47

pub record Credentials : Type 0 where
  pub uid : ℕ
  pub euid : ℕ
  pub gid : ℕ

-- The fields of `vfs_stat_t` that the checks read.
pub record Stat : Type 0 where
  pub type : ℕ
  pub mode : ℕ
  pub uid : ℕ
  pub gid : ℕ

-- What the checks use of the file systems: `stat` is none where `vfs_stat` does not return 0.
pub record Vfs (F : Type 0) : Type 0 where
  pub stat : List ℕ → F → Option Stat
  pub chmod : List ℕ → ℕ → F → ℕ × F
  pub chown : List ℕ → ℕ → ℕ → F → ℕ × F

pub is_root : Credentials → Bool
is_root cred = cred.euid == 0

pub set_uid : ℕ → Credentials → ℕ × Credentials
set_uid id cred =
    if id == id_none
    then (einval, cred)
    else if not (is_root cred) && not (id == cred.uid)
    then (eperm, cred)
    else (0, record cred { uid = id; euid = id })

pub set_gid : ℕ → Credentials → ℕ × Credentials
set_gid id cred =
    if id == id_none
    then (einval, cred)
    else if not (is_root cred) && not (id == cred.gid)
    then (eperm, cred)
    else (0, record cred { gid = id })

pub class_bits : Credentials → Stat → ℕ
class_bits cred st =
    if cred.euid == st.uid
    then bit_and (st.mode / 2 ^ 6) 7
    else if cred.gid == st.gid
    then bit_and (st.mode / 2 ^ 3) 7
    else bit_and st.mode 7

-- `0111` in octal is 73.
pub mode_allows : Credentials → Stat → ℕ → ℕ
mode_allows cred st want =
    let runnable = st.type == 2 || not (bit_and st.mode 73 == 0) in
    if is_root cred
    then (if not (bit_and want access_exec == 0) && not runnable then eacces else 0)
    else if bit_and (class_bits cred st) want == want
    then 0
    else eacces

-- The directory holding the component that starts after the slash at `i`.
pub prefix_at : List ℕ → ℕ → List ℕ
prefix_at path i = take (if i == 0 then 1 else i) path

-- `while (len > 1 && path[len - 1] == '/') len--`, or with the opposite test.
pub strip_slashes : List ℕ → ℕ → ℕ
strip_slashes path zero = zero
strip_slashes path (suc n) =
    let rest = strip_slashes path n in
    if ltb 1 (suc n) && get_or path n 0 == slash then rest else suc n

pub strip_name : List ℕ → ℕ → ℕ
strip_name path zero = zero
strip_name path (suc n) =
    let rest = strip_name path n in
    if ltb 1 (suc n) && not (get_or path n 0 == slash) then rest else suc n

pub parent : List ℕ → List ℕ
parent path = take (strip_slashes path (strip_name path (strip_slashes path (length path)))) path

module _ {F : Type 0} (env : Vfs F) (cred : Credentials) where
  -- The loop of `check_search_path` at position `i` with `n` bytes left.
  pub search_loop : List ℕ → F → ℕ → ℕ → ℕ
  search_loop path f zero i = 0
  search_loop path f (suc n) i =
      let rest = search_loop path f n (i + 1) in
      let here : ℕ = elim (env.stat (prefix_at path i) f) [
        | none ↦ 0
        | some st ↦
            let rc = mode_allows cred st access_exec in
            if not (st.type == 2) then 0 else if not (rc == 0) then rc else rest
      ] in
      if not (get_or path i 0 == slash) then rest else here

  pub check_search_path : List ℕ → F → ℕ
  check_search_path path f =
      if leb path_max (length path) || not (get_or path 0 0 == slash)
      then einval
      else search_loop path f (length path) 0

  pub check_target : List ℕ → ℕ → F → ℕ
  check_target path want f = elim (env.stat path f) [
    | none ↦ 0
    | some st ↦ mode_allows cred st want
  ]

  pub access_check : List ℕ → ℕ → F → ℕ
  access_check path want f =
      let rc = check_search_path path f in
      if not (is_root cred)
      then (if not (rc == 0) then rc else check_target path want f)
      else if bit_and want access_exec == 0
      then 0
      else check_target path want f

  pub access_check_entry : List ℕ → F → ℕ
  access_check_entry path f =
      let rc = check_search_path path f in
      let at_parent : ℕ = elim (env.stat (parent path) f) [
        | none ↦ 0
        | some st ↦
            if not (st.type == 2) then 0 else mode_allows cred st (bit_or access_write access_exec)
      ] in
      if is_root cred
      then 0
      else if not (rc == 0)
      then rc
      else if leb path_max (length path)
      then einval
      else at_parent

  -- Shared by chmod and chown; the status of the right is not 0.
  pub stat_reachable : List ℕ → F → ℕ × Option Stat
  stat_reachable path f =
      let rc = access_check path 0 f in
      let found : ℕ × Option Stat = elim (env.stat path f) [
        | none ↦ (enoent, none)
        | some st ↦ (0, some st)
      ] in
      if not (rc == 0) then (rc, none) else found

  pub access_chmod : List ℕ → ℕ → F → ℕ × F
  access_chmod path mode f =
      let t = stat_reachable path f in
      let change : ℕ × F = elim t.1 [
        | none ↦ (t.0, f)
        | some st ↦
            if not (is_root cred) && not (cred.euid == st.uid)
            then (eperm, f)
            else env.chmod path mode f
      ] in
      if not (bit_and mode (2 ^ 32 - 1 - 511) == 0) then (einval, f) else change

  pub access_chown : List ℕ → ℕ → ℕ → F → ℕ × F
  access_chown path uid gid f =
      let t = stat_reachable path f in
      elim t.1 [
        | none ↦ (t.0, f)
        | some st ↦
            if not (is_root cred)
            then (eperm, f)
            else env.chown path (if uid == id_none then st.uid else uid)
                (if gid == id_none then st.gid else gid) f
      ]

  pub access_claim : List ℕ → F → ℕ × F
  access_claim path f =
      if cred.euid == 0 && cred.gid == 0 then (0, f) else env.chown path cred.euid cred.gid f
