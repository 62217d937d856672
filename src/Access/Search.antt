-- ===== src/Access/Search.antt =====
-- kernel/fs/vfs_access.c: who may search a directory, and which directory a slash of a path ends.
use hydrogen_os.Prelude.{
  ℕ, zero, suc, ◌/◌, ◌%◌, ◌<◌, ◌≡◌, ◌∙◌, ◌⊎◌, refl, sym, ap, Bool, false, ◌||◌, ◌==◌, if◌then◌else◌,
  List, [], ◌∷◌, ◌++◌, take, drop, get_or, length, length-take, take-append-drop, bit_and, min,
  arith, inl, inr,
}
use Prim.Native.Nat.{digits, bit_and-bitwise}
use hydrogen_os.Access.{
  Credentials, Stat, slash, eacces, access_exec, is_root, class_bits, mode_allows, prefix_at,
}

-- Root may search every directory; for others the execute bit of their class decides, bit 6 of the
-- mode for the owner, bit 3 for the group and bit 0 for everybody else.
abbrev pub may_search : Credentials → Stat → Bool
may_search cred st =
    (cred.euid == 0)
    || (if cred.euid == st.uid
        then st.mode / 64 % 2 == 1
        else if cred.gid == st.gid
        then st.mode / 8 % 2 == 1
        else st.mode % 2 == 1)

digits-zero : (n a : ℕ) → digits (λ b. zero) min n a 0 ≡ 0
digits-zero zero a = refl
digits-zero (suc n) zero = refl
digits-zero (suc n) (suc a) = omega (arith, digits-zero n (suc a / 2))

bit_and-one : (x : ℕ) → bit_and x 1 ≡ x % 2
bit_and-one zero = refl
bit_and-one (suc a) = bit_and-bitwise (suc a) 1 ∙ omega (arith, digits-zero a (suc a / 2))

low_bit : (x : ℕ) → bit_and x 7 % 2 ≡ x % 2
low_bit zero = refl
low_bit (suc a) = ap (λ t. t % 2) (bit_and-bitwise (suc a) 7) ∙ omega arith

execute_bit : (x : ℕ) → bit_and (bit_and x 7) 1 ≡ x % 2
execute_bit x = bit_and-one (bit_and x 7) ∙ low_bit x

pub mode_allows-may_search :
    (cred : Credentials) (st : Stat)
    → st.type ≡ 2
    → mode_allows cred st access_exec ≡ (if may_search cred st then 0 else eacces)
unfolding mode_allows class_bits is_root
mode_allows-may_search cred st dir =
    ground (arith, dir, execute_bit (st.mode / 64), execute_bit (st.mode / 8), execute_bit st.mode)

-- The directory that the slash at `k` ends: the root for the first slash, and otherwise the bytes of
-- the path before the slash.
abbrev pub DirName : List ℕ → ℕ → List ℕ → Type 0
DirName path k d =
    ((k ≡ 0) × (d ≡ slash ∷ [])) ⊎ ((0 < k) × (length d ≡ k) × (rest : List ℕ) × (d ++ rest ≡ path))

take-prefix : (d rest : List ℕ) → take (length d) (d ++ rest) ≡ d
take-prefix [] rest = refl
take-prefix (c ∷ d) rest = ap (λ t. c ∷ t) (take-prefix d rest)

first_byte : (path : List ℕ) → 0 < length path → take 1 path ≡ get_or path 0 0 ∷ []
first_byte [] h = absurd (omega (arith, h))
first_byte (c ∷ path) h = refl

prefix_at-first :
    (path : List ℕ) → 0 < length path → get_or path 0 0 ≡ slash → prefix_at path 0 ≡ slash ∷ []
unfolding prefix_at
prefix_at-first path h e = first_byte path h ∙ ap (λ c. c ∷ []) e

prefix_at-later : (path : List ℕ) (k : ℕ) → 0 < k → prefix_at path k ≡ take k path
unfolding prefix_at
prefix_at-later path k h = let no : (k == 0) ≡ false = ground (arith, h) in rw no refl

pub DirName-prefix_at :
    (path : List ℕ) (k : ℕ)
    → k < length path
    → get_or path k 0 ≡ slash
    → DirName path k (prefix_at path k)
DirName-prefix_at path zero h e = inl (refl, prefix_at-first path h e)
DirName-prefix_at path (suc n) h e =
    let same = prefix_at-later path (suc n) (omega arith) in
    inr (
      omega arith,
      ap length same ∙ length-take (suc n) path ∙ omega (arith, h),
      drop (suc n) path,
      ap (λ t. t ++ drop (suc n) path) same ∙ take-append-drop (suc n) path,
    )

pub prefix_at-DirName :
    (path : List ℕ) (k : ℕ) (d : List ℕ)
    → k < length path
    → get_or path k 0 ≡ slash
    → DirName path k d
    → prefix_at path k ≡ d
prefix_at-DirName path k d h e (inl (z, same)) =
    ap (prefix_at path) z
    ∙ prefix_at-first path (omega (arith, h)) (ap (λ t. get_or path t 0) (sym z) ∙ e)
    ∙ sym same
prefix_at-DirName path k d h e (inr (lt, len, rest, whole)) =
    prefix_at-later path k lt
    ∙ ap (λ t. take k t) (sym whole)
    ∙ ap (λ t. take t (d ++ rest)) (sym len)
    ∙ take-prefix d rest
