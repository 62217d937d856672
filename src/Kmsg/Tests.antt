-- ===== src/Kmsg/Tests.antt =====
-- kernel/core/kmsg.c: runs on a short log.
use hydrogen_os.Prelude.{ℕ, ◌≡◌, refl, some, List, [], ◌∷◌, drop, arith}
use hydrogen_os.Kmsg.{cleared, kmsg_push, walk_back, copy_loop, kmsg_copy_tail}
use hydrogen_os.Kmsg.Log.{push_all}
use hydrogen_os.Kmsg.Tail.{clean, Start, kmsg_copy_tail_lem}

-- Two lines, the second with a return and a bell.
abbrev boot_log : List ℕ
boot_log = b'o' ∷ b'k' ∷ b'\n' ∷ b'u' ∷ b'p' ∷ b'\r' ∷ 7 ∷ b'\n' ∷ []

last_line : kmsg_copy_tail 64 1 (push_all boot_log cleared) ≡ some (b'u' ∷ b'p' ∷ b'?' ∷ b'\n' ∷ [])
unfolding kmsg_push kmsg_copy_tail walk_back copy_loop
last_line = refl

-- A buffer of five bytes, the terminator's included, gets three characters.
small_buffer : kmsg_copy_tail 5 0 (push_all boot_log cleared) ≡ some (b'p' ∷ b'?' ∷ b'\n' ∷ [])
unfolding kmsg_push kmsg_copy_tail walk_back copy_loop
small_buffer = refl

kmsg_copy_tail_example :
    (start : ℕ) × Start boot_log 0 64 1 start
    × (kmsg_copy_tail 64 1 (push_all boot_log cleared) ≡ some (clean (drop start boot_log)))
kmsg_copy_tail_example = kmsg_copy_tail_lem boot_log 64 1 (omega arith) (omega arith)
