-- ===== src/Cmdline/Tests.antt =====
-- kernel/core/cmdline.c: runs on a short command line.
use hydrogen_os.Prelude.{ℕ, ◌-◌, ◌<◌, ◌≡◌, refl, true, false, [], ◌∷◌, get_or, length}
use hydrogen_os.Cmdline.{
  cmdline_cap, BootLine, copy_text, cmdline_init, skip_spaces, find_word_end, match_name,
  has_flag_loop, cmdline_has_flag,
}
use hydrogen_os.Cmdline.Words.{is_named}
use hydrogen_os.Cmdline.Flag.{cmdline_has_flag-cmdline_init}

-- `ro  fast` at address 4096
abbrev memory : ℕ → ℕ
memory a = get_or (b'r' ∷ b'o' ∷ b' ' ∷ b' ' ∷ b'f' ∷ b'a' ∷ b's' ∷ b't' ∷ []) (a - 4096) 0

abbrev info : BootLine
info = record { flags = 4; cmdline = 4096 }

has_fast : cmdline_has_flag (cmdline_init memory 64 info) (b'f' ∷ b'a' ∷ b's' ∷ b't' ∷ []) ≡ true
unfolding copy_text cmdline_init skip_spaces find_word_end match_name has_flag_loop cmdline_has_flag
has_fast = refl

has_no_prefix : cmdline_has_flag (cmdline_init memory 64 info) (b'f' ∷ b'a' ∷ []) ≡ false
unfolding copy_text cmdline_init skip_spaces find_word_end match_name has_flag_loop cmdline_has_flag
has_no_prefix = refl

cmdline_has_flag_example :
    (cmdline_has_flag (cmdline_init memory 64 info) (b'r' ∷ b'o' ∷ [])
      ≡ is_named (cmdline_init memory 64 info) (b'r' ∷ b'o' ∷ []))
    × (length (cmdline_init memory 64 info) < cmdline_cap)
cmdline_has_flag_example = cmdline_has_flag-cmdline_init memory 64 info (b'r' ∷ b'o' ∷ []) refl
