-- ===== src/SpawnArgs/Place.antt =====
-- kernel/core/spawn_args.c, spawn_args_place: where it writes.
use hydrogen_os.Prelude.{ℕ, ◌+◌, ◌*◌, ◌%◌, ◌≤◌, ◌<◌, ◌≡◌, List, [], ◌∷◌}
use hydrogen_os.SpawnArgs.{SpawnArgs, Frame, Effect, write_byte, write_word}

-- Writes only, all of whose bytes lie from one address up to another.
pub data Within (low high : ℕ) : List Effect → Type 0 where
  within_nil : Within low high []
  within_byte :
      {a x : ℕ} {es : List Effect}
      → low ≤ a
      → a < high
      → Within low high es
      → Within low high (write_byte a x ∷ es)
  within_word :
      {a x : ℕ} {es : List Effect}
      → low ≤ a
      → a + 8 ≤ high
      → Within low high es
      → Within low high (write_word a x ∷ es)

-- The frame that a process starts from, below the old top of its stack.
pub record Entry (frame : Frame) (args : SpawnArgs) (new : Frame) : Type 0 where
  pub aligned : new.rsp % 16 ≡ 0
  pub near : frame.rsp ≤ new.rsp + (args.bytes + (args.argc + args.envc + 2) * 8 + 30)
  pub count : new.rdi ≡ args.argc
  pub arguments : new.rsi ≡ new.rsp
  pub environment : new.rdx ≡ new.rsp + (args.argc + 1) * 8
