-- ===== src/SpawnArgs/Tests.antt =====
-- kernel/core/spawn_args.c: runs on two arguments and one variable.
use mathlib.Core.Option
use hydrogen_os.Prelude.{ℕ, ◌≡◌, refl, false, get_or, none, some, [], ◌∷◌}
use hydrogen_os.SpawnArgs.{
  SpawnArgs, Frame, write_word, next_loop, spawn_args_next, strings_va, vector_va, vector_loop,
  spawn_args_place, spawn_args_apply,
}

-- `ls a`, with the variable `B=`.
abbrev listing : SpawnArgs
listing = record {
  argc = 2;
  envc = 1;
  bytes = 8;
  strings = λ i. get_or (b'l' ∷ b's' ∷ 0 ∷ b'a' ∷ 0 ∷ b'B' ∷ b'=' ∷ 0 ∷ []) i 0;
}

abbrev empty_stack : Frame
empty_stack = record { rsp = 8192; rdi = 0; rsi = 0; rdx = 0 }

entered :
    Option.map (λ r. r.0) (spawn_args_place 1 2 (some empty_stack) (some listing))
    ≡ some (record { rsp = 8128; rdi = 2; rsi = 8128; rdx = 8152 })
unfolding strings_va vector_va spawn_args_place
entered = refl

vectors :
    (vector_loop 2 listing 8176 8128 0 0).0 ≡ write_word 8128 8176 ∷ (write_word 8136 8179 ∷ [])
unfolding next_loop spawn_args_next vector_loop
vectors = refl

no_frame :
    spawn_args_apply 2
      (some (record { has_frame = false; pml4 = 1; frame = empty_stack }))
      (some listing)
    ≡ none
unfolding spawn_args_apply
no_frame = refl

-- The page tables of the new process.
abbrev new_tables : ℕ
new_tables = 1
