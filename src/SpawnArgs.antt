-- ===== src/SpawnArgs.antt =====
-- kernel/core/spawn_args.c, the arguments and the environment of a new process on its stack. What the
-- code does to memory is the list of its writes, between the switches of the page tables; a null
-- pointer to a frame, arguments or a process is `none`. The address in a write does not wrap, since a
-- pointer into an array does not.
pub mod Vectors
pub mod Place
mod Tests
use mathlib.Core.Option
use hydrogen_os.Prelude.{
  ℕ, zero, suc, ◌+◌, ◌-◌, ◌*◌, ◌%◌, ◌^◌, Bool, ◌&&◌, ◌||◌, not, ltb, ◌==◌, if◌then◌else◌, Option,
  none, some, List, [], ◌∷◌, ◌++◌,
}

abbrev pub spawn_args_max_entries : ℕ
spawn_args_max_entries = 64

abbrev pub spawn_args_max_bytes : ℕ
spawn_args_max_bytes = 3072

pub record SpawnArgs : Type 0 where
  pub argc : ℕ
  pub envc : ℕ
  pub bytes : ℕ
  pub strings : ℕ → ℕ

-- The registers of a frame that are written.
pub record Frame : Type 0 where
  pub rsp : ℕ
  pub rdi : ℕ
  pub rsi : ℕ
  pub rdx : ℕ

-- The fields of a process that are used.
pub record Process : Type 0 where
  pub has_frame : Bool
  pub pml4 : ℕ
  pub frame : Frame

-- A switch to page tables, a write of a byte and of a word of 64 bits at an address.
pub data Effect : Type 0 where
  switch_to : ℕ → Effect
  write_byte write_word : ℕ → ℕ → Effect

-- The loop of `spawn_args_next`.
pub next_loop : ℕ → SpawnArgs → ℕ → ℕ
next_loop zero args off = off
next_loop (suc n) args off =
    let rest = next_loop n args (off + 1) in
    if ltb off args.bytes && not (args.strings off == 0) then rest else off

pub spawn_args_next : SpawnArgs → ℕ → ℕ
spawn_args_next args off = (next_loop args.bytes args off + 1) % 2 ^ 32

-- `& ~(uintptr_t)15`
abbrev pub align_down : ℕ → ℕ
align_down x = x - x % 16

abbrev pub slots : SpawnArgs → ℕ
slots args = (args.argc + 1 + args.envc + 1) % 2 ^ 32

pub strings_va : ℕ → SpawnArgs → ℕ
strings_va rsp args = align_down ((rsp + (2 ^ 64 - args.bytes)) % 2 ^ 64)

pub vector_va : ℕ → SpawnArgs → ℕ
vector_va rsp args = align_down ((strings_va rsp args + (2 ^ 64 - slots args * 8)) % 2 ^ 64)

-- The copy of so many bytes from a position on.
pub copy_strings : ℕ → SpawnArgs → ℕ → ℕ → List Effect
copy_strings zero args strings i = []
copy_strings (suc n) args strings i =
    write_byte (strings + i) (args.strings i) ∷ copy_strings n args strings (i + 1)

-- The loop over so many strings, with the slot and the offset that it leaves.
pub vector_loop : ℕ → SpawnArgs → ℕ → ℕ → ℕ → ℕ → List Effect × ℕ × ℕ
vector_loop zero args strings vector slot off = ([], slot, off)
vector_loop (suc n) args strings vector slot off =
    let rest = vector_loop n args strings vector ((slot + 1) % 2 ^ 32) (spawn_args_next args off) in
    (write_word (vector + slot * 8) ((strings + off) % 2 ^ 64) ∷ rest.0, rest.1, rest.2)

-- The writes between the two switches.
pub place_writes : SpawnArgs → ℕ → ℕ → List Effect
place_writes args strings vector =
    let argv = vector_loop args.argc args strings vector 0 0 in
    let envp = vector_loop args.envc args strings vector ((argv.1 + 1) % 2 ^ 32) argv.2 in
    copy_strings args.bytes args strings 0
    ++ (argv.0
        ++ (write_word (vector + argv.1 * 8) 0
            ∷ (envp.0 ++ (write_word (vector + envp.1 * 8) 0 ∷ []))))

-- The entry registers, with the address of the vectors.
abbrev pub entry_frame : SpawnArgs → ℕ → Frame
entry_frame args vector = record {
  rsp = vector;
  rdi = args.argc;
  rsi = vector;
  rdx = (vector + ((args.argc + 1) % 2 ^ 32) * 8) % 2 ^ 64;
}

-- `spawn_args_place` with the page tables of the process and the current ones: the frame it leaves
-- and its effects, none where it returns -1.
pub spawn_args_place : ℕ → ℕ → Option Frame → Option SpawnArgs → Option (Frame × List Effect)
spawn_args_place pml4 prev_pml4 none args = none
spawn_args_place pml4 prev_pml4 (some frame) none = none
spawn_args_place pml4 prev_pml4 (some frame) (some args) =
    if (pml4 == 0)
      || (ltb spawn_args_max_entries ((args.argc + args.envc) % 2 ^ 32)
          || ltb spawn_args_max_bytes args.bytes)
    then none
    else let strings = strings_va frame.rsp args in
      let vector = vector_va frame.rsp args in
      some (
        entry_frame args vector,
        switch_to pml4 ∷ (place_writes args strings vector ++ (switch_to prev_pml4 ∷ [])),
      )

pub spawn_args_apply : ℕ → Option Process → Option SpawnArgs → Option (Process × List Effect)
spawn_args_apply prev_pml4 none args = none
spawn_args_apply prev_pml4 (some proc) args =
    if not proc.has_frame
    then none
    else Option.map (λ r. (record proc { frame = r.0 }, r.1))
        (spawn_args_place proc.pml4 prev_pml4 (some proc.frame) args)
