-- ===== src/Pipe/Tests.antt =====
-- kernel/core/pipe.c at a pipe that holds two bytes across the end of its buffer.
use hydrogen_os.Prelude.{
  ◌+◌, ◌≡◌, refl, ◌⊎◌, ◌^◌, ◌<◌, true, false, ◌==◌, if◌then◌else◌, [], ◌∷◌, arith, replicate, set,
  none, some,
}
use hydrogen_os.Waitq.{Ptr, null, Store, WaitEntry}
use hydrogen_os.Waitq.Chain.{Holds}
use hydrogen_os.Pipe.{
  Pipe, PipeState, acquire, uint32_max, create, read_loop, take_byte, read_pipe, broken, write,
  close_reader_of, close_writer_of,
}
use hydrogen_os.Pipe.Ring.{IsValid}
use hydrogen_os.Pipe.Handlers.{ReadSpec, Written, read_pipe_lem, write_lem}
use hydrogen_os.Pipe.Pool.{Created, create-Created}
use hydrogen_os.Pipe.Close.{CloseSpec, close_reader_lem, close_writer_lem, acquire-count}

abbrev pipe : Pipe
pipe = record {
  used = true;
  readers = 1;
  writers = 1;
  read_pos = 511;
  write_pos = 1;
  size = 2;
  read_waiters = 100;
  write_waiters = 200;
  poll_waiters = 300;
  buffer = set (set (replicate 512 0) 511 65) 0 66;
}

pipe-IsValid : IsValid pipe
pipe-IsValid = record {
  storage = refl;
  read_in = omega arith;
  size_le = omega arith;
  write_at = omega arith;
}

pipe_reads : (read_loop 5 pipe).0 ≡ 65 ∷ 66 ∷ []
unfolding read_loop take_byte
pipe_reads = refl

abbrev entry : Ptr → WaitEntry
entry q = record {
  next = null;
  prev = null;
  queue = q;
  wake = 7;
  owner = 9;
  linked = true;
  woken = false;
  exclusive = true;
}

-- One reader waits as entry 1, one writer as entry 2, nobody polls.
abbrev store : Store
store = record {
  queue_at = λ q.
      if q == 100
      then record { head = 1; tail = 1 }
      else if q == 200
      then record { head = 2; tail = 2 }
      else record { head = null; tail = null };
  entry_at = λ e. if e == 1 then entry 100 else entry 200;
  calls = [];
}

readers_hold : Holds store 100 (1 ∷ [])
readers_hold = record {
  head = refl;
  tail = refl;
  chain = (
    record { ne_null = omega arith; prev = refl; next = refl; queue = refl; linked = refl },
    refl,
    tt,
  );
}

writers_hold : Holds store 200 (2 ∷ [])
writers_hold = record {
  head = refl;
  tail = refl;
  chain = (
    record { ne_null = omega arith; prev = refl; next = refl; queue = refl; linked = refl },
    refl,
    tt,
  );
}

pollers_hold : Holds store 300 []
pollers_hold = record { head = refl; tail = refl; chain = tt }

read_pipe_example : ReadSpec 1 pipe store (2 ∷ []) [] (1 ∷ []) (read_pipe 4 1 pipe store)
read_pipe_example =
    read_pipe_lem 4 pipe store pipe-IsValid
      (record { ne12 = omega arith; ne13 = omega arith; ne23 = omega arith })
      (record { first = writers_hold; second = pollers_hold; third = readers_hold }) (omega arith) 1

close_reader_example : CloseSpec pipe store 0 1 0 (2 ∷ []) [] (close_reader_of 4 pipe store)
close_reader_example =
    close_reader_lem 4 pipe store refl pollers_hold (omega arith) (2 ∷ []) writers_hold
      (omega arith) (omega arith)

close_writer_example : CloseSpec pipe store 1 0 0 (1 ∷ []) [] (close_writer_of 4 pipe store)
close_writer_example =
    close_writer_lem 4 pipe store refl pollers_hold (omega arith) (1 ∷ []) readers_hold
      (omega arith) (omega arith)

acquire-count_example :
    (acquire pipe 1 ≡ none)
      × ((pipe.used ≡ false) ⊎ ((pipe.readers ≡ 0) × (pipe.writers ≡ 0)) ⊎ (1 ≡ uint32_max))
    ⊎ ((acquire pipe 1 ≡ some (1 + 1))
        × (1 + 1 < 2 ^ 32)
        × (pipe.used ≡ true)
        × (0 < pipe.readers + pipe.writers))
acquire-count_example = acquire-count pipe 1 (omega arith)

abbrev pool : PipeState
pool = record {
  pipes = pipe ∷ record pipe { used = false } ∷ [];
  store = store;
  pipe_bytes_read = 0;
  pipe_bytes_written = 0;
}

create-Created_example : Created pool (create pool)
create-Created_example = create-Created pool

write_example :
    Written 0 (7 ∷ 8 ∷ []) true pipe pool (1 ∷ []) [] (2 ∷ []) (write 4 0 (7 ∷ 8 ∷ []) true pool)
write_example =
    write_lem 4 0 (7 ∷ 8 ∷ []) true pipe pool (1 ∷ []) [] (2 ∷ []) refl pipe-IsValid
      (record { ne12 = omega arith; ne13 = omega arith; ne23 = omega arith })
      (record { first = readers_hold; second = pollers_hold; third = writers_hold }) (omega arith)

-- A pipe that nobody reads is broken.
write_broken :
    let lonely = record pool { pipes = record pipe { readers = 0 } ∷ [] } in
    write 4 0 (7 ∷ []) true lonely ≡ (broken, lonely)
unfolding write
write_broken = refl
