-- ===== src/Pipe.antt =====
-- kernel/core/pipe.c, the kernel's pipes: a pool of 64 slots, each a ring of 512 bytes with counts of
-- its readers and writers and three wait queues. A pointer to a pipe is its slot's number, and a
-- number outside the pool stands for the null pointer. The wait queues live in the store of
-- `Waitq`, at the addresses that the pipe's fields give. `waiters` bounds the number of waiters that
-- one `wait_queue_wake_all` meets.
pub mod Ring
pub mod Transfer
pub mod Wakes
pub mod Handlers
pub mod Pool
pub mod Close
mod Tests
use hydrogen_os.Prelude.{
  ℕ, zero, suc, ◌+◌, ◌-◌, ◌%◌, ◌^◌, Bool, true, false, ◌&&◌, ltb, ◌==◌, if◌then◌else◌, not, Option,
  none, some, List, [], ◌∷◌, ◌||◌, length, get_elem?, get_or, set,
}
use hydrogen_os.Waitq.{Ptr, null, Store, queue_init, wake_one, wake_all}

abbrev pub capacity : ℕ
capacity = 512

pub record Pipe : Type 0 where
  pub used : Bool
  pub readers : ℕ
  pub writers : ℕ
  pub read_pos : ℕ
  pub write_pos : ℕ
  pub size : ℕ
  pub read_waiters : Ptr
  pub write_waiters : Ptr
  pub poll_waiters : Ptr
  pub buffer : List ℕ

-- The pool, the store of the wait queues, and the two performance counters that pipes feed.
pub record PipeState : Type 0 where
  pub pipes : List Pipe
  pub store : Store
  pub pipe_bytes_read : ℕ
  pub pipe_bytes_written : ℕ

-- The return code with what goes through the output pointers: -1, -2, 1, and 0 with the bytes read
-- or their number.
pub data PipeResult {ℓ} (A : Type ℓ) : Type ℓ where
  invalid : PipeResult A
  broken : PipeResult A
  would_block : PipeResult A
  transferred : A → PipeResult A

pub reset : Pipe → Pipe
reset p = record p { used = false; readers = 0; writers = 0; read_pos = 0; write_pos = 0; size = 0 }

pub reset_queues : Pipe → Store → Store
reset_queues p s =
    queue_init p.poll_waiters (queue_init p.write_waiters (queue_init p.read_waiters s))

pub maybe_release : Pipe → Store → Pipe × Store
maybe_release p s =
    if p.used && p.readers == 0 && p.writers == 0 then (reset p, reset_queues p s) else (p, s)

pub put_pipe : ℕ → Pipe × Store → PipeState → PipeState
put_pipe i r s = record s { pipes = set s.pipes i r.0; store = r.1 }

-- The loop of `kernel_pipe_create` over the slots from `i` on.
pub find_unused : List Pipe → ℕ → Option ℕ
find_unused [] i = none
find_unused (p ∷ ps) i = if p.used then find_unused ps (i + 1) else some i

pub fresh : Pipe → Pipe
fresh p = record (reset p) { used = true; readers = 1; writers = 1 }

pub create : PipeState → Option ℕ × PipeState
create s = elim (find_unused s.pipes 0) [
  | none ↦ (none, s)
  | some i ↦ elim (get_elem? s.pipes i) [
    | none ↦ (none, s)
    | some p ↦ (some i, put_pipe i (fresh p, reset_queues p s.store) s)
  ]
]

abbrev pub uint32_max : ℕ
uint32_max = 2 ^ 32 - 1

-- `kernel_pipe_acquire` on a count of the pipe: the new count, or a refusal.
pub acquire : Pipe → ℕ → Option ℕ
acquire p count =
    if not p.used || (p.readers == 0 && p.writers == 0)
    then none
    else if count == uint32_max
    then none
    else some (count + 1)

pub acquire_reader : ℕ → PipeState → Bool × PipeState
acquire_reader i s = elim (get_elem? s.pipes i) [
  | none ↦ (false, s)
  | some p ↦ elim (acquire p p.readers) [
    | none ↦ (false, s)
    | some n ↦ (true, put_pipe i (record p { readers = n }, s.store) s)
  ]
]

pub acquire_writer : ℕ → PipeState → Bool × PipeState
acquire_writer i s = elim (get_elem? s.pipes i) [
  | none ↦ (false, s)
  | some p ↦ elim (acquire p p.writers) [
    | none ↦ (false, s)
    | some n ↦ (true, put_pipe i (record p { writers = n }, s.store) s)
  ]
]

pub has_readers : Pipe → Bool
has_readers p = p.used && ltb 0 p.readers

pub has_writers : Pipe → Bool
has_writers p = p.used && ltb 0 p.writers

pub has_data : Pipe → Bool
has_data p = p.used && ltb 0 p.size

pub has_space : Pipe → Bool
has_space p = p.used && ltb p.size capacity

-- One byte out of and into the ring.
pub take_byte : Pipe → Pipe
take_byte p = record p { read_pos = (p.read_pos + 1) % capacity; size = p.size - 1 }

pub put_byte : ℕ → Pipe → Pipe
put_byte b p = record p {
  buffer = set p.buffer p.write_pos b;
  write_pos = (p.write_pos + 1) % capacity;
  size = p.size + 1;
}

-- The loop of `kernel_pipe_read` with `n` bytes of `out` left.
pub read_loop : ℕ → Pipe → List ℕ × Pipe
read_loop zero p = ([], p)
read_loop (suc n) p =
    let rest = read_loop n (take_byte p) in
    if p.size == 0 then ([], p) else (get_or p.buffer p.read_pos 0 ∷ rest.0, rest.1)

-- The loop of `kernel_pipe_write` over the bytes of `in` that are left: the number taken.
pub write_loop : List ℕ → Pipe → ℕ × Pipe
write_loop [] p = (0, p)
write_loop (b ∷ bs) p =
    let rest = write_loop bs (put_byte b p) in
    if ltb p.size capacity then (rest.0 + 1, rest.1) else (0, p)

-- The wakes of a transfer: one waiter of the other side, every poller, and one of the own side if
-- it can go on.
pub wake_after : ℕ → Ptr → Ptr → Ptr → Bool → Store → Store
wake_after waiters other poll own more s =
    let s1 = (wake_one other null s).1 in
    let s2 = (wake_all waiters poll null s1).1 in if more then (wake_one own null s2).1 else s2

-- `kernel_pipe_read` past its argument checks; `out_sz` is the room in `out`.
pub read_pipe : ℕ → ℕ → Pipe → Store → PipeResult (List ℕ) × Pipe × Store
read_pipe waiters out_sz p s =
    let r = read_loop out_sz p in
    let n = length r.0 in
    if n == 0 && ltb 0 r.1.writers
    then (would_block, r.1, s)
    else if ltb 0 n
    then (
      transferred r.0,
      r.1,
      wake_after waiters r.1.write_waiters r.1.poll_waiters r.1.read_waiters (ltb 0 r.1.size) s,
    )
    else (transferred r.0, r.1, s)

pub read : ℕ → ℕ → ℕ → Bool → PipeState → PipeResult (List ℕ) × PipeState
read waiters i out_sz pointers s = elim (get_elem? s.pipes i) [
  | none ↦ (invalid, s)
  | some p ↦
      let (res, q, t) = read_pipe waiters out_sz p s.store in
      let n = length (read_loop out_sz p).0 in
      let u = put_pipe i (q, t) s in
      if not p.used || not pointers
      then (invalid, s)
      else (res, record u { pipe_bytes_read = (u.pipe_bytes_read + n) % 2 ^ 64 })
]

-- `kernel_pipe_write` past its argument checks.
pub write_pipe : ℕ → List ℕ → Pipe → Store → PipeResult ℕ × Pipe × Store
write_pipe waiters bytes p s =
    let r = write_loop bytes p in
    if r.0 == 0 && not (ltb r.1.size capacity)
    then (would_block, r.1, s)
    else if ltb 0 r.0
    then (
      transferred r.0,
      r.1,
      wake_after waiters r.1.read_waiters r.1.poll_waiters r.1.write_waiters (ltb r.1.size capacity)
          s,
    )
    else (transferred r.0, r.1, s)

pub write : ℕ → ℕ → List ℕ → Bool → PipeState → PipeResult ℕ × PipeState
write waiters i bytes pointers s = elim (get_elem? s.pipes i) [
  | none ↦ (invalid, s)
  | some p ↦
      let (res, q, t) = write_pipe waiters bytes p s.store in
      let n = (write_loop bytes p).0 in
      let u = put_pipe i (q, t) s in
      if not p.used || not pointers
      then (invalid, s)
      else if p.readers == 0
      then (broken, s)
      else (res, record u { pipe_bytes_written = (u.pipe_bytes_written + n) % 2 ^ 64 })
]

-- The part that the two closing functions share: wake a queue and the pollers if `last`.
pub wake_closed : ℕ → Bool → Ptr → Ptr → Store → Store
wake_closed waiters last side poll s =
    if last then (wake_all waiters poll null (wake_all waiters side null s).1).1 else s

pub close_reader_of : ℕ → Pipe → Store → Pipe × Store
close_reader_of waiters p s =
    let q = record p { readers = p.readers - 1 } in
    let t = wake_closed waiters (q.readers == 0) p.write_waiters p.poll_waiters s in
    if p.used then maybe_release q t else (p, s)

pub close_writer_of : ℕ → Pipe → Store → Pipe × Store
close_writer_of waiters p s =
    let q = record p { writers = p.writers - 1 } in
    let t = wake_closed waiters (q.writers == 0) p.read_waiters p.poll_waiters s in
    if p.used then maybe_release q t else (p, s)

pub close_reader : ℕ → ℕ → PipeState → PipeState
close_reader waiters i s = elim (get_elem? s.pipes i) [
  | none ↦ s
  | some p ↦ put_pipe i (close_reader_of waiters p s.store) s
]

pub close_writer : ℕ → ℕ → PipeState → PipeState
close_writer waiters i s = elim (get_elem? s.pipes i) [
  | none ↦ s
  | some p ↦ put_pipe i (close_writer_of waiters p s.store) s
]
