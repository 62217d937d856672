-- ===== src/Pipe/Handlers.antt =====
-- kernel/core/pipe.c: `kernel_pipe_read` and `kernel_pipe_write` as a whole, the bytes and the wakes,
-- and what closing the last end of one side wakes.
use hydrogen_os.Prelude.{
  ℕ, ◌+◌, ◌-◌, ◌%◌, ◌^◌, ◌<◌, ◌≡◌, ◌≢◌, ◌⊎◌, refl, ◌∙◌, ap, Bool, true, false, ◌||◌, some,
  get_elem?, ◌&&◌, not, List, [], ◌++◌, arith, length, take, drop, ltb, ◌==◌, if◌then◌else◌, min,
  Bool-cases, inl, inr, length-take, length-drop,
}
use mathlib.Core.List.{append-nil}
use hydrogen_os.Waitq.{Ptr, null, Store}
use hydrogen_os.Waitq.Fifo.{wake_calls}
use hydrogen_os.Pipe.{
  Pipe, PipeState, capacity, PipeResult, invalid, broken, would_block, transferred, put_pipe, write,
  read_loop, write_loop, read_pipe, write_pipe,
}
use hydrogen_os.Pipe.Pool.{get_elem?-set_self, get_elem?-set_ne}
use hydrogen_os.Pipe.Ring.{IsValid, contents, length-bytes_from}
use hydrogen_os.Pipe.Transfer.{SameEnds, read_loop_lem, write_loop_lem}
use hydrogen_os.Pipe.Wakes.{first_call, Queues, Apart, wake_after_lem}

-- The wake calls of a read that took `n` bytes and left `left`.
abbrev pub read_calls : ℕ → ℕ → List Ptr → List Ptr → List Ptr → List (Ptr × Ptr)
read_calls n left ws ps rs =
    if ltb 0 n
    then first_call ws ++ wake_calls null ps ++ (if ltb 0 left then first_call rs else [])
    else []

-- What `kernel_pipe_read` of `n` bytes returns and leaves, of a pipe on which `ws` wait to write,
-- `ps` poll and `rs` wait to read.
pub record ReadSpec (n : ℕ) (p : Pipe) (s : Store) (ws ps rs : List Ptr)
    (r : PipeResult (List ℕ) × Pipe × Store) : Type 0 where
  pub result : r.0 ≡ (
      if min n p.size == 0 && ltb 0 p.writers
      then would_block
      else transferred (take n (contents p)))
  pub rest : contents r.1 ≡ drop n (contents p)
  pub valid : IsValid r.1
  pub ends : SameEnds p r.1
  pub calls : r.2.calls ≡ s.calls ++ read_calls (min n p.size) (p.size - n) ws ps rs

module _ (waiters : ℕ) (p : Pipe) (s : Store) {ws ps rs : List Ptr} (v : IsValid p)
    (apart : Apart p.write_waiters p.poll_waiters p.read_waiters)
    (k : Queues s p.write_waiters p.poll_waiters p.read_waiters ws ps rs)
    (enough : length ps < waiters) where
  -- `kernel_pipe_read` hands out the oldest bytes in order, as many as there are and are asked for;
  -- it reports "would block" exactly when that is none and a writer is left. If it took a byte it
  -- wakes one blocked writer, every poller and, if bytes remain, one blocked reader.
  pub read_pipe_lem : (n : ℕ) → ReadSpec n p s ws ps rs (read_pipe waiters n p s)
  unfolding read_pipe
  read_pipe_lem n =
      let r = read_loop_lem n p v in
      let e = r.ends in
      let count = ap length r.bytes ∙ length-take n (contents p) in
      let held = length-bytes_from p.buffer p.read_pos p.size in
      let len : length (read_loop n p).0 ≡ min n p.size = omega (arith, count, held) in
      let left : (read_loop n p).1.size ≡ p.size - n = omega (
        arith,
        length-bytes_from (read_loop n p).1.buffer (read_loop n p).1.read_pos
            (read_loop n p).1.size,
        ap length r.rest ∙ length-drop n (contents p),
        held,
      ) in
      rw (len, e.writers, e.write_waiters, e.poll_waiters, e.read_waiters, left)
        (elim (Bool-cases (min n p.size == 0 && ltb 0 p.writers)) [
          | inl block ↦ rw block (record {
            result = rw block;
            rest = r.rest;
            valid = r.valid;
            ends = e;
            calls =
                (let none_read : ltb 0 (min n p.size) ≡ false = ground arith in
                  rw (none_read, append-nil));
          })
          | inr go ↦ rw go (elim (Bool-cases (ltb 0 (min n p.size))) [
            | inl some_read ↦ rw some_read (record {
              result = rw (go, r.bytes);
              rest = r.rest;
              valid = r.valid;
              ends = e;
              calls =
                  rw some_read ((wake_after_lem waiters s apart k enough (ltb 0 (p.size - n))).1);
            })
            | inr none_read ↦ rw none_read (record {
              result = rw (go, r.bytes);
              rest = r.rest;
              valid = r.valid;
              ends = e;
              calls = rw (none_read, append-nil);
            })
          ])
        ])

-- The wake calls of a write that put `n` bytes and left room for `room`.
abbrev pub write_calls : ℕ → ℕ → List Ptr → List Ptr → List Ptr → List (Ptr × Ptr)
write_calls n room rs ps ws =
    if ltb 0 n
    then first_call rs ++ wake_calls null ps ++ (if ltb 0 room then first_call ws else [])
    else []

-- What `kernel_pipe_write` of `bytes` returns and leaves.
pub record WriteSpec (bytes : List ℕ) (p : Pipe) (s : Store) (rs ps ws : List Ptr)
    (r : PipeResult ℕ × Pipe × Store) : Type 0 where
  pub result : r.0 ≡ (
      if min (length bytes) (capacity - p.size) == 0 && p.size == capacity
      then would_block
      else transferred (min (length bytes) (capacity - p.size)))
  pub appended : contents r.1 ≡ contents p ++ take (capacity - p.size) bytes
  pub valid : IsValid r.1
  pub ends : SameEnds p r.1
  pub calls :
      r.2.calls
      ≡ s.calls
        ++ write_calls
            (min (length bytes) (capacity - p.size))
            (capacity - p.size - length bytes)
            rs
            ps
            ws

module _ (waiters : ℕ) (p : Pipe) (s : Store) {rs ps ws : List Ptr} (v : IsValid p)
    (apart : Apart p.read_waiters p.poll_waiters p.write_waiters)
    (k : Queues s p.read_waiters p.poll_waiters p.write_waiters rs ps ws)
    (enough : length ps < waiters) where
  write_pipe_lem : (bytes : List ℕ) → WriteSpec bytes p s rs ps ws (write_pipe waiters bytes p s)
  unfolding write_pipe
  write_pipe_lem bytes =
      let r = write_loop_lem bytes p v in
      let e = r.ends in
      let full : ((write_loop bytes p).0 == 0 && not (ltb (write_loop bytes p).1.size capacity))
          ≡ (min (length bytes) (capacity - p.size) == 0 && p.size == capacity) =
        ground (arith, r.count, r.size, v.size_le) in
      let more : ltb (write_loop bytes p).1.size capacity
          ≡ ltb 0 (capacity - p.size - length bytes) =
        ground (arith, r.count, r.size, v.size_le) in
      rw (full, more, r.count, e.read_waiters, e.poll_waiters, e.write_waiters)
        (elim (Bool-cases (min (length bytes) (capacity - p.size) == 0 && p.size == capacity)) [
          | inl block ↦ rw block (record {
            result = rw block;
            appended = r.appended;
            valid = r.valid;
            ends = e;
            calls =
                (let none_put : ltb 0 (min (length bytes) (capacity - p.size)) ≡ false =
                    ground arith in
                  rw (none_put, append-nil));
          })
          | inr go ↦ rw go (elim (Bool-cases (ltb 0 (min (length bytes) (capacity - p.size)))) [
            | inl some_put ↦ rw some_put (record {
              result = rw go;
              appended = r.appended;
              valid = r.valid;
              ends = e;
              calls = rw some_put (
                  (wake_after_lem waiters s apart k enough
                    (ltb 0 (capacity - p.size - length bytes))).1);
            })
            | inr none_put ↦ rw none_put (record {
              result = rw go;
              appended = r.appended;
              valid = r.valid;
              ends = e;
              calls = rw (none_put, append-nil);
            })
          ])
        ])

-- What `kernel_pipe_write` does to the pool, past its checks: the pipe at slot `i` takes the bytes.
pub record WriteDone (i : ℕ) (bytes : List ℕ) (p : Pipe) (s : PipeState) (rs ps ws : List Ptr)
    (r : PipeResult ℕ × PipeState) : Type 0 where
  pub pipe : Pipe
  pub at : get_elem? r.1.pipes i ≡ some pipe
  pub done : WriteSpec bytes p s.store rs ps ws (r.0, pipe, r.1.store)
  pub others : (j : ℕ) → i ≢ j → get_elem? r.1.pipes j ≡ get_elem? s.pipes j
  pub written :
      r.1.pipe_bytes_written
      ≡ (s.pipe_bytes_written + min (length bytes) (capacity - p.size)) % 2 ^ 64
  pub read : r.1.pipe_bytes_read ≡ s.pipe_bytes_read

-- What it returns and leaves on every branch.
abbrev pub Written :
    ℕ
    → List ℕ
    → Bool
    → Pipe
    → PipeState
    → List Ptr
    → List Ptr
    → List Ptr
    → PipeResult ℕ × PipeState
    → Type 0
Written i bytes pointers p s rs ps ws r =
    (((p.used && pointers) ≡ false) × (r ≡ (invalid, s)))
    ⊎ (((p.used && pointers) ≡ true) × (p.readers ≡ 0) × (r ≡ (broken, s)))
    ⊎ (((p.used && pointers) ≡ true) × (0 < p.readers) × WriteDone i bytes p s rs ps ws r)

write-at :
    (waiters i : ℕ) (bytes : List ℕ) (pointers : Bool) (p : Pipe) (s : PipeState)
    → get_elem? s.pipes i ≡ some p
    → let r = write_pipe waiters bytes p s.store in
      let u = put_pipe i (r.1, r.2) s in
      write waiters i bytes pointers s ≡ (
        if not p.used || not pointers
        then (invalid, s)
        else if p.readers == 0
        then (broken, s)
        else (
          r.0,
          record u {
            pipe_bytes_written = (u.pipe_bytes_written + (write_loop bytes p).0) % 2 ^ 64;
          },
        ))
unfolding write
write-at waiters i bytes pointers p s at = rw (write, at) refl

-- `kernel_pipe_write` on a pipe of the pool, `pointers` telling whether its other arguments are not
-- null. It fails with -1 on a pipe that is not in use or with a null argument, and with -2 on a pipe
-- without readers, and then changes nothing. Otherwise it appends the first bytes for which there
-- is room, in order, and returns their number; it reports "would block" exactly when the
-- pipe is full. If it put a byte it wakes one blocked reader, every
-- poller and, if room remains, one blocked writer. Other pipes stay as they are, and the counter of
-- bytes written grows by their number.
pub write_lem :
    (waiters i : ℕ) (bytes : List ℕ) (pointers : Bool) (p : Pipe) (s : PipeState)
    (rs ps ws : List Ptr)
    → get_elem? s.pipes i ≡ some p
    → IsValid p
    → Apart p.read_waiters p.poll_waiters p.write_waiters
    → Queues s.store p.read_waiters p.poll_waiters p.write_waiters rs ps ws
    → length ps < waiters
    → Written i bytes pointers p s rs ps ws (write waiters i bytes pointers s)
unfolding put_pipe
write_lem waiters i bytes pointers p s rs ps ws at v apart k enough =
    let open_call = write-at waiters i bytes pointers p s at in
    let done = write_pipe_lem waiters p s.store v apart k enough bytes in
    let count = (write_loop_lem bytes p v).count in
    elim (Bool-cases (not p.used || not pointers)) [
      | inl e ↦ rw (open_call, e) (inl (ground (arith, e), refl))
      | inr e ↦ elim (Bool-cases (p.readers == 0)) [
        | inl z ↦ rw (open_call, e, z) (inr (inl (ground (arith, e), ground (arith, z), refl)))
        | inr z ↦
            rw (open_call, e, z)
              (inr (
                inr (
                  ground (arith, e),
                  ground (arith, z),
                  record {
                    pipe = (write_pipe waiters bytes p s.store).1;
                    at = get_elem?-set_self s.pipes i _ p at;
                    done = done;
                    others = λ j ne. get_elem?-set_ne s.pipes i j _ ne;
                    written = ap (λ n. (s.pipe_bytes_written + n) % 2 ^ 64) count;
                    read = refl;
                  },
                )))
      ]
    ]
