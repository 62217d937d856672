-- ===== src/Pipe/Transfer.antt =====
-- kernel/core/pipe.c: the copying loops of `kernel_pipe_read` and `kernel_pipe_write` refine a
-- bounded first-in first-out queue.
use hydrogen_os.Prelude.{
  ℕ, zero, suc, ◌+◌, ◌-◌, ◌≡◌, refl, ◌∙◌, ap, false, List, [], ◌∷◌, ◌++◌, arith, length, take, drop,
  ltb, inl, inr, nat_cases, lt_cases, eq→==, ne→==, lt→ltb, min, get_or,
}
use mathlib.Core.List.{append_assoc, append-nil}
use hydrogen_os.Pipe.{Pipe, capacity, take_byte, put_byte, read_loop, write_loop}
use hydrogen_os.Pipe.Ring.{
  IsValid, contents, contents-take_byte, take_byte-IsValid, contents-put_byte, put_byte-IsValid,
}

-- A transfer changes only the ring of a pipe.
pub record SameEnds (p q : Pipe) : Type 0 where
  pub used : q.used ≡ p.used
  pub readers : q.readers ≡ p.readers
  pub writers : q.writers ≡ p.writers
  pub read_waiters : q.read_waiters ≡ p.read_waiters
  pub write_waiters : q.write_waiters ≡ p.write_waiters
  pub poll_waiters : q.poll_waiters ≡ p.poll_waiters

ends_of_take_byte : (p q : Pipe) → SameEnds (take_byte p) q → SameEnds p q
unfolding take_byte
ends_of_take_byte p q e = record {
  used = e.used;
  readers = e.readers;
  writers = e.writers;
  read_waiters = e.read_waiters;
  write_waiters = e.write_waiters;
  poll_waiters = e.poll_waiters;
}

ends_of_put_byte : (b : ℕ) (p q : Pipe) → SameEnds (put_byte b p) q → SameEnds p q
unfolding put_byte
ends_of_put_byte b p q e = record {
  used = e.used;
  readers = e.readers;
  writers = e.writers;
  read_waiters = e.read_waiters;
  write_waiters = e.write_waiters;
  poll_waiters = e.poll_waiters;
}

size-put_byte : (b : ℕ) (p : Pipe) → (put_byte b p).size ≡ p.size + 1
unfolding put_byte
size-put_byte b p = refl

take-nil : (n : ℕ) → take {A = ℕ} n [] ≡ []
take-nil zero = refl
take-nil (suc n) = refl

-- Reading `n` bytes takes the oldest ones, in order.
pub record Reads (n : ℕ) (p : Pipe) (r : List ℕ × Pipe) : Type 0 where
  pub bytes : r.0 ≡ take n (contents p)
  pub rest : contents r.1 ≡ drop n (contents p)
  pub valid : IsValid r.1
  pub ends : SameEnds p r.1

pub read_loop_lem : (n : ℕ) (p : Pipe) → IsValid p → Reads n p (read_loop n p)
unfolding read_loop
read_loop_lem zero p v = record { bytes = refl; rest = refl; valid = v; ends = ground arith }
read_loop_lem (suc n) p v = elim (nat_cases p.size 0) [
  | inl empty ↦
      rw (eq→== _ _ empty)
        (record { bytes = rw empty; rest = rw empty; valid = v; ends = ground arith })
  | inr some_bytes ↦
      let head = contents-take_byte p some_bytes in
      let ih = read_loop_lem n (take_byte p) (take_byte-IsValid p v some_bytes) in
      rw (ne→== _ _ some_bytes) (record {
        bytes = rw head (ap (λ xs. get_or p.buffer p.read_pos 0 ∷ xs) ih.bytes);
        rest = rw head ih.rest;
        valid = ih.valid;
        ends = ends_of_take_byte p _ ih.ends;
      })
]

-- Writing appends as many bytes as there is room for, in order.
pub record Writes (bytes : List ℕ) (p : Pipe) (r : ℕ × Pipe) : Type 0 where
  pub count : r.0 ≡ min (length bytes) (capacity - p.size)
  pub appended : contents r.1 ≡ contents p ++ take (capacity - p.size) bytes
  pub size : r.1.size ≡ p.size + r.0
  pub valid : IsValid r.1
  pub ends : SameEnds p r.1

pub write_loop_lem : (bytes : List ℕ) (p : Pipe) → IsValid p → Writes bytes p (write_loop bytes p)
unfolding write_loop
write_loop_lem [] p v = record {
  count = omega arith;
  appended = rw (take-nil (capacity - p.size), append-nil);
  size = omega arith;
  valid = v;
  ends = ground arith;
}
write_loop_lem (b ∷ bs) p v = elim (lt_cases p.size capacity) [
  | inr full ↦
      let no_room : capacity - p.size ≡ 0 = omega arith in
      let stop : ltb p.size capacity ≡ false = ground arith in
      rw stop (record {
        count = omega arith;
        appended = rw (no_room, append-nil);
        size = omega arith;
        valid = v;
        ends = ground arith;
      })
  | inl room ↦
      let ih = write_loop_lem bs (put_byte b p) (put_byte-IsValid b p v room) in
      let size = size-put_byte b p in
      let left : capacity - p.size ≡ suc (capacity - (put_byte b p).size) = omega arith in
      rw (lt→ltb _ _ room) (record {
        count = omega (arith, ih.count);
        appended = rw left (
            ih.appended
            ∙ ap (λ xs. xs ++ take (capacity - (put_byte b p).size) bs)
                (contents-put_byte b p v room)
            ∙ append_assoc (contents p) (b ∷ []) (take (capacity - (put_byte b p).size) bs));
        size = omega (arith, ih.size);
        valid = ih.valid;
        ends = ends_of_put_byte b p _ ih.ends;
      })
]
