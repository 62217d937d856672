-- ===== src/Pipe/Close.antt =====
-- kernel/core/pipe.c: closing an end, and new references to one.
use hydrogen_os.Prelude.{
  ℕ, ◌+◌, ◌-◌, ◌<◌, ◌≡◌, refl, ◌≢◌, ◌⊎◌, ◌∙◌, ◌^◌, ap, sym, subst, true, false, ◌&&◌, ◌||◌, List,
  [], ◌++◌, arith, length, ltb, ◌==◌, if◌then◌else◌, Bool-cases, inl, inr, none, some,
}
use mathlib.Core.List.{append_assoc, append-nil}
use hydrogen_os.Waitq.{Ptr, null, Store, queue_init}
use hydrogen_os.Waitq.Init.{queue_init-calls}
use hydrogen_os.Waitq.Chain.{Holds}
use hydrogen_os.Waitq.Fifo.{wake_calls}
use hydrogen_os.Pipe.{
  Pipe, acquire, uint32_max, reset, reset_queues, maybe_release, close_reader_of, close_writer_of,
  wake_closed,
}
use hydrogen_os.Pipe.Wakes.{wake_all-Effect}
use hydrogen_os.Pipe.Pool.{NoWaiters, reset_queues-NoWaiters}

-- Closing the last end of one side wakes everybody on the queue `side`, then every poller.
wake_closed_lem :
    (waiters : ℕ) (s : Store) (side poll : Ptr) (ws ps : List Ptr)
    → side ≢ poll
    → Holds s side ws
    → Holds s poll ps
    → length ws < waiters
    → length ps < waiters
    → (wake_closed waiters true side poll s).calls
      ≡ s.calls ++ wake_calls null ws ++ wake_calls null ps
unfolding wake_closed
wake_closed_lem waiters s side poll ws ps ne h k hw hp =
    let e = wake_all-Effect waiters s side ws h hw in
    let f = wake_all-Effect waiters _ poll ps (e.others poll ps (λ x. ne (sym x)) k) hp in
    f.calls ∙ ap (λ c. c ++ wake_calls null ps) e.calls

calls-maybe_release : (p : Pipe) (s : Store) → (maybe_release p s).1.calls ≡ s.calls
unfolding maybe_release reset_queues
calls-maybe_release p s = ground (
  arith,
  queue_init-calls s p.read_waiters,
  queue_init-calls (queue_init p.read_waiters s) p.write_waiters,
  queue_init-calls (queue_init p.write_waiters (queue_init p.read_waiters s)) p.poll_waiters,
)

-- A pipe without readers and writers gives its slot back, with no waiter left on its queues.
maybe_release_lem :
    (p : Pipe) (s : Store)
    → p.used ≡ true
    → ((p.readers ≡ 0) × (p.writers ≡ 0)
        → ((maybe_release p s).0.used ≡ false) × NoWaiters p (maybe_release p s).1)
      × ((maybe_release p s).0.used ≡ (ltb 0 p.readers || ltb 0 p.writers))
      × ((maybe_release p s).0.readers ≡ p.readers)
      × ((maybe_release p s).0.writers ≡ p.writers)
unfolding maybe_release reset
maybe_release_lem p s used = (
  (λ (r, w).
      let go : (p.used && p.readers == 0 && p.writers == 0) ≡ true = ground arith in
      rw go (refl, reset_queues-NoWaiters p s)),
  ground arith,
  ground arith,
  ground arith,
)

-- What closing one end of a pipe does: `readers` and `writers` are left, `n` of the side that was
-- closed; `side` waits for that side, `ps` poll.
pub record CloseSpec (p : Pipe) (s : Store) (readers writers n : ℕ) (side ps : List Ptr)
    (r : Pipe × Store) : Type 0 where
  pub readers_left : r.0.readers ≡ readers
  pub writers_left : r.0.writers ≡ writers
  pub calls :
      r.1.calls ≡ s.calls ++ (if n == 0 then wake_calls null side ++ wake_calls null ps else [])
  pub kept : r.0.used ≡ (ltb 0 readers || ltb 0 writers)
  pub released : (r.0.used ≡ true) ⊎ NoWaiters p r.1

close_spec :
    (waiters readers writers n : ℕ) (p q : Pipe) (s : Store) {side : Ptr} {ws ps : List Ptr}
    → q.used ≡ true
    → q.readers ≡ readers
    → q.writers ≡ writers
    → (q.read_waiters ≡ p.read_waiters)
      × (q.write_waiters ≡ p.write_waiters)
      × (q.poll_waiters ≡ p.poll_waiters)
    → side ≢ p.poll_waiters
    → Holds s side ws
    → Holds s p.poll_waiters ps
    → length ws < waiters
    → length ps < waiters
    → CloseSpec p s readers writers n ws ps
        (maybe_release q (wake_closed waiters (n == 0) side p.poll_waiters s))
close_spec waiters readers writers n p q s {side} {ws} {ps} used cr cw (er, ew, ep) ne h k hw hp =
    let t = wake_closed waiters (n == 0) side p.poll_waiters s in
    let d = maybe_release_lem q t used in
    record {
      readers_left = d.2 ∙ cr;
      writers_left = d.3 ∙ cw;
      calls = calls-maybe_release q t ∙ wakes (Bool-cases (n == 0));
      kept = ground (arith, d.1, cr, cw);
      released = elim (Bool-cases (maybe_release q t).0.used) [
        | inl still ↦ inl still
        | inr gone ↦
            let done = d.0 (ground (arith, d.1, gone), ground (arith, d.1, gone)) in
            inr (record {
              read = subst (λ a. Holds (maybe_release q t).1 a []) er done.1.read;
              write = subst (λ a. Holds (maybe_release q t).1 a []) ew done.1.write;
              poll = subst (λ a. Holds (maybe_release q t).1 a []) ep done.1.poll;
            })
      ];
    }
  where
    wakes :
        ((n == 0) ≡ true) ⊎ ((n == 0) ≡ false)
        → (wake_closed waiters (n == 0) side p.poll_waiters s).calls
          ≡ s.calls ++ (if n == 0 then wake_calls null ws ++ wake_calls null ps else [])
    wakes (inl last) = rw last (
        wake_closed_lem waiters s side p.poll_waiters ws ps ne h k hw hp
        ∙ append_assoc s.calls (wake_calls null ws) (wake_calls null ps))
    wakes (inr more) = rw more (quiet ∙ sym (append-nil s.calls))
      where
        quiet : (wake_closed waiters false side p.poll_waiters s).calls ≡ s.calls
        quiet = unfold wake_closed in refl

close_reader_eq :
    (waiters : ℕ) (p : Pipe) (s : Store)
    → p.used ≡ true
    → close_reader_of waiters p s
      ≡ maybe_release
          (record p { readers = p.readers - 1 })
          (wake_closed waiters (p.readers - 1 == 0) p.write_waiters p.poll_waiters s)
unfolding close_reader_of
close_reader_eq waiters p s used = simp used

close_writer_eq :
    (waiters : ℕ) (p : Pipe) (s : Store)
    → p.used ≡ true
    → close_writer_of waiters p s
      ≡ maybe_release
          (record p { writers = p.writers - 1 })
          (wake_closed waiters (p.writers - 1 == 0) p.read_waiters p.poll_waiters s)
unfolding close_writer_of
close_writer_eq waiters p s used = simp used

module _ (waiters : ℕ) (p : Pipe) (s : Store) (used : p.used ≡ true) {ps : List Ptr}
    (k : Holds s p.poll_waiters ps) (hp : length ps < waiters) where
  -- `kernel_pipe_close_reader` drops one reader. When none is left it wakes every blocked writer,
  -- then every poller, and nobody otherwise; the slot stays in use exactly while a reader or a
  -- writer is left, and its queues are empty when it becomes free.
  pub close_reader_lem :
      (ws : List Ptr)
      → Holds s p.write_waiters ws
      → length ws < waiters
      → p.write_waiters ≢ p.poll_waiters
      → CloseSpec p s (p.readers - 1) p.writers (p.readers - 1) ws ps (close_reader_of waiters p s)
  close_reader_lem ws h hw ne = rw (close_reader_eq waiters p s used) (
      close_spec waiters (p.readers - 1) p.writers (p.readers - 1) p
        (record p { readers = p.readers - 1 }) s used refl refl (refl, refl, refl) ne h k hw hp)

  -- `kernel_pipe_close_writer` drops one writer. When none is left it wakes every blocked reader,
  -- which then sees the end of the stream, then every poller, and nobody otherwise; the slot stays
  -- in use exactly while a reader or a writer is left, and its queues are empty when it becomes free.
  pub close_writer_lem :
      (rs : List Ptr)
      → Holds s p.read_waiters rs
      → length rs < waiters
      → p.read_waiters ≢ p.poll_waiters
      → CloseSpec p s p.readers (p.writers - 1) (p.writers - 1) rs ps (close_writer_of waiters p s)
  close_writer_lem rs h hw ne = rw (close_writer_eq waiters p s used) (
      close_spec waiters p.readers (p.writers - 1) (p.writers - 1) p
        (record p { writers = p.writers - 1 }) s used refl refl (refl, refl, refl) ne h k hw hp)

-- A new reference is refused for a pipe that is free or has no reference left, and at the largest
-- count; otherwise it adds one, which does not wrap.
pub acquire-count :
    (p : Pipe) (count : ℕ)
    → count < 2 ^ 32
    → (acquire p count ≡ none)
        × ((p.used ≡ false) ⊎ ((p.readers ≡ 0) × (p.writers ≡ 0)) ⊎ (count ≡ uint32_max))
      ⊎ ((acquire p count ≡ some (count + 1))
          × (count + 1 < 2 ^ 32)
          × (p.used ≡ true)
          × (0 < p.readers + p.writers))
unfolding acquire
acquire-count p count h = ground arith
