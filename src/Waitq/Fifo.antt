-- ===== src/Waitq/Fifo.antt =====
-- kernel/core/waitq.c: `wait_queue_wake_one` and `wait_queue_wake_all` wake in the order of arrival.
use hydrogen_os.Prelude.{
  ◌==◌, ℕ, zero, suc, ◌+◌, ◌%◌, ◌^◌, ◌<◌, ◌≡◌, refl, ◌≢◌, ◌∙◌, ap, true, false, List, [], ◌∷◌, ◌++◌,
  map, arith, length, sym,
}
use mathlib.Core.List.{append_assoc, append-nil}
use hydrogen_os.Waitq.{
  Ptr, null, Store, WaitEntry, waitq_unlink, put_entry, call_wake, waitq_wake_head, wake_one,
  wake_all_loop, wake_all,
}
use hydrogen_os.Waitq.Chain.{Holds, Chain-frame, Chain-queue}
use hydrogen_os.Waitq.Unlink.{unlink_calls}
use hydrogen_os.Waitq.Member.{
  OthersKept, Holds-unlink, OthersKept-unlink, unlink_entry, unlink-idle,
}

-- An entry that is not linked may change without touching any queue.
pub Holds-put_entry :
    (s : Store) (q e : Ptr) (v : WaitEntry) (es : List Ptr)
    → Holds s q es
    → (s.entry_at e).linked ≡ false
    → Holds (put_entry e v s) q es
unfolding put_entry
Holds-put_entry s q e v es h idle = record {
  head = h.head;
  tail = h.tail;
  chain = Chain-frame s (put_entry e v s) q null es h.chain (λ a m.
      let ne : a ≢ e = (λ same.
        cc ((Chain-queue s q null es a h.chain m).2, ap (λ x. (s.entry_at x).linked) same)) in
      ground (arith, ne));
}

pub Holds-call_wake :
    (s : Store) (q e key : Ptr) (es : List Ptr) → Holds s q es → Holds (call_wake e key s) q es
unfolding call_wake
Holds-call_wake s q e key es h = record {
  head = h.head;
  tail = h.tail;
  chain = Chain-frame s (call_wake e key s) q null es h.chain (λ a m. refl);
}

-- `t` is `s` after waking `e`, the oldest waiter of `q`, whose wake function was called with `key`.
pub record Woken (s t : Store) (q key e : Ptr) (es : List Ptr) : Type 0 where
  pub holds : Holds t q es
  pub others : OthersKept s t q
  pub calls : t.calls ≡ s.calls ++ ((e, key) ∷ [])
  pub entry :
      t.entry_at e
      ≡ record (s.entry_at e) { next = null; prev = null; linked = false; woken = true }

-- What waking one waiter does to a queue that holds the given entries.
abbrev pub WakesFirst : Store → Ptr → Ptr → List Ptr → ℕ × Store → Type 0
WakesFirst s q key [] r = r ≡ (0, s)
WakesFirst s q key (e ∷ es) r = (r.0 ≡ 1) × Woken s r.1 q key e es

after_unlink : Ptr → Ptr → Store → Store
unfolding put_entry call_wake
after_unlink e key t = call_wake e key (put_entry e (record (t.entry_at e) { woken = true }) t)

wake_head-cons :
    (s : Store) (q key e : Ptr) (es : List Ptr)
    → Holds s q (e ∷ es)
    → waitq_wake_head q key s ≡ (1, after_unlink e key (waitq_unlink e s))
unfolding waitq_wake_head after_unlink
wake_head-cons s q key e es h = ground (arith, h.head, h.chain.0.ne_null)

keep_after_unlink :
    (t : Store) (e key r : Ptr) (fs : List Ptr)
    → (t.entry_at e).linked ≡ false
    → Holds t r fs
    → Holds (after_unlink e key t) r fs
unfolding after_unlink
keep_after_unlink t e key r fs idle h =
    Holds-call_wake _ r e key fs (Holds-put_entry t r e _ fs h idle)

pub wake_head_lem :
    (s : Store) (q key : Ptr) (es : List Ptr)
    → Holds s q es
    → WakesFirst s q key es (waitq_wake_head q key s)
unfolding waitq_wake_head after_unlink
wake_head_lem s q key [] h = rw h.head
wake_head_lem s q key (e ∷ es) h =
    let own = unlink_entry s q e [] es h in
    let idle : ((waitq_unlink e s).entry_at e).linked ≡ false =
      ap (λ (c : WaitEntry). c.linked) own in
    rw (wake_head-cons s q key e es h) (
      refl,
      record {
        holds = keep_after_unlink _ e key q es idle (Holds-unlink s q e [] es h);
        others = λ r fs ne k.
            keep_after_unlink _ e key r fs idle (OthersKept-unlink s q e [] es h r fs ne k);
        calls = ap (λ c. c ++ ((e, key) ∷ [])) (unlink_calls e s);
        entry = ground (arith, own);
      },
    )

-- An entry that is in no queue stays as it is.
pub wake_head-idle :
    (s : Store) (q key : Ptr) (es : List Ptr) (a : Ptr)
    → Holds s q es
    → a ≢ null
    → (s.entry_at a).linked ≡ false
    → (waitq_wake_head q key s).1.entry_at a ≡ s.entry_at a
unfolding waitq_wake_head after_unlink put_entry call_wake
wake_head-idle s q key [] a h nn idle = rw h.head refl
wake_head-idle s q key (e ∷ es) a h nn idle =
    let differ : a ≢ e =
      λ same. cc (h.chain.0.linked, ap (λ x. (s.entry_at x).linked) same, idle) in
    let ne : (a == e) ≡ false = ground (arith, differ) in
    rw (wake_head-cons s q key e es h, ne) (unlink-idle s q e es a h nn idle)

-- `wait_queue_wake_one` on a queue without waiters returns 0 and changes nothing; otherwise it
-- returns 1, takes out the oldest waiter alone, marks it woken and calls its wake function once, the
-- other waiters and every other queue staying as they are.
pub wake_one_lem :
    (s : Store) (q key : Ptr) (es : List Ptr)
    → Holds s q es
    → WakesFirst s q key es (wake_one q key s)
unfolding wake_one
wake_one_lem s q key es h = wake_head_lem s q key es h

abbrev pub wake_calls : Ptr → List Ptr → List (Ptr × Ptr)
wake_calls key es = map (λ e. (e, key)) es

-- `r` is the result of waking every waiter `es` of `q`.
pub record WokenAll (s : Store) (q key : Ptr) (es : List Ptr) (n : ℕ) (r : ℕ × Store) : Type 0 where
  pub count : r.0 ≡ (n + length es) % 2 ^ 32
  pub holds : Holds r.1 q []
  pub others : OthersKept s r.1 q
  pub calls : r.1.calls ≡ s.calls ++ wake_calls key es

wake_all_loop_lem :
    (fuel n : ℕ) (s : Store) (q key : Ptr) (es : List Ptr)
    → Holds s q es
    → n < 2 ^ 32
    → length es < fuel
    → WokenAll s q key es n (wake_all_loop fuel q key n s)
unfolding wake_all_loop
wake_all_loop_lem zero n s q key es h small enough = absurd (omega arith)
wake_all_loop_lem (suc fuel) n s q key [] h small enough = rw (wake_head_lem s q key [] h) (record {
  count = omega arith;
  holds = h;
  others = λ r fs ne k. k;
  calls = sym (append-nil s.calls);
})
wake_all_loop_lem (suc fuel) n s q key (e ∷ es) h small enough =
    let (one, w) = wake_head_lem s q key (e ∷ es) h in
    let rest =
      wake_all_loop_lem fuel ((n + 1) % 2 ^ 32) (waitq_wake_head q key s).1 q key es w.holds
        (omega arith) (omega arith) in
    rw one (record {
      count = omega (arith, rest.count);
      holds = rest.holds;
      others = λ r fs ne k. rest.others r fs ne (w.others r fs ne k);
      calls =
          rest.calls
          ∙ ap (λ c. c ++ wake_calls key es) w.calls
          ∙ append_assoc s.calls ((e, key) ∷ []) (wake_calls key es);
    })

-- With fuel for its waiters `wait_queue_wake_all` wakes every one in the order of arrival: it calls
-- each wake function once, returns their number modulo 2 ^ 32, and leaves the queue empty and every
-- other queue as it was.
pub wake_all_lem :
    (fuel : ℕ) (s : Store) (q key : Ptr) (es : List Ptr)
    → Holds s q es
    → length es < fuel
    → WokenAll s q key es 0 (wake_all fuel q key s)
unfolding wake_all
wake_all_lem fuel s q key es h enough = wake_all_loop_lem fuel 0 s q key es h (omega arith) enough
