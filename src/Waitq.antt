-- ===== src/Waitq.antt =====
-- kernel/core/waitq.c, the kernel's wait queues: doubly linked lists of entries that live inside the
-- waiting objects. Queues and entries stand at addresses of an explicit store, address 0 being the
-- null pointer. A call `entry->wake(entry, key)` is recorded in `calls`, newest last: the two wake
-- functions of kernel/core/process.c write only to the waiting process, never to a queue. Masking
-- interrupts around each operation makes it one step, and leaves no trace here.
pub mod Chain
pub mod Unlink
pub mod Init
pub mod Fifo
pub mod Add
pub mod Cancel
pub mod Member
mod Tests
use hydrogen_os.Prelude.{
  ℕ, zero, suc, ◌+◌, ◌%◌, ◌^◌, Bool, true, false, ◌&&◌, ◌==◌, if◌then◌else◌, List, [], ◌∷◌, ◌++◌,
  not,
}

abbrev pub Ptr : Type 0
Ptr = ℕ

abbrev pub null : Ptr
null = 0

pub record WaitQueue : Type 0 where
  pub head : Ptr
  pub tail : Ptr

pub record WaitEntry : Type 0 where
  pub next : Ptr
  pub prev : Ptr
  pub queue : Ptr
  pub wake : Ptr
  pub owner : Ptr
  pub linked : Bool
  pub woken : Bool
  pub exclusive : Bool

-- The store, with the calls of wake functions so far: the entry and the key of each.
pub record Store : Type 0 where
  pub queue_at : Ptr → WaitQueue
  pub entry_at : Ptr → WaitEntry
  pub calls : List (Ptr × Ptr)

pub put_queue : Ptr → WaitQueue → Store → Store
put_queue q v s = record s { queue_at = λ a. if a == q then v else s.queue_at a }

pub put_entry : Ptr → WaitEntry → Store → Store
put_entry e v s = record s { entry_at = λ a. if a == e then v else s.entry_at a }

-- `queue->head = v` and the other assignments to one field.
pub set_head : Ptr → Ptr → Store → Store
set_head q v s = put_queue q (record (s.queue_at q) { head = v }) s

pub set_tail : Ptr → Ptr → Store → Store
set_tail q v s = put_queue q (record (s.queue_at q) { tail = v }) s

pub set_next : Ptr → Ptr → Store → Store
set_next e v s = put_entry e (record (s.entry_at e) { next = v }) s

pub set_prev : Ptr → Ptr → Store → Store
set_prev e v s = put_entry e (record (s.entry_at e) { prev = v }) s

-- The first conditional of `waitq_unlink`.
pub bypass_prev : Ptr → Ptr → Store → Store
bypass_prev q e s =
    let c = s.entry_at e in if c.prev == null then set_head q c.next s else set_next c.prev c.next s

-- The second one.
pub bypass_next : Ptr → Ptr → Store → Store
bypass_next q e s =
    let c = s.entry_at e in if c.next == null then set_tail q c.prev s else set_prev c.next c.prev s

pub waitq_unlink : Ptr → Store → Store
waitq_unlink e s =
    let q = (s.entry_at e).queue in
    let t = bypass_next q e (bypass_prev q e s) in
    put_entry e (record (t.entry_at e) { next = null; prev = null; linked = false }) t

pub call_wake : Ptr → Ptr → Store → Store
call_wake e key s = record s { calls = s.calls ++ ((e, key) ∷ []) }

pub waitq_wake_head : Ptr → Ptr → Store → ℕ × Store
waitq_wake_head q key s =
    let e = (s.queue_at q).head in
    let t = waitq_unlink e s in
    let u = put_entry e (record (t.entry_at e) { woken = true }) t in
    if e == null then (0, s) else (1, call_wake e key u)

pub queue_init : Ptr → Store → Store
queue_init q s = put_queue q (record { head = null; tail = null }) s

pub queue_empty : Ptr → Store → Bool
queue_empty q s = (s.queue_at q).head == null

pub entry_init : Ptr → Ptr → Ptr → Bool → Store → Store
entry_init e wake owner exclusive s =
    put_entry e
      (record {
        next = null;
        prev = null;
        queue = null;
        wake = wake;
        owner = owner;
        linked = false;
        woken = false;
        exclusive = exclusive;
      })
      s

pub unlink_if_linked : Ptr → Store → Store
unlink_if_linked e s = if (s.entry_at e).linked then waitq_unlink e s else s

-- What `wait_queue_add` does after the entry has left its old queue.
pub append_entry : Ptr → Ptr → Store → Store
append_entry q e s =
    let tail = (s.queue_at q).tail in
    let t =
      put_entry e (record (s.entry_at e) { queue = q; woken = false; prev = tail; next = null })
        s in
    let u = (if tail == null then set_head q e t else set_next tail e t) in
    let v = set_tail q e u in put_entry e (record (v.entry_at e) { linked = true }) v

pub queue_add : Ptr → Ptr → Store → Store
queue_add q e s = append_entry q e (unlink_if_linked e s)

pub make_idle : Ptr → Store → Store
make_idle e s = put_entry e (record (s.entry_at e) { queue = null; woken = false }) s

pub queue_remove : Ptr → Store → Store
queue_remove e s = make_idle e (unlink_if_linked e s)

pub queue_cancel : Ptr → Store → Store
queue_cancel e s =
    let c = s.entry_at e in
    let handoff = (if c.woken && c.exclusive then c.queue else null) in
    let t = make_idle e (unlink_if_linked e s) in
    if handoff == null then t else (waitq_wake_head handoff null t).1

pub wake_one : Ptr → Ptr → Store → ℕ × Store
wake_one q key s = waitq_wake_head q key s

-- `while (waitq_wake_head(queue, key)) woken++;`, on fuel.
pub wake_all_loop : ℕ → Ptr → Ptr → ℕ → Store → ℕ × Store
wake_all_loop zero q key woken s = (woken, s)
wake_all_loop (suc n) q key woken s =
    let r = waitq_wake_head q key s in
    let rest = wake_all_loop n q key ((woken + 1) % 2 ^ 32) r.1 in
    if r.0 == 0 then (woken, r.1) else rest

-- `fuel` bounds the number of waiters.
pub wake_all : ℕ → Ptr → Ptr → Store → ℕ × Store
wake_all fuel q key s = wake_all_loop fuel q key 0 s
