-- ===== src/Waitq/Cancel.antt =====
-- kernel/core/waitq.c: `wait_queue_add`, `wait_queue_remove` and `wait_queue_cancel` as a whole.
use hydrogen_os.Prelude.{
  ◌∙◌, ◌≡◌, ◌≢◌, ap, sym, subst, refl, true, false, ◌&&◌, List, [], ◌∷◌, ◌++◌, arith,
}
use hydrogen_os.Waitq.{
  Ptr, null, Store, WaitEntry, waitq_unlink, put_entry, unlink_if_linked, queue_add, make_idle,
  queue_remove, queue_cancel, waitq_wake_head,
}
use hydrogen_os.Waitq.Chain.{Holds}
use hydrogen_os.Waitq.Unlink.{unlink_calls, Chain-at}
use hydrogen_os.Waitq.Member.{OthersKept, Holds-unlink, OthersKept-unlink, unlink_entry}
use hydrogen_os.Waitq.Fifo.{Holds-put_entry, wake_head_lem, wake_head-idle}
use hydrogen_os.Waitq.Add.{Holds-append, OthersKept-append, append_calls}

-- An entry that is not linked is appended to its new queue as the newest waiter; every other queue
-- keeps its waiters, and no wake function is called.
pub queue_add-idle :
    (s : Store) (q e : Ptr) (es : List Ptr)
    → Holds s q es
    → e ≢ null
    → (s.entry_at e).linked ≡ false
    → Holds (queue_add q e s) q (es ++ (e ∷ []))
      × OthersKept s (queue_add q e s) q
      × ((queue_add q e s).calls ≡ s.calls)
unfolding queue_add unlink_if_linked
queue_add-idle s q e es h nn idle =
    rw idle
      (Holds-append s q e es h nn idle, OthersKept-append s q e es h nn idle, append_calls q e s)

linked_at :
    (s : Store) (q e : Ptr) (xs ys : List Ptr)
    → Holds s q (xs ++ (e ∷ ys))
    → ((s.entry_at e).linked ≡ true) × (e ≢ null)
linked_at s q e xs ys h = let b = Chain-at s q null e xs ys h.chain in (b.linked, b.ne_null)

idle_after :
    (s : Store) (q e : Ptr) (xs ys : List Ptr)
    → Holds s q (xs ++ (e ∷ ys))
    → ((waitq_unlink e s).entry_at e).linked ≡ false
idle_after s q e xs ys h = ap (λ (c : WaitEntry). c.linked) (unlink_entry s q e xs ys h)

-- An entry that is linked in the queue that it is added to becomes the newest waiter there, the
-- others keeping their order.
pub queue_add-within :
    (s : Store) (q e : Ptr) (xs ys : List Ptr)
    → Holds s q (xs ++ (e ∷ ys))
    → Holds (queue_add q e s) q (xs ++ ys ++ (e ∷ []))
unfolding queue_add unlink_if_linked
queue_add-within s q e xs ys h =
    let (linked, nn) = linked_at s q e xs ys h in
    rw linked (
      Holds-append (waitq_unlink e s) q e (xs ++ ys) (Holds-unlink s q e xs ys h) nn
        (idle_after s q e xs ys h))

-- An entry that is linked in another queue leaves that one in order and becomes the newest waiter
-- of the queue that it is added to.
pub queue_add-from :
    (s : Store) (old q e : Ptr) (xs ys es : List Ptr)
    → old ≢ q
    → Holds s old (xs ++ (e ∷ ys))
    → Holds s q es
    → Holds (queue_add q e s) old (xs ++ ys) × Holds (queue_add q e s) q (es ++ (e ∷ []))
unfolding queue_add unlink_if_linked
queue_add-from s old q e xs ys es ne h k =
    let (linked, nn) = linked_at s old e xs ys h in
    let idle = idle_after s old e xs ys h in
    let kept = OthersKept-unlink s old e xs ys h q es (λ x. ne (sym x)) k in
    rw linked (
      OthersKept-append (waitq_unlink e s) q e es kept nn idle old (xs ++ ys) ne
          (Holds-unlink s old e xs ys h),
      Holds-append (waitq_unlink e s) q e es kept nn idle,
    )

keep_make_idle :
    (s : Store) (e r : Ptr) (fs : List Ptr)
    → (s.entry_at e).linked ≡ false
    → Holds s r fs
    → Holds (make_idle e s) r fs
unfolding make_idle
keep_make_idle s e r fs idle h = Holds-put_entry s r e _ fs h idle

-- `wait_queue_remove` takes a linked entry out, keeping the order of the others and every other
-- queue, and calls no wake function.
pub queue_remove-linked :
    (s : Store) (q e : Ptr) (xs ys : List Ptr)
    → Holds s q (xs ++ (e ∷ ys))
    → Holds (queue_remove e s) q (xs ++ ys)
      × OthersKept s (queue_remove e s) q
      × ((queue_remove e s).calls ≡ s.calls)
unfolding queue_remove unlink_if_linked
queue_remove-linked s q e xs ys h =
    let idle = idle_after s q e xs ys h in
    rw ((linked_at s q e xs ys h).0) (
      keep_make_idle _ e q (xs ++ ys) idle (Holds-unlink s q e xs ys h),
      (λ r fs ne k. keep_make_idle _ e r fs idle (OthersKept-unlink s q e xs ys h r fs ne k)),
      (unfold make_idle put_entry in unlink_calls e s),
    )

-- Going from `s` to `t` the wake that `e` was given is handed on to the oldest waiter of `q`, if there
-- is one, whose wake function is called with a null key.
abbrev pub HandedOn : Store → Ptr → List Ptr → Store → Type 0
HandedOn s q [] t = Holds t q [] × (t.calls ≡ s.calls)
HandedOn s q (x ∷ xs) t =
    Holds t q xs
    × (t.calls ≡ s.calls ++ ((x, null) ∷ []))
    × (t.entry_at x
        ≡ record (s.entry_at x) { next = null; prev = null; linked = false; woken = true })

make_idle-other : (s : Store) (e x : Ptr) → x ≢ e → (make_idle e s).entry_at x ≡ s.entry_at x
unfolding make_idle put_entry
make_idle-other s e x ne = ground (arith, ne)

make_idle_self :
    (s : Store) (e : Ptr)
    → (make_idle e s).entry_at e ≡ record (s.entry_at e) { queue = null; woken = false }
unfolding make_idle put_entry
make_idle_self s e = ground arith

make_idle-calls : (s : Store) (e : Ptr) → (make_idle e s).calls ≡ s.calls
unfolding make_idle put_entry
make_idle-calls s e = refl

handed_on :
    (s : Store) (q e : Ptr) (es : List Ptr)
    → Holds s q es
    → (s.entry_at e).linked ≡ false
    → HandedOn s q es (waitq_wake_head q null (make_idle e s)).1
      × OthersKept s (waitq_wake_head q null (make_idle e s)).1 q
handed_on s q e [] h idle =
    let same : waitq_wake_head q null (make_idle e s) ≡ (0, make_idle e s) =
      wake_head_lem (make_idle e s) q null [] (keep_make_idle s e q [] idle h) in
    rw same (
      (keep_make_idle s e q [] idle h, make_idle-calls s e),
      λ r fs ne k. keep_make_idle s e r fs idle k,
    )
handed_on s q e (x ∷ xs) h idle =
    let ne : x ≢ e = λ same. cc (h.chain.0.linked, ap (λ t. (s.entry_at t).linked) same, idle) in
    let (one, w) =
      wake_head_lem (make_idle e s) q null (x ∷ xs) (keep_make_idle s e q (x ∷ xs) idle h) in
    (
      (
        w.holds,
        w.calls ∙ ap (λ c. c ++ ((x, null) ∷ [])) (make_idle-calls s e),
        w.entry
            ∙ ap
                (λ (c : WaitEntry). record c {
                  next = null;
                  prev = null;
                  linked = false;
                  woken = true;
                })
                (make_idle-other s e x ne),
      ),
      λ r fs ner k. w.others r fs ner (keep_make_idle s e r fs idle k),
    )

-- A woken exclusive waiter that gives up hands its wake on: the oldest waiter of the queue it was
-- woken from is woken in its place, with a null key, and nobody is if that queue is empty. The
-- cancelled entry itself ends in no queue and not woken, and every other queue keeps its waiters.
pub queue_cancel-handoff :
    (s : Store) (q e : Ptr) (es : List Ptr)
    → Holds s q es
    → q ≢ null
    → e ≢ null
    → (s.entry_at e).queue ≡ q
    → (s.entry_at e).linked ≡ false
    → (s.entry_at e).woken ≡ true
    → (s.entry_at e).exclusive ≡ true
    → HandedOn s q es (queue_cancel e s)
      × OthersKept s (queue_cancel e s) q
      × ((queue_cancel e s).entry_at e ≡ record (s.entry_at e) { queue = null; woken = false })
unfolding queue_cancel unlink_if_linked
queue_cancel-handoff s q e es h nn en own idle woken excl =
    let open_call : queue_cancel e s ≡ (waitq_wake_head q null (make_idle e s)).1 =
      ground (arith, nn, own, idle, woken, excl) in
    let (done, others) = handed_on s q e es h idle in
    let still : ((make_idle e s).entry_at e).linked ≡ false =
      ap (λ (c : WaitEntry). c.linked) (make_idle_self s e) ∙ idle in
    let own_entry =
      wake_head-idle (make_idle e s) q null es e (keep_make_idle s e q es idle h) en still
      ∙ make_idle_self s e in
    subst
      (λ t.
        HandedOn s q es t
        × OthersKept s t q
        × (t.entry_at e ≡ record (s.entry_at e) { queue = null; woken = false }))
      (sym open_call) (done, others, own_entry)

-- A waiter that was not woken, or is not exclusive, is cancelled as it is removed: no wake is
-- handed on.
pub queue_cancel-remove :
    (s : Store) (e : Ptr)
    → ((s.entry_at e).woken && (s.entry_at e).exclusive) ≡ false
    → queue_cancel e s ≡ queue_remove e s
unfolding queue_cancel queue_remove
queue_cancel-remove s e quiet = rw quiet
