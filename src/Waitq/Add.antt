-- ===== src/Waitq/Add.antt =====
-- kernel/core/waitq.c: `wait_queue_add` appends an entry, moving it if it is linked.
use hydrogen_os.Prelude.{
  ◌⊎◌, inl, inr, Bool-cases, ◌≡◌, refl, ◌≢◌, ◌∙◌, ap, sym, true, false, ◌&&◌, not, ◌==◌,
  if◌then◌else◌, List, [], ◌∷◌, ◌++◌, arith,
}
use mathlib.Core.List.{append-nil}
use hydrogen_os.Waitq.{
  Ptr, null, Store, WaitEntry, WaitQueue, set_head, set_tail, set_next, put_entry, put_queue,
  append_entry,
}
use hydrogen_os.Waitq.Chain.{
  elem, first, last_or, Chain, Holds, Chain-frame, Chain-queue, elem-append, last_or-append,
}
use hydrogen_os.Waitq.Unlink.{Chain-null, ne-last_or}
use hydrogen_os.Waitq.Member.{OthersKept, last_or-queue}

-- What becomes of each entry when `e` is put behind `tail` in queue `q`.
abbrev pub appended : Ptr → Ptr → Ptr → Ptr → WaitEntry → WaitEntry
appended q tail e a c =
    if a == e
    then record c { queue = q; woken = false; prev = tail; next = null; linked = true }
    else record c { next = (if not (tail == null) && a == tail then e else c.next) }

module _ (q e : Ptr) (s : Store) (ne : e ≢ (s.queue_at q).tail) where
  append_entries :
      (a : Ptr)
      → (append_entry q e s).entry_at a ≡ appended q (s.queue_at q).tail e a (s.entry_at a)
  unfolding append_entry set_head set_tail set_next put_entry put_queue
  append_entries a = ground arith

  append_queues :
      (r : Ptr)
      → (append_entry q e s).queue_at r ≡ (
          if r == q
          then record {
            head = (if (s.queue_at q).tail == null then e else (s.queue_at q).head);
            tail = e;
          }
          else s.queue_at r)
  unfolding append_entry set_head set_tail set_next put_entry put_queue
  append_queues r = ground arith

pub append_calls : (q e : Ptr) (s : Store) → (append_entry q e s).calls ≡ s.calls
unfolding append_entry set_head set_tail set_next put_entry put_queue
append_calls q e s = ground arith

Chain-append :
    (s t : Store) (q p e : Ptr) (es : List Ptr)
    → Chain s q p es
    → elem e es ≡ false
    → e ≢ null
    → ((a : Ptr) → t.entry_at a ≡ appended q (last_or p es) e a (s.entry_at a))
    → Chain t q p (es ++ (e ∷ []))
Chain-append s t q p e [] c out nn at = (
  record {
    ne_null = nn;
    prev = ground (arith, at e);
    next = ground (arith, at e);
    queue = ground (arith, at e);
    linked = ground (arith, at e);
  },
  refl,
  tt,
)
Chain-append s t q p e (x ∷ es) (b, ox, c) out nn at =
    let ne : x ≢ e = ground arith in
    (
      record {
        ne_null = b.ne_null;
        prev = ground (arith, at x, b.prev);
        next = next_lem es ox b.next (at x);
        queue = ground (arith, at x, b.queue);
        linked = ground (arith, at x, b.linked);
      },
      rw elem-append (ground arith),
      Chain-append s t q x e es c (ground arith) nn at,
    )
  where
    next_lem :
        (es : List Ptr)
        → elem x es ≡ false
        → (s.entry_at x).next ≡ first es
        → t.entry_at x ≡ appended q (last_or x es) e x (s.entry_at x)
        → (t.entry_at x).next ≡ first (es ++ (e ∷ []))
    next_lem [] o n at = ground (arith, b.ne_null)
    next_lem (y ∷ ys) o n at = ground (arith, ne-last_or x y ys o)

module _ (s : Store) (q e : Ptr) (es : List Ptr) (h : Holds s q es) (nn : e ≢ null)
    (idle : (s.entry_at e).linked ≡ false) where
  not_in : (r p : Ptr) (fs : List Ptr) → Chain s r p fs → elem e fs ≡ false
  not_in r p fs c = elim (Bool-cases (elem e fs)) [
    | inl m ↦ cc ((Chain-queue s r p fs e c m).2, idle)
    | inr out ↦ out
  ]

  ne_tail : e ≢ (s.queue_at q).tail
  ne_tail same = go es (same ∙ h.tail) (not_in q null es h.chain)
    where
      go : (es : List Ptr) → e ≡ last_or null es → elem e es ≡ false → ⊥
      go [] n o = nn n
      go (x ∷ xs) n o = ne-last_or e x xs o n

  pub Holds-append : Holds (append_entry q e s) q (es ++ (e ∷ []))
  Holds-append = record {
    head = head_lem es h.tail h.head (Chain-null s q null es h.chain);
    tail = ap (λ (w : WaitQueue). w.tail) own ∙ sym (last_or-append null e es []);
    chain =
        Chain-append s (append_entry q e s) q null e es h.chain (not_in q null es h.chain) nn
          (λ a. rw (← h.tail) (append_entries q e s ne_tail a));
  }
    where
      own : (append_entry q e s).queue_at q ≡ record {
        head = (if (s.queue_at q).tail == null then e else (s.queue_at q).head);
        tail = e;
      }
      own = ground (arith, append_queues q e s ne_tail q)

      head_lem :
          (es : List Ptr)
          → (s.queue_at q).tail ≡ last_or null es
          → (s.queue_at q).head ≡ first es
          → elem null es ≡ false
          → ((append_entry q e s).queue_at q).head ≡ first (es ++ (e ∷ []))
      head_lem [] t hd n = ground (arith, own)
      head_lem (x ∷ xs) t hd n = ground (arith, own, ne-last_or null x xs n)

  pub OthersKept-append : OthersKept s (append_entry q e s) q
  OthersKept-append r fs ne k = record {
    head = ground (arith, append_queues q e s ne_tail r, k.head);
    tail = ground (arith, append_queues q e s ne_tail r, k.tail);
    chain = Chain-frame s (append_entry q e s) r null fs k.chain (λ a m.
        let (own, not_null, linked) = Chain-queue s r null fs a k.chain m in
        let ne_e : a ≢ e = (λ same. cc (ap (λ x. (s.entry_at x).linked) same)) in
        append_entries q e s ne_tail a
        ∙ untouched a ne_e (apart a own not_null (tail_queue h.tail)));
  }
    where
      tail_queue :
          (s.queue_at q).tail ≡ last_or null es
          → ((s.queue_at q).tail ≡ null) ⊎ ((s.entry_at (s.queue_at q).tail).queue ≡ q)
      tail_queue t = rw t (last_or-queue s q es [] (rw append-nil h.chain))

      apart :
          (a : Ptr)
          → (s.entry_at a).queue ≡ r
          → a ≢ null
          → ((s.queue_at q).tail ≡ null) ⊎ ((s.entry_at (s.queue_at q).tail).queue ≡ q)
          → a ≢ (s.queue_at q).tail
      apart a own not_null (inl z) same = not_null (same ∙ z)
      apart a own not_null (inr qn) same = ne (sym own ∙ ap (λ x. (s.entry_at x).queue) same ∙ qn)

      untouched :
          (a : Ptr)
          → a ≢ e
          → a ≢ (s.queue_at q).tail
          → appended q (s.queue_at q).tail e a (s.entry_at a) ≡ s.entry_at a
      untouched a x y = ground arith
