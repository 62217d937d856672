-- ===== src/Waitq/Member.antt =====
-- kernel/core/waitq.c: `waitq_unlink`, `wait_queue_remove` and the other operations on one entry,
-- against the list that each queue holds.
use hydrogen_os.Prelude.{
  true, ◌≡◌, refl, ◌≢◌, ◌∙◌, ◌⊎◌, false, ◌||◌, ◌==◌, if◌then◌else◌, sym, List, [], ◌∷◌, ◌++◌, arith,
  inl, inr, ap,
}
use mathlib.Core.List.{append-nil, append_assoc}
use hydrogen_os.Waitq.{Ptr, null, Store, WaitEntry, WaitQueue, waitq_unlink}
use hydrogen_os.Waitq.Chain.{
  elem, first, last_or, Between, Chain, Holds, Chain-frame, Chain-queue, last_or-mem,
  last_or-append, elem-append,
}
use hydrogen_os.Waitq.Unlink.{
  unlink_other, unlink_self, unlink_queue, Chain-unlink, Chain-null, Chain-at, bypassed, split_out,
  ne-last_or,
}

-- Every queue but `q` holds what it held.
abbrev pub OthersKept : Store → Store → Ptr → Type 0
OthersKept s t q = (r : Ptr) (fs : List Ptr) → r ≢ q → Holds s r fs → Holds t r fs

-- The neighbours of an entry belong to its queue, if they exist.
pub last_or-queue :
    (s : Store) (q : Ptr) (xs ys : List Ptr)
    → Chain s q null (xs ++ ys)
    → (last_or null xs ≡ null) ⊎ ((s.entry_at (last_or null xs)).queue ≡ q)
last_or-queue s q [] ys c = inl refl
last_or-queue s q (x ∷ xs) ys c =
    inr
      (Chain-queue s q null (x ∷ xs ++ ys) (last_or x xs) c
        (rw (elem-append (last_or x xs) (x ∷ xs) ys) (ground (arith, last_or-mem null x xs)))).0

pub first-queue :
    (s : Store) (q p : Ptr) (xs ys : List Ptr)
    → Chain s q p (xs ++ ys)
    → (first ys ≡ null) ⊎ ((s.entry_at (first ys)).queue ≡ q)
first-queue s q p xs [] c = inl refl
first-queue s q p [] (y ∷ ys) c = inr (c.0.queue)
first-queue s q p (x ∷ xs) (y ∷ ys) c = first-queue s q x xs (y ∷ ys) c.2

Chain-distinct :
    (s : Store) (q p e : Ptr) (xs ys : List Ptr)
    → Chain s q p (xs ++ (e ∷ ys))
    → (elem e xs ≡ false) × (elem e ys ≡ false)
Chain-distinct s q p e [] ys c = (refl, c.1)
Chain-distinct s q p e (x ∷ xs) ys (b, out, c) =
    let apart = (split_out x e xs ys out).0 in
    let (no_xs, no_ys) = Chain-distinct s q x e xs ys c in (ground (arith, apart), no_ys)

-- Whether an entry comes before, at either end of the list.
last_or-ne_null :
    (x : Ptr) (xs zs : List Ptr) → elem null (x ∷ xs ++ zs) ≡ false → last_or x xs ≢ null
last_or-ne_null x xs zs n e =
    let parts : (elem null (x ∷ xs) || elem null zs) ≡ false =
      rw (elem-append null (x ∷ xs) zs) at n in
    ne-last_or null x xs (ground arith) (sym e)

head_lem :
    (e : Ptr) (xs ys : List Ptr)
    → elem null (xs ++ (e ∷ ys)) ≡ false
    → (if last_or null xs == null then first ys else first (xs ++ (e ∷ ys))) ≡ first (xs ++ ys)
head_lem e [] ys n = refl
head_lem e (x ∷ xs) ys n = ground (arith, last_or-ne_null x xs (e ∷ ys) n)

tail_lem :
    (e : Ptr) (xs ys : List Ptr)
    → elem null (xs ++ (e ∷ ys)) ≡ false
    → (if first ys == null then last_or null xs else last_or null (xs ++ (e ∷ ys)))
      ≡ last_or null (xs ++ ys)
tail_lem e xs [] n = rw append-nil
tail_lem e xs (y ∷ ys) n = ground (
  arith,
  last_or-append null e xs (y ∷ ys),
  last_or-append null y xs ys,
  (split_out null e xs (y ∷ ys) n).2,
)

bypassed-same : (pe ne a : Ptr) (c : WaitEntry) → a ≢ pe → a ≢ ne → bypassed pe ne a c ≡ c
bypassed-same pe ne a c hp hn = ground arith

module _ (s : Store) (q e : Ptr) (xs ys : List Ptr) (h : Holds s q (xs ++ (e ∷ ys))) where
  at : Between s q (last_or null xs) e (first ys)
  at = Chain-at s q null e xs ys h.chain

  prev_ne : (s.entry_at e).prev ≢ e
  prev_ne same = go xs (sym at.prev ∙ same) (Chain-distinct s q null e xs ys h.chain).0
    where
      go : (xs : List Ptr) → last_or null xs ≡ e → elem e xs ≡ false → ⊥
      go [] n o = at.ne_null (sym n)
      go (x ∷ xs) n o = cc (last_or-mem null x xs)

  next_ne : (s.entry_at e).next ≢ e
  next_ne same = go ys (sym at.next ∙ same) (Chain-distinct s q null e xs ys h.chain).1
    where
      go : (ys : List Ptr) → first ys ≡ e → elem e ys ≡ false → ⊥
      go [] n o = at.ne_null (sym n)
      go (y ∷ ys) n o = ground arith

  unlink_taken :
      (a : Ptr)
      → a ≢ e
      → (waitq_unlink e s).entry_at a ≡ bypassed (last_or null xs) (first ys) a (s.entry_at a)
  unlink_taken a ne = ground (arith, unlink_other e s prev_ne next_ne a ne, at.prev, at.next)

  own_queue : (waitq_unlink e s).queue_at q ≡ record {
    head = (if last_or null xs == null then first ys else (s.queue_at q).head);
    tail = (if first ys == null then last_or null xs else (s.queue_at q).tail);
  }
  own_queue = ground (arith, unlink_queue e s prev_ne next_ne q, at.queue, at.prev, at.next)

  unlink_head : ((waitq_unlink e s).queue_at q).head ≡ first (xs ++ ys)
  unlink_head =
      ap (λ (w : WaitQueue). w.head) own_queue
      ∙ (rw h.head (head_lem e xs ys (Chain-null s q null _ h.chain)))

  unlink_tail : ((waitq_unlink e s).queue_at q).tail ≡ last_or null (xs ++ ys)
  unlink_tail =
      ap (λ (w : WaitQueue). w.tail) own_queue
      ∙ (rw h.tail (tail_lem e xs ys (Chain-null s q null _ h.chain)))

  -- Taking an entry out of its queue leaves the others in order.
  pub Holds-unlink : Holds (waitq_unlink e s) q (xs ++ ys)
  Holds-unlink = record {
    head = unlink_head;
    tail = unlink_tail;
    chain =
        Chain-unlink s (waitq_unlink e s) q null e xs ys h.chain (Chain-null s q null _ h.chain)
          unlink_taken;
  }

  pub unlink_entry :
      (waitq_unlink e s).entry_at e
      ≡ record (s.entry_at e) { next = null; prev = null; linked = false }
  unlink_entry = unlink_self e s prev_ne next_ne

  -- No other queue changes.
  pub OthersKept-unlink : OthersKept s (waitq_unlink e s) q
  OthersKept-unlink r fs ne k = record {
    head = ground (arith, unlink_queue e s prev_ne next_ne r, at.queue, k.head);
    tail = ground (arith, unlink_queue e s prev_ne next_ne r, at.queue, k.tail);
    chain = Chain-frame s (waitq_unlink e s) r null fs k.chain (λ a m.
        let (own, not_null, _) = Chain-queue s r null fs a k.chain m in
        let ne_e : a ≢ e =
          (λ same. ne (sym own ∙ ap (λ x. (s.entry_at x).queue) same ∙ at.queue)) in
        unlink_taken a ne_e
        ∙ bypassed-same (last_or null xs) (first ys) a (s.entry_at a)
            (apart a own not_null (last_or null xs) (last_or-queue s q xs (e ∷ ys) h.chain))
            (apart a own not_null (first ys) next_queue));
  }
    where
      apart :
          (a : Ptr)
          → (s.entry_at a).queue ≡ r
          → a ≢ null
          → (n : Ptr) → (n ≡ null) ⊎ ((s.entry_at n).queue ≡ q)
          → a ≢ n
      apart a own nn n (inl z) same = nn (same ∙ z)
      apart a own nn n (inr qn) same = ne (sym own ∙ ap (λ x. (s.entry_at x).queue) same ∙ qn)

      next_queue : (first ys ≡ null) ⊎ ((s.entry_at (first ys)).queue ≡ q)
      next_queue = first-queue s q null (xs ++ (e ∷ [])) ys (rw (append_assoc) h.chain)

first-linked :
    (s : Store) (q p : Ptr) (es : List Ptr)
    → Chain s q p es
    → (first es ≡ null) ⊎ ((s.entry_at (first es)).linked ≡ true)
first-linked s q p [] c = inl refl
first-linked s q p (y ∷ ys) c = inr (c.0.linked)

-- Taking out the first entry of a queue leaves an entry alone that is in no queue.
pub unlink-idle :
    (s : Store) (q e : Ptr) (es : List Ptr) (a : Ptr)
    → Holds s q (e ∷ es)
    → a ≢ null
    → (s.entry_at a).linked ≡ false
    → (waitq_unlink e s).entry_at a ≡ s.entry_at a
unlink-idle s q e es a h nn idle =
    let ne : a ≢ e = λ same. cc (h.chain.0.linked, ap (λ x. (s.entry_at x).linked) same, idle) in
    let not_next : a ≢ first es = λ same. elim (first-linked s q e es h.chain.2) [
      | inl z ↦ nn (same ∙ z)
      | inr l ↦ cc (l, ap (λ x. (s.entry_at x).linked) same, idle)
    ] in
    unlink_taken s q e [] es h a ne ∙ bypassed-same null (first es) a (s.entry_at a) nn not_next
