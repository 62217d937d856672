-- ===== src/Waitq/Unlink.antt =====
-- kernel/core/waitq.c: `waitq_unlink` takes one entry out of its list, wherever it stands.
use hydrogen_os.Prelude.{
  ◌≡◌, refl, ◌≢◌, false, ◌||◌, ◌==◌, if◌then◌else◌, List, [], ◌∷◌, ◌++◌, arith,
}
use hydrogen_os.Waitq.{
  Ptr, null, Store, WaitEntry, waitq_unlink, bypass_prev, bypass_next, set_head, set_tail, set_next,
  set_prev, put_entry, put_queue,
}
use hydrogen_os.Waitq.Chain.{
  elem, first, last_or, Between, Chain, Chain-frame, elem-append, last_or-mem,
}

-- What becomes of an entry other than the one between `pe` and `ne` that is taken out.
abbrev pub bypassed : Ptr → Ptr → Ptr → WaitEntry → WaitEntry
bypassed pe ne a c = record c {
  next = (if pe == null then c.next else if a == pe then ne else c.next);
  prev = (if ne == null then c.prev else if a == ne then pe else c.prev);
}

module _ (e : Ptr) (s : Store) (hp : (s.entry_at e).prev ≢ e) (hn : (s.entry_at e).next ≢ e) where
  pub unlink_other :
      (a : Ptr)
      → a ≢ e
      → (waitq_unlink e s).entry_at a
        ≡ bypassed (s.entry_at e).prev (s.entry_at e).next a (s.entry_at a)
  unfolding waitq_unlink bypass_prev bypass_next set_head set_tail set_next set_prev put_entry
      put_queue
  unlink_other a ne = ground arith

  pub unlink_self :
      (waitq_unlink e s).entry_at e
      ≡ record (s.entry_at e) { next = null; prev = null; linked = false }
  unfolding waitq_unlink bypass_prev bypass_next set_head set_tail set_next set_prev put_entry
      put_queue
  unlink_self = ground arith

  pub unlink_queue :
      (q : Ptr)
      → (waitq_unlink e s).queue_at q ≡ (
          if q == (s.entry_at e).queue
          then record {
            head =
                (if (s.entry_at e).prev == null then (s.entry_at e).next else (s.queue_at q).head);
            tail =
                (if (s.entry_at e).next == null then (s.entry_at e).prev else (s.queue_at q).tail);
          }
          else s.queue_at q)
  unfolding waitq_unlink bypass_prev bypass_next set_head set_tail set_next set_prev put_entry
      put_queue
  unlink_queue q = ground arith

pub unlink_calls : (e : Ptr) (s : Store) → (waitq_unlink e s).calls ≡ s.calls
unfolding waitq_unlink bypass_prev bypass_next set_head set_tail set_next set_prev put_entry
    put_queue
unlink_calls e s = ground arith

-- `t` differs from `s` as after taking `e` out from between `pe` and `ne`.
abbrev pub TakenOut : Store → Store → Ptr → Ptr → Ptr → Type 0
TakenOut s t e pe ne = (a : Ptr) → a ≢ e → t.entry_at a ≡ bypassed pe ne a (s.entry_at a)

-- `x` stands before `e` in a list of distinct entries.
pub split_out :
    (x e : Ptr) (xs ys : List Ptr)
    → elem x (xs ++ (e ∷ ys)) ≡ false
    → (x ≢ e) × (elem x xs ≡ false) × (elem x ys ≡ false)
split_out x e xs ys out =
    let parts : (elem x xs || elem x (e ∷ ys)) ≡ false = rw (elem-append x xs (e ∷ ys)) at out in
    (ground arith, ground arith, ground arith)

ne-first : (x : Ptr) (ys : List Ptr) → elem x ys ≡ false → x ≢ null → x ≢ first ys
ne-first x [] out ne = ne
ne-first x (y ∷ ys) out ne = ground arith

pub ne-last_or : (x p : Ptr) (xs : List Ptr) → elem x (p ∷ xs) ≡ false → x ≢ last_or p xs
ne-last_or x p xs out e = cc (last_or-mem p p xs, e, out)

module _ (s t : Store) (q : Ptr) where
  -- The entry before the one taken out, or an earlier one, keeps its place.
  Between-before :
      {p x : Ptr} (e : Ptr) (xs ys : List Ptr)
      → Between s q p x (first (xs ++ (e ∷ ys)))
      → elem x (xs ++ (e ∷ ys)) ≡ false
      → TakenOut s t e (last_or x xs) (first ys)
      → Between t q p x (first (xs ++ ys))
  Between-before {p} {x} e xs ys b out taken =
      let (ne, not_xs, not_ys) = split_out x e xs ys out in
      let at = taken x ne in
      let no_prev = ne-first x ys not_ys b.ne_null in
      record {
        ne_null = b.ne_null;
        prev = ground (arith, at, b.prev, no_prev);
        next = next_lem xs b.next at not_xs;
        queue = ground (arith, at, b.queue);
        linked = ground (arith, at, b.linked);
      }
    where
      next_lem :
          (xs : List Ptr)
          → (s.entry_at x).next ≡ first (xs ++ (e ∷ ys))
          → t.entry_at x ≡ bypassed (last_or x xs) (first ys) x (s.entry_at x)
          → elem x xs ≡ false
          → (t.entry_at x).next ≡ first (xs ++ ys)
      next_lem [] n at o = ground (arith, b.ne_null)
      next_lem (z ∷ zs) n at o = ground (arith, ne-last_or x z zs o)

  Chain-after :
      (p e : Ptr) (ys : List Ptr)
      → Chain s q e ys
      → elem p ys ≡ false
      → elem e ys ≡ false
      → TakenOut s t e p (first ys)
      → Chain t q p ys
  Chain-after p e [] c out oe taken = tt
  Chain-after p e (y ∷ ys) (b, oy, c) out oe taken = (
    let at : t.entry_at y ≡ bypassed p y y (s.entry_at y) = taken y (ground arith) in
        let ne : y ≢ p = ground arith in
        record {
          ne_null = b.ne_null;
          prev = ground (arith, at, b.ne_null);
          next = ground (arith, at, b.next, ne);
          queue = ground (arith, at, b.queue);
          linked = ground (arith, at, b.linked);
        },
    oy,
    Chain-frame s t q y ys c (λ a m.
        let ne_y : a ≢ y = (λ same. cc (m, oy, same)) in
        let ne_p : a ≢ p = (λ same. ground (arith, m, out, same)) in
        let ne_e : a ≢ e = (λ same. ground (arith, m, oe, same)) in
        ground (arith, taken a ne_e, ne_y, ne_p)),
  )

  -- Taking `e` out of a chain leaves the chain of the others, in their order.
  pub Chain-unlink :
      (p e : Ptr) (xs ys : List Ptr)
      → Chain s q p (xs ++ (e ∷ ys))
      → elem p (xs ++ (e ∷ ys)) ≡ false
      → TakenOut s t e (last_or p xs) (first ys)
      → Chain t q p (xs ++ ys)
  Chain-unlink p e [] ys (b, oe, c) out taken = Chain-after p e ys c (ground arith) oe taken
  Chain-unlink p e (x ∷ xs) ys (b, ox, c) out taken = (
    Between-before e xs ys b ox taken,
    (let parts = split_out x e xs ys ox in rw (elem-append x xs ys, parts.1) parts.2),
    Chain-unlink x e xs ys c ox taken,
  )

pub Chain-null : (s : Store) (q p : Ptr) (es : List Ptr) → Chain s q p es → elem null es ≡ false
Chain-null s q p [] c = refl
Chain-null s q p (e ∷ es) (b, _, c) = ground (arith, Chain-null s q e es c, b.ne_null)

-- An entry of a chain stands between its neighbours in the list.
pub Chain-at :
    (s : Store) (q p e : Ptr) (xs ys : List Ptr)
    → Chain s q p (xs ++ (e ∷ ys))
    → Between s q (last_or p xs) e (first ys)
Chain-at s q p e [] ys c = c.0
Chain-at s q p e (x ∷ xs) ys c = Chain-at s q x e xs ys c.2
