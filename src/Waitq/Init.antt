-- ===== src/Waitq/Init.antt =====
-- kernel/core/waitq.c: an initialised queue is empty, and `wait_queue_empty` says whether one is.
use hydrogen_os.Prelude.{◌≡◌, refl, true, false, List, [], ◌∷◌, arith}
use hydrogen_os.Waitq.{Ptr, Store, queue_init, queue_empty, put_queue}
use hydrogen_os.Waitq.Chain.{Holds}

pub queue_init-Holds : (s : Store) (q : Ptr) → Holds (queue_init q s) q []
unfolding queue_init put_queue
queue_init-Holds s q = record { head = ground arith; tail = ground arith; chain = tt }

-- Initialising a queue keeps any empty queue empty.
pub queue_init-keep : (s : Store) (q r : Ptr) → Holds s r [] → Holds (queue_init q s) r []
unfolding queue_init put_queue
queue_init-keep s q r h = record {
  head = ground (arith, h.head);
  tail = ground (arith, h.tail);
  chain = tt;
}

pub queue_init-calls : (s : Store) (q : Ptr) → (queue_init q s).calls ≡ s.calls
unfolding queue_init put_queue
queue_init-calls s q = refl

pub queue_empty_lem :
    (s : Store) (q : Ptr) (es : List Ptr)
    → Holds s q es
    → queue_empty q s ≡ (elim es [ [] ↦ true | e ∷ es' ↦ false ])
unfolding queue_empty
queue_empty_lem s q [] h = ground (arith, h.head)
queue_empty_lem s q (e ∷ es) h = ground (arith, h.head, h.chain.0.ne_null)
