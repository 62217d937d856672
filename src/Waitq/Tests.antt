-- ===== src/Waitq/Tests.antt =====
-- kernel/core/waitq.c at two queues, at addresses 100 and 200, and entries at 1 to 4.
use hydrogen_os.Prelude.{◌≡◌, refl, true, false, ◌==◌, if◌then◌else◌, [], ◌∷◌, arith}
use hydrogen_os.Waitq.{
  Ptr, null, Store, WaitEntry, wake_one, wake_all, queue_add, queue_remove, queue_cancel,
}
use hydrogen_os.Waitq.Chain.{Holds}
use hydrogen_os.Waitq.Member.{OthersKept}
use hydrogen_os.Waitq.Fifo.{WakesFirst, WokenAll, wake_one_lem, wake_all_lem}
use hydrogen_os.Waitq.Cancel.{
  queue_add-idle, queue_add-within, queue_add-from, queue_remove-linked, HandedOn,
  queue_cancel-handoff,
}

abbrev waiting : Ptr → Ptr → Ptr → WaitEntry
waiting q p n = record {
  next = n;
  prev = p;
  queue = q;
  wake = 7;
  owner = 9;
  linked = true;
  woken = false;
  exclusive = true;
}

-- Entry 4 was woken from queue 100 and has not acted on it.
abbrev woken_entry : WaitEntry
woken_entry = record (waiting 100 null null) { linked = false; woken = true }

-- Queue 100 holds 1 and 2, queue 200 holds 3.
abbrev store : Store
store = record {
  queue_at = λ q.
      if q == 100
      then record { head = 1; tail = 2 }
      else if q == 200
      then record { head = 3; tail = 3 }
      else record { head = null; tail = null };
  entry_at = λ e.
      if e == 1
      then waiting 100 null 2
      else if e == 2
      then waiting 100 1 null
      else if e == 3
      then waiting 200 null null
      else woken_entry;
  calls = [];
}

store_100 : Holds store 100 (1 ∷ 2 ∷ [])
store_100 = record {
  head = refl;
  tail = refl;
  chain = (
    record { ne_null = omega arith; prev = refl; next = refl; queue = refl; linked = refl },
    refl,
    (
      record { ne_null = omega arith; prev = refl; next = refl; queue = refl; linked = refl },
      refl,
      tt,
    ),
  );
}

store_200 : Holds store 200 (3 ∷ [])
store_200 = record {
  head = refl;
  tail = refl;
  chain = (
    record { ne_null = omega arith; prev = refl; next = refl; queue = refl; linked = refl },
    refl,
    tt,
  );
}

wake_one_example : WakesFirst store 100 null (1 ∷ 2 ∷ []) (wake_one 100 null store)
wake_one_example = wake_one_lem store 100 null (1 ∷ 2 ∷ []) store_100

wake_all_example : WokenAll store 100 null (1 ∷ 2 ∷ []) 0 (wake_all 8 100 null store)
wake_all_example = wake_all_lem 8 store 100 null (1 ∷ 2 ∷ []) store_100 (omega arith)

queue_add-idle_example :
    Holds (queue_add 200 4 store) 200 (3 ∷ 4 ∷ [])
    × OthersKept store (queue_add 200 4 store) 200
    × ((queue_add 200 4 store).calls ≡ [])
queue_add-idle_example = queue_add-idle store 200 4 (3 ∷ []) store_200 (omega arith) refl

queue_add-within_example : Holds (queue_add 100 1 store) 100 (2 ∷ 1 ∷ [])
queue_add-within_example = queue_add-within store 100 1 [] (2 ∷ []) store_100

queue_add-from_example :
    Holds (queue_add 200 2 store) 100 (1 ∷ []) × Holds (queue_add 200 2 store) 200 (3 ∷ 2 ∷ [])
queue_add-from_example =
    queue_add-from store 100 200 2 (1 ∷ []) [] (3 ∷ []) (omega arith) store_100 store_200

queue_remove-linked_example :
    Holds (queue_remove 1 store) 100 (2 ∷ [])
    × OthersKept store (queue_remove 1 store) 100
    × ((queue_remove 1 store).calls ≡ [])
queue_remove-linked_example = queue_remove-linked store 100 1 [] (2 ∷ []) store_100

queue_cancel-handoff_example :
    HandedOn store 100 (1 ∷ 2 ∷ []) (queue_cancel 4 store)
    × OthersKept store (queue_cancel 4 store) 100
    × ((queue_cancel 4 store).entry_at 4 ≡ record woken_entry { queue = null; woken = false })
queue_cancel-handoff_example =
    queue_cancel-handoff store 100 4 (1 ∷ 2 ∷ []) store_100 (omega arith) (omega arith) refl refl
      refl refl
