-- ===== src/ExitRecord/Tests.antt =====
-- kernel/core/exit_record.c: runs on two children.
use mathlib.Core.Option
use hydrogen_os.Prelude.{◌≡◌, refl, true, if◌then◌else◌, none, some, List, [], ◌∷◌, ◌++◌, ◌⊎◌}
use hydrogen_os.Kheap.{
  Heap, kheap_init, split_block, kalloc_scan, kalloc, mark_free, coalesce_loop, coalesce, kfree,
}
use hydrogen_os.ExitRecord.{
  ExitRecord, exit_record_create, exit_record_publish, destroy_loop, exit_record_list_destroy,
  keep_before, unlink_loop, exit_record_claim,
}
use hydrogen_os.ExitRecord.Claim.{Without, Newest, exit_record_claim_lem}

-- A heap with the records of two children.
abbrev granted : Heap
granted = (exit_record_create (exit_record_create (kheap_init 4096 4096)).1).1

-- The children 7 and 8, the latter's record the newer.
abbrev published : List ExitRecord
published = exit_record_publish (exit_record_publish [] 4120 7 1) 4160 8 2

second_record : (exit_record_create (exit_record_create (kheap_init 4096 4096)).1).0 ≡ 4160
unfolding kheap_init kalloc kalloc_scan split_block exit_record_create
second_record = refl

older_claimed :
    Option.map (λ c. c.head) (exit_record_claim published 7 true granted)
    ≡ some (record { address = 4160; pid = 8; status = 2 } ∷ [])
unfolding kheap_init kalloc kalloc_scan split_block mark_free coalesce_loop coalesce kfree
    exit_record_create exit_record_publish keep_before unlink_loop exit_record_claim
older_claimed = refl

stored_status :
    Option.map (λ c. c.out_status) (exit_record_claim published 7 true granted) ≡ some (some 1)
unfolding kheap_init kalloc kalloc_scan split_block mark_free coalesce_loop coalesce kfree
    exit_record_create exit_record_publish keep_before unlink_loop exit_record_claim
stored_status = refl

stranger : Option.map (λ c. c.result) (exit_record_claim published 9 true granted) ≡ some 0
unfolding exit_record_publish keep_before unlink_loop exit_record_claim
stranger = refl

-- Without the list, its heap is as it was at first.
all_destroyed : exit_record_list_destroy published granted ≡ some ([], kheap_init 4096 4096)
unfolding kheap_init kalloc kalloc_scan split_block mark_free coalesce_loop coalesce kfree
    exit_record_create exit_record_publish destroy_loop exit_record_list_destroy Option.bind
all_destroyed = refl

exit_record_claim_example :
    (Without 7 published
      × (exit_record_claim published 7 true granted
          ≡ some (record { result = 0; out_status = none; head = published; heap = granted })))
    ⊎ ((before : List ExitRecord) × (r : ExitRecord) × (after : List ExitRecord) × Newest 7
          published before r after
        × (exit_record_claim published 7 true granted
            ≡ Option.map
                (λ t. record {
                  result = 1;
                  out_status = if true then some r.status else none;
                  head = before ++ after;
                  heap = t;
                })
                (kfree r.address granted)))
exit_record_claim_example = exit_record_claim_lem published 7 true granted
