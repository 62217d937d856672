-- ===== src/ExitRecord/Claim.antt =====
-- kernel/core/exit_record.c, exit_record_claim.
use mathlib.Core.Option
use hydrogen_os.Prelude.{
  ℕ, ◌≡◌, ◌≢◌, refl, ap, ◌==◌, Bool, Bool-cases, if◌then◌else◌, Option, none, some, List, [], ◌∷◌,
  ◌++◌, ◌⊎◌, inl, inr, arith,
}
use hydrogen_os.Kheap.{Heap, kfree}
use hydrogen_os.ExitRecord.{ExitRecord, keep_before, unlink_loop, exit_record_claim}

-- None of the records is a child's.
pub data Without (pid : ℕ) : List ExitRecord → Type 0 where
  without_nil : Without pid []
  without_cons :
      {r : ExitRecord} {rs : List ExitRecord} → r.pid ≢ pid → Without pid rs → Without pid (r ∷ rs)

-- The newest record of a child, between the records before it, none of them the child's, and the
-- rest.
pub record Newest (pid : ℕ) (head before : List ExitRecord) (r : ExitRecord)
    (after : List ExitRecord) : Type 0 where
  pub list : head ≡ before ++ r ∷ after
  pub owner : r.pid ≡ pid
  pub first : Without pid before

-- What the search for a child's record finds.
Unlinked : ℕ → List ExitRecord → Option (ExitRecord × List ExitRecord) → Type 0
Unlinked pid head found =
    (Without pid head × (found ≡ none))
    ⊎ ((before : List ExitRecord) × (r : ExitRecord) × (after : List ExitRecord) × Newest pid head
          before r after
        × (found ≡ some (r, before ++ after)))

Unlinked-unlink_loop : (head : List ExitRecord) (pid : ℕ) → Unlinked pid head (unlink_loop head pid)
unfolding unlink_loop Unlinked keep_before
Unlinked-unlink_loop [] pid = inl (without_nil, refl)
Unlinked-unlink_loop (r ∷ next) pid = elim (Bool-cases (r.pid == pid)) [
  | inl a ↦ rw a (
      inr
        ([], r, next, record { list = refl; owner = ground (arith, a); first = without_nil }, refl))
  | inr a ↦ rw a (elim (Unlinked-unlink_loop next pid) [
    | inl s ↦ inl (without_cons (ground (arith, a)) s.0, rw s.1 refl)
    | inr (before, found, after, n, e) ↦ inr (
      r ∷ before,
      found,
      after,
      record {
        list = ap (λ t. r ∷ t) n.list;
        owner = n.owner;
        first = without_cons (ground (arith, a)) n.first;
      },
      rw e refl,
    )
  ])
]

-- `exit_record_claim` returns 0 and changes nothing when no record is the child's. Otherwise it
-- frees the child's newest record, takes that record alone out of the list, stores its status if
-- that is wanted and returns 1; it has no result just where `kfree` of the record has none.
pub exit_record_claim_lem :
    (head : List ExitRecord) (pid : ℕ) (wanted : Bool) (h : Heap)
    → (Without pid head
        × (exit_record_claim head pid wanted h
            ≡ some (record { result = 0; out_status = none; head = head; heap = h })))
      ⊎ ((before : List ExitRecord) × (r : ExitRecord) × (after : List ExitRecord) × Newest pid head
            before r after
          × (exit_record_claim head pid wanted h
              ≡ Option.map
                  (λ t. record {
                    result = 1;
                    out_status = if wanted then some r.status else none;
                    head = before ++ after;
                    heap = t;
                  })
                  (kfree r.address h)))
unfolding exit_record_claim Unlinked
exit_record_claim_lem head pid wanted h = elim (Unlinked-unlink_loop head pid) [
  | inl s ↦ inl (s.0, rw (exit_record_claim, s.1) refl)
  | inr (before, r, after, n, e) ↦ inr (before, r, after, n, rw (exit_record_claim, e) refl)
]
