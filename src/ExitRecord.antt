-- ===== src/ExitRecord.antt =====
-- kernel/core/exit_record.c, the exit statuses of terminated children. An `exit_record_t` is a record
-- with the address that it lies at, and the list behind a head is the list of them; the heap of
-- `Kheap` grants and takes the memory.
pub mod Claim
mod Tests
use mathlib.Core.Option
use hydrogen_os.Prelude.{ℕ, ◌==◌, Bool, if◌then◌else◌, Option, none, some, List, [], ◌∷◌}
use hydrogen_os.Kheap.{Heap, kalloc, kfree}

pub record ExitRecord : Type 0 where
  pub address : ℕ
  pub pid : ℕ
  pub status : ℕ

-- The size of an `exit_record_t` on a 64-bit machine.
abbrev pub exit_record_size : ℕ
exit_record_size = 16

pub exit_record_create : Heap → ℕ × Heap
exit_record_create h = kalloc exit_record_size h

pub exit_record_destroy : ℕ → Heap → Option Heap
exit_record_destroy record_address h = kfree record_address h

-- The loop of `exit_record_list_destroy`.
pub destroy_loop : List ExitRecord → Heap → Option Heap
destroy_loop [] h = some h
destroy_loop (r ∷ next) h = Option.bind (kfree r.address h) (destroy_loop next)

-- The head that is left, and the heap.
pub exit_record_list_destroy : List ExitRecord → Heap → Option (List ExitRecord × Heap)
exit_record_list_destroy head h = Option.map (λ t. ([], t)) (destroy_loop head h)

pub exit_record_publish : List ExitRecord → ℕ → ℕ → ℕ → List ExitRecord
exit_record_publish head record_address pid status =
    record { address = record_address; pid = pid; status = status } ∷ head

keep_before :
    ExitRecord → Option (ExitRecord × List ExitRecord) → Option (ExitRecord × List ExitRecord)
keep_before r found = Option.map (λ f. (f.0, r ∷ f.1)) found

-- The loop of `exit_record_claim`: the record that it unlinks, and the list that is left.
pub unlink_loop : List ExitRecord → ℕ → Option (ExitRecord × List ExitRecord)
unlink_loop [] pid = none
unlink_loop (r ∷ next) pid =
    let rest = unlink_loop next pid in if r.pid == pid then some (r, next) else keep_before r rest

-- What `exit_record_claim` returns, what it stores through `out_status` if anything, and what it
-- leaves.
pub record Claimed : Type 0 where
  pub result : ℕ
  pub out_status : Option ℕ
  pub head : List ExitRecord
  pub heap : Heap

-- `exit_record_claim`, with whether `out_status` is given.
pub exit_record_claim : List ExitRecord → ℕ → Bool → Heap → Option Claimed
exit_record_claim head pid wanted h = elim (unlink_loop head pid) [
  | none ↦ some (record { result = 0; out_status = none; head = head; heap = h })
  | some f ↦
      Option.map
        (λ t. record {
          result = 1;
          out_status = if wanted then some f.0.status else none;
          head = f.1;
          heap = t;
        })
        (kfree f.0.address h)
]
