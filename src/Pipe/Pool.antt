-- ===== src/Pipe/Pool.antt =====
-- kernel/core/pipe.c: the pool's slots, the counts of a pipe's ends and the release of a slot.
use hydrogen_os.Prelude.{
  ℕ, zero, suc, ◌+◌, ◌<◌, ◌≡◌, refl, ◌≢◌, ap, true, false, List, [], ◌∷◌, arith, Bool-cases, inl,
  inr, Option, none, some, get_elem?, set, Option-cases,
}
use hydrogen_os.Waitq.{Store, queue_init}
use hydrogen_os.Waitq.Init.{queue_init-Holds, queue_init-keep}
use hydrogen_os.Waitq.Chain.{Holds}
use hydrogen_os.Pipe.{Pipe, PipeState, find_unused, create, fresh, put_pipe, reset, reset_queues}

-- What is searched for, the first unused slot, or the knowledge that there is none.
abbrev pub FirstUnused : List Pipe → ℕ → Option ℕ → Type 0
FirstUnused ps i none = (j : ℕ) (p : Pipe) → get_elem? ps j ≡ some p → p.used ≡ true
FirstUnused ps i (some k) =
    (j : ℕ) × (p : Pipe) × (k ≡ i + j)
    × (get_elem? ps j ≡ some p)
    × (p.used ≡ false)
    × ((m : ℕ) (q : Pipe) → m < j → get_elem? ps m ≡ some q → q.used ≡ true)

find_unused_lem : (ps : List Pipe) (i : ℕ) → FirstUnused ps i (find_unused ps i)
unfolding find_unused
find_unused_lem [] i = λ j p e. cc
find_unused_lem (x ∷ ps) i = elim (Bool-cases x.used) [
  | inl used ↦ simp used (shift (find_unused ps (i + 1)) used (find_unused_lem ps (i + 1)))
  | inr free ↦ simp free (0, x, omega arith, refl, free, λ m q lt e. absurd (omega arith))
]
  where
    shift : (o : Option ℕ) → x.used ≡ true → FirstUnused ps (i + 1) o → FirstUnused (x ∷ ps) i o
    shift none used all = elim [ zero ↦ (λ p e. ground arith) | suc j ↦ (λ p e. all j p e) ]
    shift (some k) used (j, p, at, here, free, before) = (
      suc j,
      p,
      omega arith,
      here,
      free,
      elim [ zero ↦ (λ q lt e. ground arith) | suc m ↦ (λ q lt e. before m q (omega arith) e) ],
    )

pub get_elem?-set_self :
    (ps : List Pipe) (i : ℕ) (p q : Pipe)
    → get_elem? ps i ≡ some q
    → get_elem? (set ps i p) i ≡ some p
get_elem?-set_self [] i p q e = cc
get_elem?-set_self (x ∷ ps) zero p q e = refl
get_elem?-set_self (x ∷ ps) (suc i) p q e = get_elem?-set_self ps i p q e

pub get_elem?-set_ne :
    (ps : List Pipe) (i j : ℕ) (p : Pipe) → i ≢ j → get_elem? (set ps i p) j ≡ get_elem? ps j
get_elem?-set_ne [] i j p ne = refl
get_elem?-set_ne (x ∷ ps) zero zero p ne = absurd (ne refl)
get_elem?-set_ne (x ∷ ps) zero (suc j) p ne = refl
get_elem?-set_ne (x ∷ ps) (suc i) zero p ne = refl
get_elem?-set_ne (x ∷ ps) (suc i) (suc j) p ne = get_elem?-set_ne ps i j p (λ e. ne (ap suc e))

-- The three queues of a pipe are empty.
pub record NoWaiters (p : Pipe) (s : Store) : Type 0 where
  pub read : Holds s p.read_waiters []
  pub write : Holds s p.write_waiters []
  pub poll : Holds s p.poll_waiters []

pub reset_queues-NoWaiters : (p : Pipe) (s : Store) → NoWaiters p (reset_queues p s)
unfolding reset_queues
reset_queues-NoWaiters p s =
    let r = queue_init-Holds s p.read_waiters in
    let w = queue_init-Holds (queue_init p.read_waiters s) p.write_waiters in
    record {
      read =
          queue_init-keep _ p.poll_waiters p.read_waiters
            (queue_init-keep _ p.write_waiters p.read_waiters r);
      write = queue_init-keep _ p.poll_waiters p.write_waiters w;
      poll = queue_init-Holds _ p.poll_waiters;
    }

-- An empty pipe with one reader and one writer, in the slot that held `p`.
pub record IsFresh (p q : Pipe) : Type 0 where
  pub used : q.used ≡ true
  pub readers : q.readers ≡ 1
  pub writers : q.writers ≡ 1
  pub read_pos : q.read_pos ≡ 0
  pub write_pos : q.write_pos ≡ 0
  pub size : q.size ≡ 0
  pub read_waiters : q.read_waiters ≡ p.read_waiters
  pub write_waiters : q.write_waiters ≡ p.write_waiters
  pub poll_waiters : q.poll_waiters ≡ p.poll_waiters

IsFresh-fresh : (p : Pipe) → IsFresh p (fresh p)
unfolding fresh reset
IsFresh-fresh p = ground arith

-- What `kernel_pipe_create` does: refuse, or take slot `i`.
abbrev pub Created : PipeState → Option ℕ × PipeState → Type 0
Created s (none, t) = (t ≡ s) × ((j : ℕ) (p : Pipe) → get_elem? s.pipes j ≡ some p → p.used ≡ true)
Created s (some i, t) =
    (p : Pipe) × (q : Pipe) × (get_elem? s.pipes i ≡ some p)
    × (p.used ≡ false)
    × (get_elem? t.pipes i ≡ some q)
    × IsFresh p q
    × ((j : ℕ) → i ≢ j → get_elem? t.pipes j ≡ get_elem? s.pipes j)
    × NoWaiters p t.store

create-none : (s : PipeState) → find_unused s.pipes 0 ≡ none → create s ≡ (none, s)
unfolding create
create-none s e = rw (e, create)

create-some :
    (s : PipeState) (k : ℕ) (p : Pipe)
    → find_unused s.pipes 0 ≡ some k
    → get_elem? s.pipes k ≡ some p
    → create s ≡ (some k, put_pipe k (fresh p, reset_queues p s.store) s)
unfolding create
create-some s k p e at = rw (e, create, at)

-- `kernel_pipe_create` takes a slot that is not in use, makes it an empty pipe with one reader, one
-- writer and no waiters, and leaves every other slot alone; it fails, changing nothing, only when
-- every slot is in use.
pub create-Created : (s : PipeState) → Created s (create s)
unfolding put_pipe
create-Created s = elim (Option-cases (find_unused s.pipes 0)) [
  | inl full ↦ rw (create-none s full) (refl, rw full at (find_unused_lem s.pipes 0))
  | inr (k, e) ↦
      let (j, p, same, here, free, before) = rw e at (find_unused_lem s.pipes 0) in
      let at : get_elem? s.pipes k ≡ some p = ground (arith, same, here) in
      rw (create-some s k p e at) (
        p,
        fresh p,
        at,
        free,
        get_elem?-set_self s.pipes k _ p at,
        IsFresh-fresh p,
        (λ j ne. get_elem?-set_ne s.pipes k j _ ne),
        reset_queues-NoWaiters p s.store,
      )
]
