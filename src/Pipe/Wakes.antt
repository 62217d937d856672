-- ===== src/Pipe/Wakes.antt =====
-- kernel/core/pipe.c: which waiters the transfers and the closing functions wake, and in what order.
use hydrogen_os.Prelude.{
  ℕ, ◌<◌, ◌≡◌, ◌≢◌, ◌∙◌, ap, sym, true, false, Bool, List, [], ◌∷◌, ◌++◌, length, if◌then◌else◌,
}
use mathlib.Core.List.{append_assoc, append-nil}
use hydrogen_os.Waitq.{Ptr, null, Store, wake_one, wake_all}
use hydrogen_os.Waitq.Chain.{Holds}
use hydrogen_os.Waitq.Member.{OthersKept}
use hydrogen_os.Waitq.Fifo.{wake_one_lem, wake_all_lem, wake_calls}
use hydrogen_os.Pipe.{wake_after}

-- The call of the oldest waiter's wake function, if there is a waiter, and those left behind it.
abbrev pub first_call : List Ptr → List (Ptr × Ptr)
first_call [] = []
first_call (e ∷ es) = (e, null) ∷ []

abbrev pub behind_first : List Ptr → List Ptr
behind_first [] = []
behind_first (e ∷ es) = es

-- Going from `s` to `t` queue `q` is left with `es`, no other queue changes, and the wake functions
-- `cs` are called.
pub record Effect (s t : Store) (q : Ptr) (es : List Ptr) (cs : List (Ptr × Ptr)) : Type 0 where
  pub holds : Holds t q es
  pub others : OthersKept s t q
  pub calls : t.calls ≡ s.calls ++ cs

pub wake_one-Effect :
    (s : Store) (q : Ptr) (es : List Ptr)
    → Holds s q es
    → Effect s (wake_one q null s).1 q (behind_first es) (first_call es)
wake_one-Effect s q [] h =
    rw (wake_one_lem s q null [] h)
      (record { holds = h; others = λ r fs ne k. k; calls = sym (append-nil s.calls) })
wake_one-Effect s q (e ∷ es) h =
    let w = (wake_one_lem s q null (e ∷ es) h).1 in
    record { holds = w.holds; others = w.others; calls = w.calls }

pub wake_all-Effect :
    (waiters : ℕ) (s : Store) (q : Ptr) (es : List Ptr)
    → Holds s q es
    → length es < waiters
    → Effect s (wake_all waiters q null s).1 q [] (wake_calls null es)
wake_all-Effect waiters s q es h enough =
    let w = wake_all_lem waiters s q null es h enough in
    record { holds = w.holds; others = w.others; calls = w.calls }

-- What the three queues of a pipe hold in a store.
pub record Queues (s : Store) (q1 q2 q3 : Ptr) (es1 es2 es3 : List Ptr) : Type 0 where
  pub first : Holds s q1 es1
  pub second : Holds s q2 es2
  pub third : Holds s q3 es3

pub record Apart (q1 q2 q3 : Ptr) : Type 0 where
  pub ne12 : q1 ≢ q2
  pub ne13 : q1 ≢ q3
  pub ne23 : q2 ≢ q3

module _ (waiters : ℕ) (s : Store) {other poll own : Ptr} {os ps ws : List Ptr}
    (apart : Apart other poll own) (k : Queues s other poll own os ps ws)
    (enough : length ps < waiters) where
  step1 : Effect s (wake_one other null s).1 other (behind_first os) (first_call os)
  step1 = wake_one-Effect s other os k.first

  step2 :
      Effect
        (wake_one other null s).1
        (wake_all waiters poll null (wake_one other null s).1).1
        poll
        []
        (wake_calls null ps)
  step2 =
      wake_all-Effect waiters _ poll ps (step1.others poll ps (λ e. apart.ne12 (sym e)) k.second)
        enough

  two_steps :
      Queues
        (wake_all waiters poll null (wake_one other null s).1).1
        other
        poll
        own
        (behind_first os)
        []
        ws
  two_steps = record {
    first = step2.others other (behind_first os) apart.ne12 step1.holds;
    second = step2.holds;
    third =
        step2.others own ws (λ e. apart.ne23 (sym e))
          (step1.others own ws (λ e. apart.ne13 (sym e)) k.third);
  }

  two_calls :
      (wake_all waiters poll null (wake_one other null s).1).1.calls
      ≡ s.calls ++ (first_call os ++ wake_calls null ps)
  two_calls =
      step2.calls
      ∙ ap (λ c. c ++ wake_calls null ps) step1.calls
      ∙ append_assoc s.calls (first_call os) (wake_calls null ps)

  -- After a transfer one waiter of the other side is woken, then every poller, then, if `more`, one
  -- of the own side: each the oldest of its queue, and nobody else.
  pub wake_after_lem :
      (more : Bool)
      → Queues
          (wake_after waiters other poll own more s)
          other
          poll
          own
          (behind_first os)
          []
          (if more then behind_first ws else ws)
        × ((wake_after waiters other poll own more s).calls
            ≡ s.calls
              ++ (first_call os ++ wake_calls null ps ++ (if more then first_call ws else [])))
  unfolding wake_after
  wake_after_lem false = (two_steps, two_calls ∙ ap (λ c. s.calls ++ c) (sym (append-nil _)))
  wake_after_lem true =
      let e = wake_one-Effect _ own ws two_steps.third in
      (
        record {
          first = e.others other (behind_first os) apart.ne13 two_steps.first;
          second = e.others poll [] apart.ne23 two_steps.second;
          third = e.holds;
        },
        e.calls ∙ ap (λ c. c ++ first_call ws) two_calls ∙ append_assoc s.calls _ _,
      )
