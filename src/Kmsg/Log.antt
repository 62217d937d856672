-- ===== src/Kmsg/Log.antt =====
-- kernel/core/kmsg.c: the ring as the end of the list of all characters pushed.
use hydrogen_os.Prelude.{
  ℕ, zero, suc, ◌+◌, ◌%◌, ◌^◌, ◌≤◌, ◌<◌, ◌≡◌, ◌∙◌, refl, sym, subst, ap, true, false, ◌==◌, List,
  [], ◌∷◌, ◌++◌, get_or, length, length-append, arith, Bool-cases, inl, inr,
}
use mathlib.Core.List.{append_assoc, append-nil}
use hydrogen_os.Kmsg.{kmsg_capacity, Kmsg, cleared, kmsg_push, oldest}

pub record Holds (log : List ℕ) (k : Kmsg) : Type 0 where
  pub counted : k.total ≡ length log
  pub kept : (i : ℕ) → oldest k ≤ i → i < k.total → k.ring (i % kmsg_capacity) ≡ get_or log i 0

get_or-before :
    (log : List ℕ) (c i : ℕ) → i < length log → get_or (log ++ (c ∷ [])) i 0 ≡ get_or log i 0
get_or-before [] c i h = absurd (omega (arith, h))
get_or-before (d ∷ log) c zero h = refl
get_or-before (d ∷ log) c (suc i) h = get_or-before log c i (omega (arith, h))

get_or-behind : (log : List ℕ) (c : ℕ) → get_or (log ++ (c ∷ [])) (length log) 0 ≡ c
get_or-behind [] c = refl
get_or-behind (d ∷ log) c = get_or-behind log c

pub Holds-cleared : Holds [] cleared
Holds-cleared = record { counted = refl; kept = λ i h l. absurd (omega (arith, l)) }

pub Holds-kmsg_push :
    (log : List ℕ) (k : Kmsg) (c : ℕ)
    → length log + 1 < 2 ^ 64
    → Holds log k
    → Holds (log ++ (c ∷ [])) (kmsg_push c k)
unfolding kmsg_push
Holds-kmsg_push log k c h w =
    let total : (k.total + 1) % 2 ^ 64 ≡ k.total + 1 = omega (arith, h, w.counted) in
    let size = length-append log (c ∷ []) in
    record {
      counted = total ∙ omega (arith, size, w.counted);
      kept = λ i lo hi.
          let hi1 : i < k.total + 1 = omega (arith, hi, total) in
          let lo1 : k.total + 1 ≤ i + kmsg_capacity = omega (arith, lo, total) in
          elim (Bool-cases (i == k.total)) [
            | inl e ↦
                let same : i ≡ k.total = ground (arith, e) in
                let here : (i % kmsg_capacity == k.total % kmsg_capacity) ≡ true =
                  ground (arith, same) in
                rw here (
                  sym (
                    ap (λ t. get_or (log ++ (c ∷ [])) t 0) (same ∙ w.counted)
                    ∙ get_or-behind log c))
            | inr e ↦
                let below : i < k.total = ground (arith, e, hi1) in
                let other : (i % kmsg_capacity == k.total % kmsg_capacity) ≡ false =
                  ground (arith, below, lo1) in
                rw other (
                  w.kept i (omega (arith, lo1)) below
                  ∙ sym (get_or-before log c i (omega (arith, below, w.counted))))
          ];
    }

-- The ring after a list of characters has been pushed.
abbrev pub push_all : List ℕ → Kmsg → Kmsg
push_all [] k = k
push_all (c ∷ cs) k = push_all cs (kmsg_push c k)

pub Holds-push_all :
    (seen log : List ℕ) (k : Kmsg)
    → length seen + length log < 2 ^ 64
    → Holds seen k
    → Holds (seen ++ log) (push_all log k)
Holds-push_all seen [] k h w = subst (λ t. Holds t k) (sym (append-nil seen)) w
Holds-push_all seen (c ∷ cs) k h w =
    subst (λ t. Holds t (push_all cs (kmsg_push c k))) (append_assoc seen (c ∷ []) cs)
      (Holds-push_all (seen ++ (c ∷ [])) cs (kmsg_push c k)
        (omega (arith, h, length-append seen (c ∷ [])))
        (Holds-kmsg_push seen k c (omega (arith, h)) w))
