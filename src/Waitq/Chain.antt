-- ===== src/Waitq/Chain.antt =====
-- kernel/core/waitq.c: the list of entries that a queue stands for.
use hydrogen_os.Prelude.{
  ◌≡◌, refl, ◌≢◌, Bool, true, false, ◌||◌, ◌==◌, List, [], ◌∷◌, ◌++◌, arith, inl, inr, nat_cases,
}
use hydrogen_os.Waitq.{Ptr, null, Store}

abbrev pub elem : Ptr → List Ptr → Bool
elem a [] = false
elem a (e ∷ es) = (a == e) || elem a es

abbrev pub first : List Ptr → Ptr
first [] = null
first (e ∷ es) = e

-- The last entry, or `p` if there is none.
abbrev pub last_or : Ptr → List Ptr → Ptr
last_or p [] = p
last_or p (e ∷ es) = last_or e es

-- Entry `e` is linked in queue `q` between `p` and `n`.
pub record Between (s : Store) (q p e n : Ptr) : Type 0 where
  pub ne_null : e ≢ null
  pub prev : (s.entry_at e).prev ≡ p
  pub next : (s.entry_at e).next ≡ n
  pub queue : (s.entry_at e).queue ≡ q
  pub linked : (s.entry_at e).linked ≡ true

-- The distinct entries `es` are linked in queue `q` in this order, behind `p`.
abbrev pub Chain : Store → Ptr → Ptr → List Ptr → Type 0
Chain s q p [] = Unit {0}
Chain s q p (e ∷ es) = Between s q p e (first es) × (elem e es ≡ false) × Chain s q e es

-- Queue `q` holds exactly the entries `es`, oldest first.
pub record Holds (s : Store) (q : Ptr) (es : List Ptr) : Type 0 where
  pub head : (s.queue_at q).head ≡ first es
  pub tail : (s.queue_at q).tail ≡ last_or null es
  pub chain : Chain s q null es

-- The entries of a chain are not null, and belong to its queue.
pub Chain-queue :
    (s : Store) (q p : Ptr) (es : List Ptr) (a : Ptr)
    → Chain s q p es
    → elem a es ≡ true
    → ((s.entry_at a).queue ≡ q) × (a ≢ null) × ((s.entry_at a).linked ≡ true)
Chain-queue s q p [] a c m = cc
Chain-queue s q p (e ∷ es) a (b, out, c) m = elim (nat_cases a e) [
  | inl same ↦ rw same (b.queue, b.ne_null, b.linked)
  | inr ne ↦ Chain-queue s q e es a c (ground arith)
]

-- A chain survives any change that spares its entries.
pub Chain-frame :
    (s t : Store) (q p : Ptr) (es : List Ptr)
    → Chain s q p es
    → ((a : Ptr) → elem a es ≡ true → t.entry_at a ≡ s.entry_at a)
    → Chain t q p es
Chain-frame s t q p [] c same = tt
Chain-frame s t q p (e ∷ es) (b, out, c) same = (
  let at : t.entry_at e ≡ s.entry_at e = same e (ground arith) in
      record {
        ne_null = b.ne_null;
        prev = ground (arith, b.prev);
        next = ground (arith, b.next);
        queue = ground (arith, b.queue);
        linked = ground (arith, b.linked);
      },
  out,
  Chain-frame s t q e es c (λ a m. same a (ground arith)),
)

pub elem-append : (a : Ptr) (xs ys : List Ptr) → elem a (xs ++ ys) ≡ (elem a xs || elem a ys)
elem-append a [] ys = refl
elem-append a (x ∷ xs) ys = ground (arith, elem-append a xs ys)

pub last_or-mem : (p : Ptr) (x : Ptr) (xs : List Ptr) → elem (last_or x xs) (x ∷ xs) ≡ true
last_or-mem p x [] = ground arith
last_or-mem p x (y ∷ ys) = ground (arith, last_or-mem p y ys)

pub last_or-append : (p e : Ptr) (xs ys : List Ptr) → last_or p (xs ++ (e ∷ ys)) ≡ last_or e ys
last_or-append p e [] ys = refl
last_or-append p e (x ∷ xs) ys = last_or-append x e xs ys
