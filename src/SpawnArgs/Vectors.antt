-- ===== src/SpawnArgs/Vectors.antt =====
-- kernel/core/spawn_args.c, spawn_args_place: what it writes.
use hydrogen_os.Prelude.{
  ℕ, zero, suc, ◌+◌, ◌*◌, ◌%◌, ◌^◌, ◌≤◌, ◌<◌, ◌≡◌, ◌≢◌, refl, ◌∙◌, subst, Bool-cases, ltb, ◌==◌,
  ◌&&◌, not, List, [], ◌∷◌, ◌++◌, ◌⊎◌, inl, inr, arith,
}
use hydrogen_os.SpawnArgs.{
  SpawnArgs, Effect, write_byte, write_word, next_loop, spawn_args_next, copy_strings, vector_loop,
  place_writes,
}

-- A value is written at an address, as a byte or as a word.
pub data HasByte (a x : ℕ) : List Effect → Type 0 where
  byte_here : {b : ℕ} {es : List Effect} → b ≡ a → HasByte a x (write_byte b x ∷ es)
  byte_there : {e : Effect} {es : List Effect} → HasByte a x es → HasByte a x (e ∷ es)

pub data HasWord (a x : ℕ) : List Effect → Type 0 where
  word_here : {b : ℕ} {es : List Effect} → b ≡ a → HasWord a x (write_word b x ∷ es)
  word_there : {e : Effect} {es : List Effect} → HasWord a x es → HasWord a x (e ∷ es)

-- A string from one offset ends at another: at its first NUL, or where the packed bytes end.
pub record Ends (args : SpawnArgs) (off end : ℕ) : Type 0 where
  pub after : off ≤ end
  pub inside : (k : ℕ) → off ≤ k → k < end → (k < args.bytes) × (args.strings k ≢ 0)
  pub stop : (args.bytes ≤ end) ⊎ (args.strings end ≡ 0)

-- The offset, in 32 bits, of a string among the packed ones: the first is at 0, the next behind the
-- end of the one before.
pub data StringAt (args : SpawnArgs) : ℕ → ℕ → Type 0 where
  first : StringAt args 0 0
  next :
      {i off end : ℕ}
      → StringAt args i off
      → Ends args off end
      → StringAt args (i + 1) ((end + 1) % 2 ^ 32)

HasByte-append :
    {a x : ℕ} {es : List Effect} (fs : List Effect) → HasByte a x es → HasByte a x (es ++ fs)
HasByte-append fs (byte_here e) = byte_here e
HasByte-append fs (byte_there h) = byte_there (HasByte-append fs h)

HasWord-at : {a b x : ℕ} {es : List Effect} → b ≡ a → HasWord b x es → HasWord a x es
HasWord-at e (word_here d) = word_here (omega arith)
HasWord-at e (word_there h) = word_there (HasWord-at e h)

HasWord-append :
    {a x : ℕ} {es : List Effect} (fs : List Effect) → HasWord a x es → HasWord a x (es ++ fs)
HasWord-append fs (word_here e) = word_here e
HasWord-append fs (word_there h) = word_there (HasWord-append fs h)

HasWord-append_right :
    {a x : ℕ} (es : List Effect) {fs : List Effect} → HasWord a x fs → HasWord a x (es ++ fs)
HasWord-append_right [] h = h
HasWord-append_right (e ∷ es) h = word_there (HasWord-append_right es h)

module _ (args : SpawnArgs) where
  Ends-next_loop : (n off : ℕ) → args.bytes ≤ off + n → Ends args off (next_loop n args off)
  unfolding next_loop
  Ends-next_loop zero off h = record {
    after = omega arith;
    inside = λ k a b. absurd (omega arith);
    stop = inl (omega arith);
  }
  Ends-next_loop (suc n) off h =
      elim (Bool-cases (ltb off args.bytes && not (args.strings off == 0))) [
        | inr a ↦ rw a (record {
          after = omega arith;
          inside = λ k b c. absurd (omega arith);
          stop = ground (arith, a);
        })
        | inl a ↦
            let t = Ends-next_loop n (off + 1) (omega arith) in
            let here : (off < args.bytes) × (args.strings off ≢ 0) = ground (arith, a) in
            rw a (record {
              after = omega (arith, t.after);
              inside = λ k b c. elim (Bool-cases (k == off)) [
                | inl d ↦
                    let e : off ≡ k = ground (arith, d) in
                    subst (λ i. (i < args.bytes) × (args.strings i ≢ 0)) e here
                | inr d ↦ t.inside k (ground (arith, d, b)) c
              ];
              stop = t.stop;
            })
      ]

  StringAt-spawn_args_next :
      {i off : ℕ} → StringAt args i off → StringAt args (i + 1) (spawn_args_next args off)
  unfolding spawn_args_next
  StringAt-spawn_args_next {i} {off} s = next s (Ends-next_loop args.bytes off (omega arith))

  HasByte-copy_strings :
      (n strings i k : ℕ)
      → i ≤ k
      → k < i + n
      → HasByte (strings + k) (args.strings k) (copy_strings n args strings i)
  unfolding copy_strings
  HasByte-copy_strings zero strings i k a b = absurd (omega arith)
  HasByte-copy_strings (suc n) strings i k a b = elim (Bool-cases (i == k)) [
    | inl d ↦
        let e : i ≡ k = ground (arith, d) in
        subst (λ j. HasByte (strings + j) (args.strings j) (copy_strings (suc n) args strings i)) e
          (byte_here refl)
    | inr d ↦
        byte_there (HasByte-copy_strings n strings (i + 1) k (ground (arith, d, a)) (omega arith))
  ]

  StringAt-vector_loop :
      (n strings vector slot off j : ℕ)
      → StringAt args j off
      → StringAt args (j + n) (vector_loop n args strings vector slot off).2
  unfolding vector_loop
  StringAt-vector_loop zero strings vector slot off j s =
      let e : j ≡ j + 0 = omega arith in subst (λ t. StringAt args t off) e s
  StringAt-vector_loop (suc n) strings vector slot off j s =
      let e : j + 1 + n ≡ j + suc n = omega arith in
      subst
        (λ t.
          StringAt args t
            (vector_loop n args strings vector ((slot + 1) % 2 ^ 32) (spawn_args_next args off)).2)
        e
        (StringAt-vector_loop n strings vector ((slot + 1) % 2 ^ 32) (spawn_args_next args off)
          (j + 1) (StringAt-spawn_args_next s))

  pub vector_loop-slot :
      (n strings vector slot off : ℕ)
      → slot + n < 2 ^ 32
      → (vector_loop n args strings vector slot off).1 ≡ slot + n
  unfolding vector_loop
  vector_loop-slot zero strings vector slot off h = omega arith
  vector_loop-slot (suc n) strings vector slot off h =
      vector_loop-slot n strings vector ((slot + 1) % 2 ^ 32) (spawn_args_next args off)
        (omega arith)
      ∙ omega arith

  HasWord-vector_loop :
      (n strings vector slot off j d t : ℕ)
      → StringAt args j off
      → slot ≡ j + d
      → slot + n < 2 ^ 32
      → j ≤ t
      → t < j + n
      → (o : ℕ) × StringAt args t o
        × HasWord
            (vector + (t + d) * 8)
            ((strings + o) % 2 ^ 64)
            (vector_loop n args strings vector slot off).0
  unfolding vector_loop
  HasWord-vector_loop zero strings vector slot off j d t s e h a b = absurd (omega arith)
  HasWord-vector_loop (suc n) strings vector slot off j d t s e h a b = elim (Bool-cases (j == t)) [
    | inl c ↦
        let f : j ≡ t = ground (arith, c) in
        (off, subst (λ i. StringAt args i off) f s, word_here (omega arith))
    | inr c ↦
        let r =
          HasWord-vector_loop n strings vector ((slot + 1) % 2 ^ 32) (spawn_args_next args off)
            (j + 1) d t (StringAt-spawn_args_next s) (omega arith) (omega arith)
            (ground (arith, c, a)) (omega arith) in
        (r.0, r.1, word_there r.2)
  ]

-- What the writes leave from the address of the strings and of the vectors on: the bytes of the
-- strings, and two vectors of their addresses, each with a null behind its last.
pub record Contents (args : SpawnArgs) (strings vector : ℕ) (es : List Effect) : Type 0 where
  pub copied : (k : ℕ) → k < args.bytes → HasByte (strings + k) (args.strings k) es
  pub argv :
      (t : ℕ)
      → t < args.argc
      → (o : ℕ) × StringAt args t o × HasWord (vector + t * 8) ((strings + o) % 2 ^ 64) es
  pub argv_end : HasWord (vector + args.argc * 8) 0 es
  pub envp :
      (t : ℕ)
      → t < args.envc
      → (o : ℕ) × StringAt args (args.argc + t) o
        × HasWord (vector + (args.argc + 1 + t) * 8) ((strings + o) % 2 ^ 64) es
  pub envp_end : HasWord (vector + (args.argc + 1 + args.envc) * 8) 0 es

pub Contents-place_writes :
    (args : SpawnArgs) (strings vector : ℕ)
    → args.argc + args.envc ≤ 64
    → Contents args strings vector (place_writes args strings vector)
unfolding place_writes
Contents-place_writes args strings vector few =
    let argv = vector_loop args.argc args strings vector 0 0 in
    let start = (argv.1 + 1) % 2 ^ 32 in
    let envp = vector_loop args.envc args strings vector start argv.2 in
    let e : argv.1 ≡ 0 + args.argc =
      vector_loop-slot args args.argc strings vector 0 0 (omega arith) in
    let f : envp.1 ≡ start + args.envc =
      vector_loop-slot args args.envc strings vector start argv.2 (omega arith) in
    let copy = copy_strings args.bytes args strings 0 in
    let last : StringAt args (0 + args.argc) argv.2 =
      StringAt-vector_loop args args.argc strings vector 0 0 0 first in
    record {
      copied = λ k a.
          HasByte-append _
            (HasByte-copy_strings args args.bytes strings 0 k (omega arith) (omega arith));
      argv = λ t a.
          let r =
            HasWord-vector_loop args args.argc strings vector 0 0 0 0 t first (omega arith)
              (omega arith) (omega arith) (omega arith) in
          (r.0, r.1, HasWord-append_right copy (HasWord-append _ (HasWord-at (omega arith) r.2)));
      argv_end = HasWord-append_right copy (HasWord-append_right argv.0 (word_here (omega arith)));
      envp = λ t a.
          let r =
            HasWord-vector_loop args args.envc strings vector start argv.2 (0 + args.argc) 1
              (args.argc + t) last (omega arith) (omega arith) (omega arith) (omega arith) in
          (
            r.0,
            r.1,
            HasWord-append_right copy (
                HasWord-append_right argv.0
                  (word_there (HasWord-append _ (HasWord-at (omega arith) r.2)))),
          );
      envp_end = HasWord-append_right copy (
          HasWord-append_right argv.0
            (word_there (HasWord-append_right envp.0 (word_here (omega arith)))));
    }
