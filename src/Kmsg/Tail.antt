-- ===== src/Kmsg/Tail.antt =====
-- kernel/core/kmsg.c, kmsg_copy_tail.
use hydrogen_os.Prelude.{
  ℕ, zero, suc, ◌+◌, ◌-◌, ◌%◌, ◌^◌, ◌≤◌, ◌<◌, ◌≡◌, ◌∙◌, ◌⊎◌, refl, sym, subst, ap, true, false, not,
  ◌&&◌, ◌||◌, ltb, leb, ◌==◌, if◌then◌else◌, some, List, [], ◌∷◌, drop, get_or, length, length-drop,
  arith, Bool-cases, inl, inr,
}
use hydrogen_os.Kmsg.{
  kmsg_capacity, Kmsg, cleared, oldest, walk_back, shown, copy_loop, kmsg_copy_tail,
}
use hydrogen_os.Kmsg.Log.{Holds, Holds-cleared, push_all, Holds-push_all}

-- The characters of the log as they are shown, without carriage returns.
abbrev pub clean : List ℕ → List ℕ
clean [] = []
clean (c ∷ cs) = if c == b'\r' then clean cs else shown c ∷ clean cs

-- The newlines that begin a line: those with something behind them.
abbrev pub breaks : List ℕ → ℕ
breaks [] = 0
breaks (c ∷ cs) = if (c == b'\n') && not (length cs == 0) then suc (breaks cs) else breaks cs

clean-return : (c : ℕ) (cs : List ℕ) → (c == b'\r') ≡ true → clean (c ∷ cs) ≡ clean cs
clean-return c cs e = rw e refl

clean-shown : (c : ℕ) (cs : List ℕ) → (c == b'\r') ≡ false → clean (c ∷ cs) ≡ shown c ∷ clean cs
clean-shown c cs e = rw e refl

empty_of_length : (cs : List ℕ) → length cs ≡ 0 → cs ≡ []
empty_of_length [] e = refl
empty_of_length (c ∷ cs) e = absurd (omega (arith, e))

breaks-le : (cs : List ℕ) → breaks cs ≤ length cs
breaks-le [] = omega arith
breaks-le (c ∷ cs) = ground (arith, breaks-le cs)

drop-get_or :
    (log : List ℕ) (i : ℕ) → i < length log → drop i log ≡ get_or log i 0 ∷ drop (suc i) log
drop-get_or [] i h = absurd (omega (arith, h))
drop-get_or (c ∷ log) zero h = refl
drop-get_or (c ∷ log) (suc i) h = drop-get_or log i (omega (arith, h))

drop-all : (log : List ℕ) (i : ℕ) → length log ≤ i → drop i log ≡ []
drop-all [] zero h = refl
drop-all [] (suc i) h = refl
drop-all (c ∷ log) zero h = absurd (omega (arith, h))
drop-all (c ∷ log) (suc i) h = drop-all log i (omega (arith, h))

-- Where the text starts that a buffer and a number of lines allow, 0 for any number: it fits, it has
-- no more lines, and one character more would not be kept, not fit or begin one line too many.
pub record Start (log : List ℕ) (first cap max_lines start : ℕ) : Type 0 where
  pub kept : first ≤ start
  pub inside : start ≤ length log
  pub room : length (clean (drop start log)) ≤ cap - 1
  pub lines : (max_lines ≡ 0) ⊎ (breaks (drop start log) < max_lines)
  pub full :
      (start ≡ first)
      ⊎ ((cap ≤ length (clean (drop start log)) + 2)
          ⊎ ((get_or log (start - 1) 0 ≡ b'\n') × (breaks (drop start log) + 1 ≡ max_lines)))

module _ (log : List ℕ) (k : Kmsg) (w : Holds log k) (cap max_lines : ℕ) where
  Start-walk_back :
      (n start lines bytes : ℕ)
      → n + oldest k ≡ start
      → start ≤ k.total
      → lines ≡ breaks (drop start log)
      → bytes ≡ length (clean (drop start log))
      → bytes ≤ cap - 1
      → (max_lines ≡ 0) ⊎ (lines < max_lines)
      → Start log (oldest k) cap max_lines (walk_back n k cap max_lines start lines bytes)
  unfolding walk_back
  Start-walk_back zero start lines bytes e h l b r m = record {
    kept = omega (arith, e);
    inside = omega (arith, h, w.counted);
    room = omega (arith, b, r);
    lines = subst (λ t. (max_lines ≡ 0) ⊎ (t < max_lines)) l m;
    full = inl (omega (arith, e));
  }
  Start-walk_back (suc n) start lines bytes e h l b r m =
      let c = k.ring ((start - 1) % kmsg_capacity) in
      let rest = drop start log in
      let here : c ≡ get_or log (start - 1) 0 =
        w.kept (start - 1) (omega (arith, e)) (omega (arith, e, h)) in
      let next : suc (start - 1) ≡ start = omega (arith, e) in
      let step : drop (start - 1) log ≡ c ∷ rest =
        drop-get_or log (start - 1) (omega (arith, e, h, w.counted))
        ∙ ap (λ t. get_or log (start - 1) 0 ∷ drop t log) next
        ∙ ap (λ t. t ∷ rest) (sym here) in
      let size = length-drop start log in
      let small : lines + 1 < 2 ^ 32 = omega (arith, l, breaks-le rest, size, e, w.counted) in
      let ends = (c == b'\n') && not (start == k.total) in
      let lines1 = if ends then (lines + 1) % 2 ^ 32 else lines in
      let bytes1 = if c == b'\r' then bytes else bytes + 1 in
      let next_lines : lines1 ≡ breaks (drop (start - 1) log) =
        ground (arith, ap breaks step, l, small, size, h, w.counted) in
      let next_bytes : bytes1 ≡ length (clean (drop (start - 1) log)) =
        ground (arith, ap (λ t. length (clean t)) step, b) in
      elim (Bool-cases ((ends && (lines1 == max_lines)) || leb (cap - 1) bytes1)) [
        | inl x ↦ rw x (record {
          kept = omega (arith, e);
          inside = omega (arith, h, w.counted);
          room = omega (arith, b, r);
          lines = subst (λ t. (max_lines ≡ 0) ⊎ (t < max_lines)) l m;
          full = inr elim (Bool-cases (ends && (lines1 == max_lines))) [
            | inl y ↦ inr (ground (arith, y, here), ground (arith, y, small, l))
            | inr y ↦ inl (ground (arith, x, y, b))
          ];
        })
        | inr x ↦ rw x (
            Start-walk_back n (start - 1) lines1 bytes1 (omega (arith, e)) (omega (arith, h))
              next_lines next_bytes (ground (arith, x))
              (elim m [ inl z ↦ inl z | inr y ↦ inr (ground (arith, x, y, small)) ]))
      ]

  clean-copy_loop :
      (n pos len : ℕ)
      → n + pos ≡ k.total
      → oldest k ≤ pos
      → len + length (clean (drop pos log)) ≤ cap - 1
      → copy_loop n k cap pos len ≡ clean (drop pos log)
  unfolding copy_loop
  clean-copy_loop zero pos len e o h =
      sym (ap clean (drop-all log pos (omega (arith, e, w.counted))))
  clean-copy_loop (suc n) pos len e o h =
      let c = k.ring (pos % kmsg_capacity) in
      let here : c ≡ get_or log pos 0 = w.kept pos o (omega (arith, e)) in
      let next : suc pos ≡ pos + 1 = omega arith in
      let step : drop pos log ≡ c ∷ drop (pos + 1) log =
        drop-get_or log pos (omega (arith, e, w.counted))
        ∙ ap (λ t. get_or log pos 0 ∷ drop t log) next
        ∙ ap (λ t. t ∷ drop (pos + 1) log) (sym here) in
      let room = subst (λ t. len + length (clean t) ≤ cap - 1) step h in
      elim (Bool-cases (c == b'\r')) [
        | inl x ↦
            let less : len + length (clean (drop (pos + 1) log)) ≤ cap - 1 =
              subst (λ t. t ≤ cap - 1)
                (ap (λ t. len + length t) (clean-return c (drop (pos + 1) log) x)) room in
            elim (Bool-cases (ltb len (cap - 1))) [
              | inl y ↦
                  rw (step, x, y)
                    (clean-copy_loop n (pos + 1) len (omega (arith, e)) (omega (arith, o)) less)
              | inr y ↦
                  rw (step, x, y)
                    (sym (empty_of_length (clean (drop (pos + 1) log)) (ground (arith, less, y))))
            ]
        | inr x ↦
            let less : len + suc (length (clean (drop (pos + 1) log))) ≤ cap - 1 =
              subst (λ t. t ≤ cap - 1)
                (ap (λ t. len + length t) (clean-shown c (drop (pos + 1) log) x)) room in
            let y : ltb len (cap - 1) ≡ true = ground (arith, less) in
            rw (step, x, y)
              (ap (λ t. shown c ∷ t)
                (clean-copy_loop n (pos + 1) (len + 1) (omega (arith, e)) (omega (arith, o))
                  (omega (arith, less))))
      ]

-- After any characters, less than 2^64, have been pushed on the empty ring, `kmsg_copy_tail` gives an
-- end of what the ring still holds, in order, without carriage returns and with control characters
-- shown as `?`. It fits in the buffer with its terminator and has at most `max_lines` lines, where 0
-- sets no limit; it begins with the oldest character held, or at a newline with one more line before
-- it than allowed, or where the text leaves at most one byte of the buffer unused.
pub kmsg_copy_tail_lem :
    (log : List ℕ) (cap max_lines : ℕ)
    → length log < 2 ^ 64
    → 0 < cap
    → (start : ℕ) × Start log (length log - kmsg_capacity) cap max_lines start
      × (kmsg_copy_tail cap max_lines (push_all log cleared) ≡ some (clean (drop start log)))
unfolding kmsg_copy_tail
kmsg_copy_tail_lem log cap max_lines h p =
    let k = push_all log cleared in
    let w = Holds-push_all [] log cleared (omega (arith, h)) Holds-cleared in
    let end = drop-all log k.total (omega (arith, w.counted)) in
    let any : (max_lines ≡ 0) ⊎ (0 < max_lines) = elim (Bool-cases (max_lines == 0)) [
      | inl e ↦ inl (ground (arith, e))
      | inr e ↦ inr (ground (arith, e))
    ] in
    let whole =
      Start-walk_back log k w cap max_lines (k.total - oldest k) k.total 0 0 (omega arith)
        (omega arith) (sym (ap breaks end)) (sym (ap (λ t. length (clean t)) end)) (omega arith)
        any in
    let start = walk_back (k.total - oldest k) k cap max_lines k.total 0 0 in
    let copied =
      clean-copy_loop log k w cap max_lines (k.total - start) start 0
        (omega (arith, whole.inside, w.counted)) whole.kept (omega (arith, whole.room)) in
    let some_room : (cap == 0) ≡ false = ground (arith, p) in
    (
      start,
      subst (λ t. Start log t cap max_lines start) (ap (λ t. t - kmsg_capacity) w.counted) whole,
      rw (some_room, copied) refl,
    )
