-- ===== src/Cmdline/Flag.antt =====
-- kernel/core/cmdline.c, cmdline_has_flag.
use hydrogen_os.Prelude.{
  ℕ, zero, suc, ◌+◌, ◌-◌, ◌≤◌, ◌<◌, ◌≡◌, ◌∙◌, ◌⊎◌, refl, sym, subst, ap, true, false, ◌&&◌, ◌||◌,
  not, ltb, leb, ◌==◌, List, [], ◌∷◌, drop, length, length-drop, bit_and, arith, Bool-cases, inl,
  inr,
}
use hydrogen_os.Cmdline.{
  cmdline_at, skip_spaces, find_word_end, match_name, has_flag_loop, cmdline_has_flag, cmdline_cap,
  address_limit, BootLine, copy_text, cmdline_init,
}
use hydrogen_os.Cmdline.Words.{
  no_zero, behind_word, trim, is_named, named, cmdline_at-drop, no_zero-drop, drop-skip_spaces,
  find_word_end_lem, match_name_lem, named-trim, named-behind_word, named-empty, named_lem,
}

match_name-empty :
    (fuel : ℕ) (text : List ℕ) (start end : ℕ) → match_name fuel text [] start end 0 ≡ 0
unfolding match_name
match_name-empty zero text start end = refl
match_name-empty (suc fuel) text start end =
    let x : (ltb (start + 0) end
          && (not (cmdline_at [] 0 == 0) && (cmdline_at text (start + 0) == cmdline_at [] 0)))
        ≡ false =
      ground arith in
    rw x refl

length-trim : (cs : List ℕ) → length (trim cs) ≤ length cs
length-trim [] = omega arith
length-trim (c ∷ cs) = elim (Bool-cases (c == b' ')) [
  | inl x ↦ rw x (omega (arith, length-trim cs))
  | inr x ↦ rw x (omega arith)
]

length-behind_word : (cs : List ℕ) → length (behind_word cs) ≤ length cs
length-behind_word [] = omega arith
length-behind_word (c ∷ cs) = elim (Bool-cases (c == b' ')) [
  | inl x ↦ rw x (omega arith)
  | inr x ↦ rw x (omega (arith, length-behind_word cs))
]

-- Each round of the loop gets shorter.
shorter : (c : ℕ) (cs : List ℕ) → length (behind_word (trim (c ∷ cs))) ≤ length cs
shorter c cs = elim (Bool-cases (c == b' ')) [
  | inl x ↦ rw x (omega (arith, length-behind_word (trim cs), length-trim cs))
  | inr x ↦
      let e : behind_word (c ∷ cs) ≡ behind_word cs = rw x refl in
      rw x (subst (λ t. length t ≤ length cs) (sym e) (length-behind_word cs))
]

no_zero-trim : (cs : List ℕ) → no_zero cs ≡ true → no_zero (trim cs) ≡ true
no_zero-trim [] h = refl
no_zero-trim (c ∷ cs) h = elim (Bool-cases (c == b' ')) [
  | inl x ↦ rw x (no_zero-trim cs (ground (arith, h)))
  | inr x ↦ rw x h
]

has_flag_loop-empty : (fuel : ℕ) (text : List ℕ) (i : ℕ) → has_flag_loop fuel text [] i ≡ false
unfolding has_flag_loop
has_flag_loop-empty zero text i = refl
has_flag_loop-empty (suc fuel) text i =
    let start = skip_spaces (length text) text i in
    let end = find_word_end (length text) text start in
    let j = match_name-empty 0 text start end in
    let rest = has_flag_loop-empty fuel text end in ground (arith, j, rest)

first_byte :
    (name : List ℕ)
    → no_zero name ≡ true
    → (length name == 0) ≡ false
    → (cmdline_at name 0 == 0) ≡ false
first_byte [] y n = absurd (ground (arith, n))
first_byte (c ∷ name) y n = ground (arith, y)

empty_name : (name : List ℕ) → (length name == 0) ≡ true → name ≡ []
empty_name [] n = refl
empty_name (c ∷ name) n = absurd (ground (arith, n))

has_flag_loop_lem :
    (text name cs : List ℕ) (fuel i : ℕ)
    → no_zero text ≡ true
    → no_zero name ≡ true
    → (length name == 0) ≡ false
    → drop i text ≡ cs
    → length cs ≤ fuel
    → has_flag_loop fuel text name i ≡ named cs name
unfolding has_flag_loop
has_flag_loop_lem text name [] zero i z y n e h = sym (named-empty name n)
has_flag_loop_lem text name [] (suc fuel) i z y n e h =
    let b : cmdline_at text i ≡ 0 = cmdline_at-drop text i ∙ ap (λ t. cmdline_at t 0) e in
    let x : (cmdline_at text i == 0) ≡ true = ground (arith, b) in rw x (sym (named-empty name n))
has_flag_loop_lem text name (c ∷ cs) zero i z y n e h = absurd (omega (arith, h))
has_flag_loop_lem text name (c ∷ cs) (suc fuel) i z y n e h =
    let start = skip_spaces (length text) text i in
    let end = find_word_end (length text) text start in
    let j = match_name (length name) text name start end 0 in
    let size : length (c ∷ cs) ≤ length text =
      subst (λ t. length t ≤ length text) e (omega (arith, length-drop i text)) in
    let zeros = subst (λ t. no_zero t ≡ true) e (no_zero-drop text i z) in
    let here : cmdline_at text i ≡ c = cmdline_at-drop text i ∙ ap (λ t. cmdline_at t 0) e in
    let trimmed = drop-skip_spaces text (c ∷ cs) (length text) i e size in
    let (behind, ends) =
      find_word_end_lem text (trim (c ∷ cs)) (length text) start trimmed
        (omega (arith, size, length-trim (c ∷ cs))) (no_zero-trim (c ∷ cs) zeros) in
    let place : start + 0 ≡ start = omega arith in
    let (lo, found) =
      match_name_lem text name (trim (c ∷ cs)) name (length name) start end 0
        (ap (λ t. drop t text) place ∙ trimmed) refl (omega (arith, ends)) (omega arith) y in
    let rest =
      has_flag_loop_lem text name (behind_word (trim (c ∷ cs))) fuel end z y n behind
        (omega (arith, h, shorter c cs)) in
    let goes_on : (cmdline_at text i == 0) ≡ false = ground (arith, here, zeros) in
    let some_byte : (cmdline_at name 0 == 0) ≡ false = first_byte name y n in
    let trims = named-trim (c ∷ cs) name n in
    let splits = named-behind_word (trim (c ∷ cs)) name n in
    elim (Bool-cases (ltb 0 j)) [
      | inl x ↦ ground (arith, x, goes_on, found, rest, trims, splits)
      | inr x ↦
          let none : j ≡ 0 = ground (arith, x) in
          let not_end : (cmdline_at name j == 0) ≡ false =
            ap (λ t. cmdline_at name t == 0) none ∙ some_byte in
          ground (arith, x, goes_on, found, rest, trims, splits, not_end)
    ]

cmdline_has_flag_lem :
    (text name : List ℕ)
    → no_zero text ≡ true
    → no_zero name ≡ true
    → cmdline_has_flag text name ≡ is_named text name
unfolding cmdline_has_flag
cmdline_has_flag_lem text name z y = elim (Bool-cases (length name == 0)) [
  | inl n ↦ let e = empty_name name n in rw (e, has_flag_loop-empty (length text) text 0) refl
  | inr n ↦
      let found = has_flag_loop_lem text name text (length text) 0 z y n refl (omega arith) in
      rw (n, found, named_lem text name) refl
]

no_zero-copy_text : (n : ℕ) (memory : ℕ → ℕ) (addr : ℕ) → no_zero (copy_text n memory addr) ≡ true
unfolding copy_text
no_zero-copy_text zero memory addr = refl
no_zero-copy_text (suc n) memory addr = elim (Bool-cases (memory addr == 0)) [
  | inl e ↦ rw e refl
  | inr e ↦ rw e (ground (arith, e, no_zero-copy_text n memory (addr + 1)))
]

length-copy_text : (n : ℕ) (memory : ℕ → ℕ) (addr : ℕ) → length (copy_text n memory addr) ≤ n
unfolding copy_text
length-copy_text zero memory addr = omega arith
length-copy_text (suc n) memory addr = elim (Bool-cases (memory addr == 0)) [
  | inl e ↦ rw e (omega arith)
  | inr e ↦ rw e (omega (arith, length-copy_text n memory (addr + 1)))
]

cmdline_init_cases :
    (memory : ℕ → ℕ) (addr : ℕ) (mbi : BootLine)
    → (cmdline_init memory addr mbi ≡ [])
      ⊎ (cmdline_init memory addr mbi ≡ copy_text (cmdline_cap - 1) memory mbi.cmdline)
unfolding cmdline_init
cmdline_init_cases memory addr mbi =
    elim (Bool-cases (
      (addr == 0)
      || ((bit_and mbi.flags 4 == 0) || ((mbi.cmdline == 0) || leb address_limit mbi.cmdline)))) [
        | inl e ↦ rw e (inl refl)
        | inr e ↦ rw e (inr refl)
      ]

-- For any memory and boot record, the text that `cmdline_init` keeps is shorter than its buffer, and
-- `cmdline_has_flag` of a name without the byte 0 is true of this text just when the name is not empty
-- and is one of its words, which begin at its start or behind a blank and end at a blank or its end.
pub cmdline_has_flag-cmdline_init :
    (memory : ℕ → ℕ) (addr : ℕ) (mbi : BootLine) (name : List ℕ)
    → no_zero name ≡ true
    → (cmdline_has_flag (cmdline_init memory addr mbi) name
        ≡ is_named (cmdline_init memory addr mbi) name)
      × (length (cmdline_init memory addr mbi) < cmdline_cap)
cmdline_has_flag-cmdline_init memory addr mbi name y = elim (cmdline_init_cases memory addr mbi) [
  | inl e ↦ rw e (cmdline_has_flag_lem [] name refl y, omega arith)
  | inr e ↦
      let zeros = no_zero-copy_text (cmdline_cap - 1) memory mbi.cmdline in
      rw e (
        cmdline_has_flag_lem (copy_text (cmdline_cap - 1) memory mbi.cmdline) name zeros y,
        omega (arith, length-copy_text (cmdline_cap - 1) memory mbi.cmdline),
      )
]
