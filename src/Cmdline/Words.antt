-- ===== src/Cmdline/Words.antt =====
-- kernel/core/cmdline.c: the words of a text, and what the loops over its bytes do to the rest of it.
use hydrogen_os.Prelude.{
  ℕ, zero, suc, ◌+◌, ◌≤◌, ◌≡◌, ◌∙◌, refl, ap, Bool, true, false, ◌&&◌, ◌||◌, not, ltb, ◌==◌,
  if◌then◌else◌, List, [], ◌∷◌, drop, length, arith, Bool-cases, inl, inr,
}
use hydrogen_os.Cmdline.{cmdline_at, skip_spaces, find_word_end, match_name}

-- A text without the byte 0.
abbrev pub no_zero : List ℕ → Bool
no_zero [] = true
no_zero (c ∷ cs) = not (c == 0) && no_zero cs

-- The same bytes.
abbrev pub same : List ℕ → List ℕ → Bool
same [] [] = true
same [] (d ∷ ds) = false
same (c ∷ cs) [] = false
same (c ∷ cs) (d ∷ ds) = (c == d) && same cs ds

-- The bytes up to the first blank, and from there on.
abbrev pub word : List ℕ → List ℕ
word [] = []
word (c ∷ cs) = if c == b' ' then [] else c ∷ word cs

abbrev pub behind_word : List ℕ → List ℕ
behind_word [] = []
behind_word (c ∷ cs) = if c == b' ' then c ∷ cs else behind_word cs

abbrev pub trim : List ℕ → List ℕ
trim [] = []
trim (c ∷ cs) = if c == b' ' then trim cs else c ∷ cs

-- Some word that begins in the text is the name; a word begins at the first byte, or behind a blank.
abbrev pub named_behind : List ℕ → List ℕ → Bool
named_behind [] name = false
named_behind (c ∷ cs) name = ((c == b' ') && same (word cs) name) || named_behind cs name

abbrev pub is_named : List ℕ → List ℕ → Bool
is_named text name = not (length name == 0) && (same (word text) name || named_behind text name)

pub cmdline_at-drop : (text : List ℕ) (i : ℕ) → cmdline_at text i ≡ cmdline_at (drop i text) 0
cmdline_at-drop [] zero = refl
cmdline_at-drop [] (suc i) = refl
cmdline_at-drop (c ∷ text) zero = refl
cmdline_at-drop (c ∷ text) (suc i) = cmdline_at-drop text i

drop-suc : (text : List ℕ) (i : ℕ) → drop (suc i) text ≡ drop 1 (drop i text)
drop-suc [] zero = refl
drop-suc [] (suc i) = refl
drop-suc (c ∷ text) zero = refl
drop-suc (c ∷ text) (suc i) = drop-suc text i

drop-next : (text : List ℕ) (i : ℕ) → drop (i + 1) text ≡ drop 1 (drop i text)
drop-next text i = let e : i + 1 ≡ suc i = omega arith in ap (λ t. drop t text) e ∙ drop-suc text i

pub no_zero-drop : (text : List ℕ) (i : ℕ) → no_zero text ≡ true → no_zero (drop i text) ≡ true
no_zero-drop text zero h = h
no_zero-drop [] (suc i) h = refl
no_zero-drop (c ∷ text) (suc i) h = no_zero-drop text i (ground (arith, h))

-- Behind the loops stands the rest of the text without its blanks, or without its first word.
pub drop-skip_spaces :
    (text cs : List ℕ) (fuel i : ℕ)
    → drop i text ≡ cs
    → length cs ≤ fuel
    → drop (skip_spaces fuel text i) text ≡ trim cs
unfolding skip_spaces
drop-skip_spaces text [] zero i e h = e
drop-skip_spaces text (c ∷ cs) zero i e h = absurd (omega (arith, h))
drop-skip_spaces text [] (suc fuel) i e h =
    let b : cmdline_at text i ≡ 0 = cmdline_at-drop text i ∙ ap (λ t. cmdline_at t 0) e in
    let x : (cmdline_at text i == b' ') ≡ false = ground (arith, b) in rw x e
drop-skip_spaces text (c ∷ cs) (suc fuel) i e h =
    let b : cmdline_at text i ≡ c = cmdline_at-drop text i ∙ ap (λ t. cmdline_at t 0) e in
    elim (Bool-cases (c == b' ')) [
      | inl x ↦
          rw (b, x)
            (drop-skip_spaces text cs fuel (i + 1) (drop-next text i ∙ ap (λ t. drop 1 t) e)
              (omega (arith, h)))
      | inr x ↦ rw (b, x) e
    ]

pub find_word_end_lem :
    (text cs : List ℕ) (fuel i : ℕ)
    → drop i text ≡ cs
    → length cs ≤ fuel
    → no_zero cs ≡ true
    → (drop (find_word_end fuel text i) text ≡ behind_word cs)
      × (find_word_end fuel text i ≡ i + length (word cs))
unfolding find_word_end
find_word_end_lem text [] zero i e h z = (e, omega arith)
find_word_end_lem text (c ∷ cs) zero i e h z = absurd (omega (arith, h))
find_word_end_lem text [] (suc fuel) i e h z =
    let b : cmdline_at text i ≡ 0 = cmdline_at-drop text i ∙ ap (λ t. cmdline_at t 0) e in
    let x : (not (cmdline_at text i == 0) && not (cmdline_at text i == b' ')) ≡ false =
      ground (arith, b) in
    rw x (e, omega arith)
find_word_end_lem text (c ∷ cs) (suc fuel) i e h z =
    let b : cmdline_at text i ≡ c = cmdline_at-drop text i ∙ ap (λ t. cmdline_at t 0) e in
    elim (Bool-cases (c == b' ')) [
      | inl x ↦
          let y : (not (cmdline_at text i == 0) && not (cmdline_at text i == b' ')) ≡ false =
            ground (arith, b, x) in
          rw (y, x) (e, omega arith)
      | inr x ↦
          let y : (not (cmdline_at text i == 0) && not (cmdline_at text i == b' ')) ≡ true =
            ground (arith, b, x, z) in
          let (rest, size) =
            find_word_end_lem text cs fuel (i + 1) (drop-next text i ∙ ap (λ t. drop 1 t) e)
              (omega (arith, h)) (ground (arith, z)) in
          rw (y, x) (rest, omega (arith, size))
    ]

same-empty : (cs : List ℕ) → same cs [] ≡ (length cs == 0)
same-empty [] = refl
same-empty (c ∷ cs) = ground arith

-- The condition of the loop over a name.
abbrev goes_on : List ℕ → List ℕ → ℕ → ℕ → ℕ → Bool
goes_on text name start end j =
    ltb (start + j) end
    && (not (cmdline_at name j == 0) && (cmdline_at text (start + j) == cmdline_at name j))

-- The loop over a name, with what is left of the word and of the name.
pub match_name_lem :
    (text name cs ds : List ℕ) (fuel start end j : ℕ)
    → drop (start + j) text ≡ cs
    → drop j name ≡ ds
    → end ≡ start + j + length (word cs)
    → length ds ≤ fuel
    → no_zero ds ≡ true
    → (j ≤ match_name fuel text name start end j)
      × (((start + match_name fuel text name start end j == end)
            && (cmdline_at name (match_name fuel text name start end j) == 0))
          ≡ same (word cs) ds)
unfolding match_name
match_name_lem text name cs [] zero start end j e f g h z =
    let b : cmdline_at name j ≡ 0 = cmdline_at-drop name j ∙ ap (λ t. cmdline_at t 0) f in
    (omega arith, ground (arith, b, g, same-empty (word cs)))
match_name_lem text name cs (d ∷ ds) zero start end j e f g h z = absurd (omega (arith, h))
match_name_lem text name cs [] (suc fuel) start end j e f g h z =
    let b : cmdline_at name j ≡ 0 = cmdline_at-drop name j ∙ ap (λ t. cmdline_at t 0) f in
    let x : goes_on text name start end j ≡ false = ground (arith, b) in
    rw x (omega arith, ground (arith, b, g, same-empty (word cs)))
match_name_lem text name [] (d ∷ ds) (suc fuel) start end j e f g h z =
    let b : cmdline_at name j ≡ d = cmdline_at-drop name j ∙ ap (λ t. cmdline_at t 0) f in
    let x : goes_on text name start end j ≡ false = ground (arith, g) in
    rw x (omega arith, ground (arith, b, g, z))
match_name_lem text name (c ∷ cs) (d ∷ ds) (suc fuel) start end j e f g h z =
    let b : cmdline_at name j ≡ d = cmdline_at-drop name j ∙ ap (λ t. cmdline_at t 0) f in
    let a : cmdline_at text (start + j) ≡ c =
      cmdline_at-drop text (start + j) ∙ ap (λ t. cmdline_at t 0) e in
    elim (Bool-cases (c == b' ')) [
      | inl y ↦
          let w : word (c ∷ cs) ≡ [] = rw y refl in
          let at_end : end ≡ start + j = g ∙ ap (λ t. start + j + length t) w ∙ omega arith in
          let x : goes_on text name start end j ≡ false = ground (arith, at_end) in
          rw (x, w) (omega arith, ground (arith, b, at_end, z))
      | inr y ↦
          let w : word (c ∷ cs) ≡ c ∷ word cs = rw y refl in
          let more : end ≡ start + j + suc (length (word cs)) =
            g ∙ ap (λ t. start + j + length t) w in
          elim (Bool-cases (c == d)) [
            | inl k ↦
                let x : goes_on text name start end j ≡ true = ground (arith, more, a, b, k, z) in
                let place : start + (j + 1) ≡ start + j + 1 = omega arith in
                let (lo, rest) =
                  match_name_lem text name cs ds fuel start end (j + 1)
                    (ap (λ t. drop t text) place
                      ∙ drop-next text (start + j)
                      ∙ ap (λ t. drop 1 t) e)
                    (drop-next name j ∙ ap (λ t. drop 1 t) f) (omega (arith, more))
                    (omega (arith, h)) (ground (arith, z)) in
                rw (x, w, k) (omega (arith, lo), rest)
            | inr k ↦
                let x : goes_on text name start end j ≡ false = ground (arith, a, b, k) in
                rw (x, w, k) (omega arith, ground (arith, more))
          ]
    ]

-- The word at hand, or one behind a blank, is the name.
pub named : List ℕ → List ℕ → Bool
named cs name = same (word cs) name || named_behind cs name

pub named-trim :
    (cs name : List ℕ) → (length name == 0) ≡ false → named (trim cs) name ≡ named cs name
unfolding named
named-trim [] name n = refl
named-trim (c ∷ cs) [] n = absurd (ground (arith, n))
named-trim (c ∷ cs) (d ∷ ds) n = elim (Bool-cases (c == b' ')) [
  | inl x ↦ rw x (named-trim cs (d ∷ ds) n)
  | inr x ↦
      let e : trim (c ∷ cs) ≡ c ∷ cs = rw x refl in
      ap (λ t. same (word t) (d ∷ ds) || named_behind t (d ∷ ds)) e
]

named_behind-behind_word :
    (cs name : List ℕ) → named_behind (behind_word cs) name ≡ named_behind cs name
named_behind-behind_word [] name = refl
named_behind-behind_word (c ∷ cs) name = elim (Bool-cases (c == b' ')) [
  | inl x ↦ let e : behind_word (c ∷ cs) ≡ c ∷ cs = rw x refl in ap (λ t. named_behind t name) e
  | inr x ↦ rw x (named_behind-behind_word cs name)
]

word-behind_word : (cs : List ℕ) → word (behind_word cs) ≡ []
word-behind_word [] = refl
word-behind_word (c ∷ cs) = elim (Bool-cases (c == b' ')) [
  | inl x ↦
      let e : behind_word (c ∷ cs) ≡ c ∷ cs = rw x refl in
      let w : word (c ∷ cs) ≡ [] = rw x refl in ap word e ∙ w
  | inr x ↦ rw x (word-behind_word cs)
]

-- Past the word at hand, only this word is missed.
pub named-behind_word :
    (cs name : List ℕ)
    → (length name == 0) ≡ false
    → named cs name ≡ (same (word cs) name || named (behind_word cs) name)
unfolding named
named-behind_word cs [] n = absurd (ground (arith, n))
named-behind_word cs (d ∷ ds) n =
    let w = ap (λ t. same t (d ∷ ds)) (word-behind_word cs) in
    let b = named_behind-behind_word cs (d ∷ ds) in ground (arith, w, b)

pub named-empty : (name : List ℕ) → (length name == 0) ≡ false → named [] name ≡ false
unfolding named
named-empty [] n = absurd (ground (arith, n))
named-empty (d ∷ ds) n = refl

pub named_lem : (cs name : List ℕ) → named cs name ≡ (same (word cs) name || named_behind cs name)
unfolding named
named_lem cs name = refl
