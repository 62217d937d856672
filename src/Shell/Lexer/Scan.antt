-- ===== src/Shell/Lexer/Scan.antt =====
-- userspace/shell/lexer.c: the scanning loops stop in time, where they should.
use hydrogen_os.Prelude.{
  ℕ, zero, suc, ◌+◌, ◌≤◌, ◌<◌, ◌≡◌, ◌≢◌, ◌⊎◌, refl, subst, inl, inr, true, false, ◌&&◌, ◌||◌, not,
  ltb, ◌==◌, List, [], ◌∷◌, length, arith, Bool-cases, nat_cases,
}
use hydrogen_os.Shell.{ok, error}
use hydrogen_os.Shell.Lexer.{
  LexError, unterminated_single, unterminated_double, byte, is_blank, is_line_continuation,
  ends_word, single_end, double_end, word_step, scan_word, skip_blanks,
}
use hydrogen_os.Shell.Lexer.Text.{
  Skipped, stay, blank, continued, Quoted, close, quoted_byte, quoted_pair, Piece, bare, escaped,
  last_backslash, single_quoted, double_quoted, Word, word_end, word_piece, EndsWord, OpenWord,
  open_single, open_double, open_later,
}

byte-end : (line : List ℕ) (i : ℕ) → length line ≤ i → byte line i ≡ 0
byte-end [] i h = refl
byte-end (x ∷ line) zero h = absurd (omega (arith, h))
byte-end (x ∷ line) (suc i) h = byte-end line i (omega (arith, h))

pub inside_of_nonzero : (line : List ℕ) (i : ℕ) → byte line i ≢ 0 → i < length line
inside_of_nonzero line i h = elim (Bool-cases (ltb i (length line))) [
  | inl e ↦ ground (arith, e)
  | inr e ↦ absurd (h (byte-end line i (ground (arith, e))))
]

single_end_lem :
    (fuel : ℕ) (line : List ℕ) (i : ℕ)
    → length line ≤ fuel + i
    → let e = single_end fuel line i in
      (i ≤ e)
      × ((byte line e ≡ 0) ⊎ (byte line e ≡ b'\''))
      × ((k : ℕ) → i ≤ k → k < e → (byte line k ≢ b'\'') × (byte line k ≢ 0))
unfolding single_end
single_end_lem zero line i f =
    (omega arith, inl (byte-end line i (omega (arith, f))), λ k l u. absurd (omega (arith, l, u)))
single_end_lem (suc fuel) line i f = elim (Bool-cases (byte line i == 0 || byte line i == b'\'')) [
  | inl e ↦ rw e (omega arith, ground (arith, e), λ k l u. absurd (omega (arith, l, u)))
  | inr e ↦
      let (l1, stop, clear) = single_end_lem fuel line (i + 1) (omega (arith, f)) in
      rw e (
        omega (arith, l1),
        stop,
        λ k l u. elim (nat_cases i k) [
          | inl g ↦
              subst (λ t. (byte line t ≢ b'\'') × (byte line t ≢ 0)) g
                (ground (arith, e), ground (arith, e))
          | inr g ↦ clear k (omega (arith, g, l)) u
        ],
      )
]

double_end_lem :
    (fuel : ℕ) (line : List ℕ) (i : ℕ)
    → length line ≤ fuel + i
    → let e = double_end fuel line i in
      ((byte line e ≡ 0) ⊎ (byte line e ≡ b'"')) × (i ≤ e) × Quoted line i e
unfolding double_end
double_end_lem zero line i f = (inl (byte-end line i (omega (arith, f))), omega arith, close i)
double_end_lem (suc fuel) line i f = elim (Bool-cases (byte line i == 0 || byte line i == b'"')) [
  | inl e ↦ rw e (ground (arith, e), omega arith, close i)
  | inr e ↦ elim (Bool-cases (byte line i == b'\\' && not (byte line (i + 1) == 0))) [
    | inl g ↦
        let (stop, l1, q) = double_end_lem fuel line (i + 2) (omega (arith, f)) in
        rw (e, g)
          (stop, omega (arith, l1), quoted_pair i _ (ground (arith, g)) (ground (arith, g)) q)
    | inr g ↦
        let (stop, l1, q) = double_end_lem fuel line (i + 1) (omega (arith, f)) in
        rw (e, g)
          (
            stop,
            omega (arith, l1),
            quoted_byte i _ (ground (arith, e)) (ground (arith, e)) (ground (arith, g)) q,
          )
  ]
]

pub EndsWord-ends_word : (c : ℕ) → ends_word c ≡ true → EndsWord c
EndsWord-ends_word c e = ground (arith, e)

pub ends_word-false : (c : ℕ) → ends_word c ≡ false → ¬ EndsWord c
ends_word-false c e = λ x. absurd (ground (arith, e, x))

-- A round either goes forward inside the line by one piece, or fails.
word_step_lem :
    (line : List ℕ) (i : ℕ)
    → ends_word (byte line i) ≡ false
    → ((j : ℕ) × (word_step line i ≡ ok j) × (i < j) × (j ≤ length line) × Piece line i j)
      ⊎ ((e : LexError) × (word_step line i ≡ error e) × OpenWord line i e)
unfolding word_step
word_step_lem line i h =
    let n = length line in
    let s = single_end n line (i + 1) in
    let d = double_end n line (i + 1) in
    let here = inside_of_nonzero line i (ground (arith, h)) in
    elim (Bool-cases (byte line i == b'\\')) [
      | inl e ↦ elim (Bool-cases (byte line (i + 1) == 0)) [
        | inl f ↦
            rw (e, f)
              (inl (
                i + 1,
                refl,
                omega arith,
                omega (arith, here),
                last_backslash i (ground (arith, e)) (ground (arith, f)),
              ))
        | inr f ↦
            let next : byte line (i + 1) ≢ 0 = ground (arith, f) in
            rw (e, f)
              (inl (
                i + 2,
                refl,
                omega arith,
                omega (arith, inside_of_nonzero line (i + 1) next),
                escaped i (ground (arith, e)) next,
              ))
      ]
      | inr e ↦ elim (Bool-cases (byte line i == b'\'')) [
        | inl f ↦
            let (l1, stop, clear) = single_end_lem n line (i + 1) (omega arith) in
            elim (Bool-cases (byte line s == 0)) [
              | inl g ↦
                  rw (e, f, g)
                    (inr (
                      unterminated_single,
                      refl,
                      open_single i s (ground (arith, f)) (ground (arith, g)) (omega (arith, l1))
                          (λ k l u. clear k (omega (arith, l)) u),
                    ))
              | inr g ↦
                  rw (e, f, g)
                    (inl (
                      s + 1,
                      refl,
                      omega (arith, l1),
                      omega (arith, inside_of_nonzero line s (ground (arith, g))),
                      single_quoted i s (ground (arith, f)) (ground (arith, stop, g))
                          (omega (arith, l1)) (λ k l u. clear k (omega (arith, l)) u),
                    ))
            ]
        | inr f ↦ elim (Bool-cases (byte line i == b'"')) [
          | inl g ↦
              let (stop, l1, q) = double_end_lem n line (i + 1) (omega arith) in
              elim (Bool-cases (byte line d == 0)) [
                | inl k ↦
                    rw (e, f, g, k)
                      (inr (
                        unterminated_double,
                        refl,
                        open_double i d (ground (arith, g)) (ground (arith, k)) q,
                      ))
                | inr k ↦
                    rw (e, f, g, k)
                      (inl (
                        d + 1,
                        refl,
                        omega (arith, l1),
                        omega (arith, inside_of_nonzero line d (ground (arith, k))),
                        double_quoted i d (ground (arith, g)) (ground (arith, stop, k)) q,
                      ))
              ]
          | inr g ↦
              rw (e, f, g)
                (inl (
                  i + 1,
                  refl,
                  omega arith,
                  omega (arith, here),
                  bare i (ground (arith, e)) (ground (arith, f)) (ground (arith, g)),
                ))
        ]
      ]
    ]

-- A word ends inside the line at a byte that ends words, or its scan fails; the fuel lasts.
pub scan_word_lem :
    (fuel : ℕ) (line : List ℕ) (i : ℕ)
    → length line < fuel + i
    → i ≤ length line
    → ((e : ℕ) × (scan_word fuel line i ≡ ok e)
        × (i ≤ e)
        × (e ≤ length line)
        × Word line i e
        × (ends_word (byte line i) ≡ false → i < e))
      ⊎ ((e : LexError) × (scan_word fuel line i ≡ error e) × OpenWord line i e)
unfolding scan_word
scan_word_lem zero line i f h = absurd (omega (arith, f, h))
scan_word_lem (suc fuel) line i f h = elim (Bool-cases (ends_word (byte line i))) [
  | inl e ↦ rw e (
      inl (
        i,
        refl,
        omega arith,
        h,
        word_end i (EndsWord-ends_word (byte line i) e),
        λ g. ground (arith, e, g),
      ))
  | inr e ↦ elim (word_step_lem line i e) [
    | inr (x, s, o) ↦ rw (e, s) (inr (x, refl, o))
    | inl (j, s, lt, le, piece) ↦ elim (scan_word_lem fuel line j (omega (arith, f, lt)) le) [
      | inr (x, t, o) ↦
          rw (e, s, t) (inr (x, refl, open_later i j x (ends_word-false (byte line i) e) piece o))
      | inl (k, t, l1, l2, rest, _) ↦
          rw (e, s, t)
            (inl (
              k,
              refl,
              omega (arith, lt, l1),
              l2,
              word_piece i j k (ends_word-false (byte line i) e) piece rest,
              λ g. omega (arith, lt, l1),
            ))
    ]
  ]
]

-- What the inner loop passes is blank, and it stops at the next token, inside the line.
pub Skipped-skip_blanks :
    (fuel : ℕ) (line : List ℕ) (pos : ℕ)
    → length line ≤ fuel + pos
    → pos ≤ length line
    → Skipped line pos (skip_blanks fuel line pos)
      × (pos ≤ skip_blanks fuel line pos)
      × (skip_blanks fuel line pos ≤ length line)
      × (is_blank (byte line (skip_blanks fuel line pos)) ≡ false)
      × (is_line_continuation line (skip_blanks fuel line pos) ≡ false)
unfolding skip_blanks
Skipped-skip_blanks zero line pos f h =
    let end = byte-end line pos (omega (arith, f)) in
    (stay pos, omega arith, h, ground (arith, end), ground (arith, end))
Skipped-skip_blanks (suc fuel) line pos f h = elim (Bool-cases (is_blank (byte line pos))) [
  | inl e ↦
      let inside = inside_of_nonzero line pos (ground (arith, e)) in
      let (s, l, u, b, c) =
        Skipped-skip_blanks fuel line (pos + 1) (omega (arith, f)) (omega (arith, inside)) in
      rw e (blank pos _ (ground (arith, e)) s, omega (arith, l), u, b, c)
  | inr e ↦ elim (Bool-cases (is_line_continuation line pos)) [
    | inl g ↦
        let inside = inside_of_nonzero line (pos + 1) (ground (arith, g)) in
        let (s, l, u, b, c) =
          Skipped-skip_blanks fuel line (pos + 2) (omega (arith, f)) (omega (arith, inside)) in
        rw (e, g)
          (continued pos _ (ground (arith, g), ground (arith, g)) s, omega (arith, l), u, b, c)
    | inr g ↦ rw (e, g) (stay pos, omega arith, h, e, g)
  ]
]
