-- ===== src/Shell/Lexer/Whole.antt =====
-- userspace/shell/lexer.c, scan_redirect and lexer_tokenize.
use hydrogen_os.Prelude.{
  ℕ, zero, suc, ◌+◌, ◌-◌, ◌%◌, ◌^◌, ◌≤◌, ◌<◌, ◌≡◌, ◌≢◌, ◌⊎◌, refl, sym, subst, inl, inr, true,
  false, ◌&&◌, ◌||◌, ltb, leb, ◌==◌, if◌then◌else◌, List, [], ◌∷◌, length, arith, Bool-cases,
}
use hydrogen_os.Shell.{
  Run, ok, error, line_max, max_tokens, token_word, token_pipe, token_and, token_or,
  token_background, token_sequence, Token,
}
use hydrogen_os.Shell.Lexer.{
  LexError, too_many_tokens, line_too_long, byte, is_blank, is_line_continuation, is_digit,
  ends_word, scan_redirect, plain, redirect, scan_token, skip_blanks, final, tokenize_loop,
  tokenize,
}
use hydrogen_os.Shell.Lexer.Text.{
  Starts, OpenWord, TokenAt, Failed, late_start, late_end, one_too_many, open_quote, behind_token,
  Skipped, Operator, Spelled, Word, Lexed, finish, token,
}
use hydrogen_os.Shell.Lexer.Scan.{inside_of_nonzero, scan_word_lem, Skipped-skip_blanks}

Operator-scan_redirect :
    (line : List ℕ) (pos : ℕ)
    → (byte line pos ≡ b'<') ⊎ (byte line pos ≡ b'>')
    → let t = scan_redirect line pos in
      (pos < t.1) × (t.1 ≤ length line) × Operator line t.0 pos (t.1 - pos)
unfolding scan_redirect
Operator-scan_redirect line pos h =
    let one = inside_of_nonzero line pos (ground (arith, h)) in
    let two : byte line (pos + 1) ≢ 0 → pos + 1 < length line = inside_of_nonzero line (pos + 1) in
    elim (Bool-cases (byte line pos == b'<')) [
      | inl e ↦ elim (Bool-cases (byte line (pos + 1) == b'&')) [
        | inl f ↦
            let last = two (ground (arith, f)) in
            rw (e, f) (omega arith, omega (arith, last), (h, ground (arith, f), omega arith))
        | inr f ↦
            rw (e, f)
              (omega arith, omega (arith, one), (ground (arith, e), ground (arith, f), omega arith))
      ]
      | inr e ↦
          let above : byte line pos ≡ b'>' = ground (arith, h, e) in
          elim (Bool-cases (byte line (pos + 1) == b'>')) [
            | inl f ↦
                let last = two (ground (arith, f)) in
                rw (e, f)
                  (omega arith, omega (arith, last), (above, ground (arith, f), omega arith))
            | inr f ↦ elim (Bool-cases (byte line (pos + 1) == b'&')) [
              | inl g ↦
                  let last = two (ground (arith, g)) in
                  rw (e, f, g)
                    (omega arith, omega (arith, last), (inr above, ground (arith, g), omega arith))
              | inr g ↦
                  rw (e, f, g)
                    (
                      omega arith,
                      omega (arith, one),
                      (above, ground (arith, f), ground (arith, g), omega arith),
                    )
            ]
          ]
    ]

-- What `scan_token` gives at a position where a token starts.
record Scanned (line : List ℕ) (pos : ℕ) (t : Token) (end : ℕ) : Type 0 where
  start : t.start ≡ pos % 2 ^ 16
  forward : pos < end
  inside : end ≤ length line
  spelled : Spelled line t.type t.redirect_kind t.redirect_fd pos (end - pos)

Scanned-redirect :
    (line : List ℕ) (pos : ℕ)
    → (byte line pos ≡ b'<') ⊎ (byte line pos ≡ b'>')
    → let t = scan_redirect line pos in
      Scanned line pos (redirect (if byte line pos == b'<' then 0 else 1) t.0 pos) t.1
Scanned-redirect line pos h =
    let (l, u, o) = Operator-scan_redirect line pos h in
    record { start = refl; forward = l; inside = u; spelled = inl (o, refl) }

Scanned-digit :
    (line : List ℕ) (pos : ℕ)
    → is_digit (byte line pos) ≡ true
    → (byte line (pos + 1) ≡ b'<') ⊎ (byte line (pos + 1) ≡ b'>')
    → let t = scan_redirect line (pos + 1) in
      Scanned line pos (redirect (byte line pos - b'0') t.0 pos) t.1
Scanned-digit line pos d h =
    let (l, u, o) = Operator-scan_redirect line (pos + 1) h in
    let t = scan_redirect line (pos + 1) in
    record {
      start = refl;
      forward = omega (arith, l);
      inside = u;
      spelled = inr (
        t.1 - (pos + 1),
        (ground (arith, d), ground (arith, d)),
        ground (arith, d),
        omega (arith, l),
        o,
      );
    }

scan_token_lem :
    (line : List ℕ) (pos : ℕ)
    → byte line pos ≢ 0
    → is_blank (byte line pos) ≡ false
    → ((t : Token) × (end : ℕ) × (scan_token line pos ≡ ok (t, end)) × Scanned line pos t end)
      ⊎ ((e : LexError) × (scan_token line pos ≡ error e) × OpenWord line pos e)
unfolding scan_token
scan_token_lem line pos nonzero solid =
    let c = byte line pos in
    let next = byte line (pos + 1) in
    let one = inside_of_nonzero line pos nonzero in
    let two : byte line (pos + 1) ≢ 0 → pos + 1 < length line = inside_of_nonzero line (pos + 1) in
    elim (Bool-cases (is_digit c && (next == b'<' || next == b'>'))) [
      | inl e ↦
          rw e (inl (_, _, refl, Scanned-digit line pos (ground (arith, e)) (ground (arith, e))))
      | inr e ↦ elim (Bool-cases (c == b'<' || c == b'>')) [
        | inl f ↦ rw (e, f) (inl (_, _, refl, Scanned-redirect line pos (ground (arith, f))))
        | inr f ↦ elim (Bool-cases (c == b'|')) [
          | inl g ↦ elim (Bool-cases (next == b'|')) [
            | inl k ↦
                rw (e, f, g, k)
                  (inl (
                    plain token_or pos,
                    pos + 2,
                    refl,
                    record {
                      start = refl;
                      forward = omega arith;
                      inside = omega (arith, two (ground (arith, k)));
                      spelled = (ground (arith, g), ground (arith, k), omega arith);
                    },
                  ))
            | inr k ↦
                rw (e, f, g, k)
                  (inl (
                    plain token_pipe pos,
                    pos + 1,
                    refl,
                    record {
                      start = refl;
                      forward = omega arith;
                      inside = omega (arith, one);
                      spelled = (ground (arith, g), ground (arith, k), omega arith);
                    },
                  ))
          ]
          | inr g ↦ elim (Bool-cases (c == b'&')) [
            | inl k ↦ elim (Bool-cases (next == b'&')) [
              | inl m ↦
                  rw (e, f, g, k, m)
                    (inl (
                      plain token_and pos,
                      pos + 2,
                      refl,
                      record {
                        start = refl;
                        forward = omega arith;
                        inside = omega (arith, two (ground (arith, m)));
                        spelled = (ground (arith, k), ground (arith, m), omega arith);
                      },
                    ))
              | inr m ↦
                  rw (e, f, g, k, m)
                    (inl (
                      plain token_background pos,
                      pos + 1,
                      refl,
                      record {
                        start = refl;
                        forward = omega arith;
                        inside = omega (arith, one);
                        spelled = (ground (arith, k), ground (arith, m), omega arith);
                      },
                    ))
            ]
            | inr k ↦ elim (Bool-cases (c == b';')) [
              | inl m ↦
                  rw (e, f, g, k, m)
                    (inl (
                      plain token_sequence pos,
                      pos + 1,
                      refl,
                      record {
                        start = refl;
                        forward = omega arith;
                        inside = omega (arith, one);
                        spelled = (ground (arith, m), omega arith);
                      },
                    ))
              | inr m ↦
                  let inner : ends_word c ≡ false = ground (arith, nonzero, solid, f, g, k, m) in
                  elim (scan_word_lem (length line + 1) line pos (omega arith)
                    (omega (arith, one))) [
                      | inr (x, s, o) ↦ rw (e, f, g, k, m, s) (inr (x, refl, o))
                      | inl (w, s, l, u, word, fwd) ↦
                          let lt = fwd inner in
                          rw (e, f, g, k, m, s)
                            (inl (
                              plain token_word pos,
                              w,
                              refl,
                              record {
                                start = refl;
                                forward = lt;
                                inside = u;
                                spelled = (
                                  λ x. absurd (ground (arith, e, x)),
                                  subst (λ q. Word line pos q) (omega (arith, lt)) word,
                                );
                              },
                            ))
                    ]
            ]
          ]
        ]
      ]
    ]

-- What the loop gives: the tokens from a position on, or an error.
pub Tokenized : List ℕ → ℕ → ℕ → Run LexError (List Token) → Type 0
Tokenized line pos count r =
    ((ts : List Token) × (r ≡ ok ts) × Lexed line pos ts × (length ts + count ≤ max_tokens))
    ⊎ ((e : LexError) × (r ≡ error e) × Failed line pos count e)

Starts-of_tests :
    (line : List ℕ) (p : ℕ)
    → (byte line p == 0 || byte line p == b'#') ≡ false
    → is_blank (byte line p) ≡ false
    → is_line_continuation line p ≡ false
    → Starts line p
Starts-of_tests line p e b c = (
  ground (arith, e),
  ground (arith, e),
  λ x. absurd (ground (arith, b, x)),
  λ x. absurd (ground (arith, c, x)),
)

TokenAt-Scanned :
    (line : List ℕ) (pos start end : ℕ) (t : Token)
    → Skipped line pos start
    → Starts line start
    → start < line_max
    → Scanned line start t end
    → TokenAt line pos start (end - start)
TokenAt-Scanned line pos start end t skipped starts early s = record {
  skipped = skipped;
  starts = starts;
  early = early;
  some_bytes = omega (arith, s.forward);
  type = t.type;
  kind = t.redirect_kind;
  fd = t.redirect_fd;
  spelled = s.spelled;
}

Lexed-final :
    (line : List ℕ) (pos start : ℕ)
    → Skipped line pos start
    → (byte line start ≡ 0) ⊎ (byte line start ≡ b'#')
    → Lexed line pos (final start ∷ [])
unfolding final
Lexed-final line pos start skipped stop =
    finish pos start (final start) skipped stop refl (ground arith) refl

Lexed-token :
    (line : List ℕ) (pos start end : ℕ) (t : Token) (ts : List Token)
    → Skipped line pos start
    → Starts line start
    → Scanned line start t end
    → start < line_max
    → end ≤ line_max
    → Lexed line end ts
    → Lexed line pos (record t { length = (end - start) % 2 ^ 16 } ∷ ts)
Lexed-token line pos start end t ts skipped starts s l u rest =
    let same_start : start ≡ t.start = omega (arith, s.start, l) in
    let n = (end - start) % 2 ^ 16 in
    let same_length : end - start ≡ n = omega (arith, u) in
    let same_end : end ≡ t.start + n = omega (arith, same_start, same_length, s.forward) in
    token pos (record t { length = n }) ts (subst (λ q. Skipped line pos q) same_start skipped)
      (subst (Starts line) same_start starts) (omega (arith, same_start, l))
      (subst (λ q. Spelled line t.type t.redirect_kind t.redirect_fd q n) same_start
        (subst (λ m. Spelled line t.type t.redirect_kind t.redirect_fd start m) same_length
          s.spelled))
      (omega (arith, same_length, s.forward)) (omega (arith, same_end, u))
      (subst (λ q. Lexed line q ts) same_end rest)

tokenize_loop_lem :
    (fuel : ℕ) (line : List ℕ) (pos count : ℕ)
    → length line < fuel + pos
    → pos ≤ length line
    → count < max_tokens
    → Tokenized line pos count (tokenize_loop fuel line pos count)
unfolding tokenize_loop Tokenized
tokenize_loop_lem zero line pos count f h few = absurd (omega (arith, f, h))
tokenize_loop_lem (suc fuel) line pos count f h few =
    let start = skip_blanks (length line) line pos in
    let (skipped, l, u, solid, apart) =
      Skipped-skip_blanks (length line) line pos (omega arith) h in
    let c = byte line start in
    elim (Bool-cases (c == 0 || c == b'#')) [
      | inl e ↦ rw e (
          inl (
            final start ∷ [],
            refl,
            Lexed-final line pos start skipped (ground (arith, e)),
            omega (arith, few),
          ))
      | inr e ↦
          let starts = Starts-of_tests line start e solid apart in
          elim (Bool-cases (leb line_max start)) [
            | inl g ↦
                rw (e, g)
                  (inr (
                    line_too_long,
                    refl,
                    late_start pos start count skipped starts (ground (arith, g)),
                  ))
            | inr g ↦ elim (scan_token_lem line start (ground (arith, e)) solid) [
              | inr (x, s, o) ↦
                  rw (e, g, s)
                    (inr
                      (x, refl, open_quote pos start count x skipped starts (ground (arith, g)) o))
              | inl (t, end, s, found) ↦
                  let here =
                    TokenAt-Scanned line pos start end t skipped starts (ground (arith, g)) found in
                  let back : start + (end - start) ≡ end = omega (arith, found.forward) in
                  elim (Bool-cases (ltb line_max end)) [
                    | inl k ↦
                        rw (e, g, s, k)
                          (inr (
                            line_too_long,
                            refl,
                            late_end pos start (end - start) count here (ground (arith, k, back)),
                          ))
                    | inr k ↦ elim (Bool-cases (leb (max_tokens - 1) count)) [
                      | inl m ↦
                          rw (e, g, s, k, m)
                            (inr (
                              too_many_tokens,
                              refl,
                              one_too_many pos start (end - start) count here
                                  (ground (arith, k, back)) (ground (arith, m)),
                            ))
                      | inr m ↦
                          let more =
                            tokenize_loop_lem fuel line end (count + 1)
                              (omega (arith, f, l, found.forward)) found.inside
                              (ground (arith, m)) in
                          elim more [
                            | inr (x, r, why) ↦
                                rw (e, g, s, k, m, r)
                                  (inr (
                                    x,
                                    refl,
                                    behind_token pos start (end - start) count x here
                                        (ground (arith, k, back))
                                        (subst (λ q. Failed line q (count + 1) x) (sym back) why),
                                  ))
                            | inl (ts, r, lexed, size) ↦
                                rw (e, g, s, k, m, r)
                                  (inl (
                                    _,
                                    refl,
                                    Lexed-token line pos start end t ts skipped starts found
                                        (ground (arith, g)) (ground (arith, k)) lexed,
                                    omega (arith, size),
                                  ))
                          ]
                    ]
                  ]
            ]
          ]
    ]

-- `lexer_tokenize` ends on every line, with tokens or with an error, and each has its reason. The
-- tokens, 128 at most, stand in the line in their order: what stands between them is blank or joins
-- lines, each of them is a token of its type by its text and ends within the first 1024 bytes, and the
-- last one marks the end of the line or a comment. An error comes behind tokens that are fine, at a
-- token that starts or ends behind the first 1024 bytes, at one that leaves no room for the last, or
-- at a word with a quote that is not closed.
pub tokenize_lem : (line : List ℕ) → Tokenized line 0 0 (tokenize line)
unfolding tokenize
tokenize_lem line =
    tokenize_loop_lem (length line + 1) line 0 0 (omega arith) (omega arith) (omega arith)
