-- ===== src/Shell/Parser/Commands.antt =====
-- userspace/shell/parser.c, parse_command.
use hydrogen_os.Prelude.{
  ℕ, zero, suc, ◌+◌, ◌%◌, ◌^◌, ◌≤◌, ◌<◌, ◌≡◌, ◌∙◌, ◌⊎◌, refl, sym, subst, ap, inl, inr, true, false,
  ◌&&◌, not, ltb, leb, if◌then◌else◌, List, [], ◌∷◌, ◌++◌, length, length-append, arith, Bool-cases,
}
use mathlib.Core.List.{append_assoc, append-nil}
use hydrogen_os.Shell.{
  Run, ok, error, max_args, max_redirects, max_tokens, TokenType, token_word, token_pipe, token_and,
  token_or, token_background, token_sequence, token_redirect, token_end, Token,
}
use hydrogen_os.Shell.Parser.{
  ParseError, too_many_arguments, too_many_redirections, missing_target, missing_command, Redirect,
  Command, token_at, is_word, is_end, is_empty, parse_command,
}
use hydrogen_os.Shell.Parser.Grammar.{
  is_item, type_at, Items, no_item, word_item, redirect_item, IsCommand,
}

pub is_word-true : (t : TokenType) → is_word t ≡ true → t ≡ token_word
is_word-true token_word e = refl
is_word-true token_pipe e = absurd (ground (arith, e))
is_word-true token_and e = absurd (ground (arith, e))
is_word-true token_or e = absurd (ground (arith, e))
is_word-true token_background e = absurd (ground (arith, e))
is_word-true token_sequence e = absurd (ground (arith, e))
is_word-true token_redirect e = absurd (ground (arith, e))
is_word-true token_end e = absurd (ground (arith, e))

type_beyond : (tokens : List Token) (i : ℕ) → length tokens ≤ i → type_at tokens i ≡ token_end
type_beyond [] i h = refl
type_beyond (t ∷ ts) zero h = absurd (omega (arith, h))
type_beyond (t ∷ ts) (suc i) h = type_beyond ts i (omega (arith, h))

-- A token that is not an end token stands in the array.
pub inside_of_type :
    (tokens : List Token) (i : ℕ) → is_end (type_at tokens i) ≡ false → i < length tokens
inside_of_type tokens i e = elim (Bool-cases (ltb i (length tokens))) [
  | inl f ↦ ground (arith, f)
  | inr f ↦
      let end = ap is_end (type_beyond tokens i (ground (arith, f))) in
      absurd (ground (arith, e, end))
]

item_cases : (t : TokenType) → (is_item t ≡ false) ⊎ ((t ≡ token_word) ⊎ (t ≡ token_redirect))
item_cases token_word = inr (inl refl)
item_cases token_redirect = inr (inr refl)
item_cases token_pipe = inl refl
item_cases token_and = inl refl
item_cases token_or = inl refl
item_cases token_background = inl refl
item_cases token_sequence = inl refl
item_cases token_end = inl refl

-- At a token that is no item, the command ends.
parse_command-finished :
    (tokens : List Token) (fuel i : ℕ) (words : List ℕ) (redirects : List Redirect) (k : TokenType)
    → type_at tokens i ≡ k
    → is_item k ≡ false
    → parse_command (suc fuel) tokens i words redirects ≡ (
        if is_empty words && is_empty redirects
        then error missing_command
        else ok (record { words = words; redirects = redirects }, i))
unfolding parse_command
parse_command-finished tokens fuel i words redirects token_pipe e n = rw (parse_command, e) refl
parse_command-finished tokens fuel i words redirects token_and e n = rw (parse_command, e) refl
parse_command-finished tokens fuel i words redirects token_or e n = rw (parse_command, e) refl
parse_command-finished tokens fuel i words redirects token_background e n =
    rw (parse_command, e) refl
parse_command-finished tokens fuel i words redirects token_sequence e n = rw (parse_command, e) refl
parse_command-finished tokens fuel i words redirects token_end e n = rw (parse_command, e) refl
parse_command-finished tokens fuel i words redirects token_word e n = absurd (ground (arith, n))
parse_command-finished tokens fuel i words redirects token_redirect e n = absurd (ground (arith, n))

parse_command-word :
    (tokens : List Token) (fuel i : ℕ) (words : List ℕ) (redirects : List Redirect)
    → type_at tokens i ≡ token_word
    → parse_command (suc fuel) tokens i words redirects ≡ (
        if leb max_args (length words)
        then error too_many_arguments
        else parse_command fuel tokens (i + 1) (words ++ (i % 2 ^ 16 ∷ [])) redirects)
unfolding parse_command
parse_command-word tokens fuel i words redirects e = rw (parse_command, e) refl

abbrev redirect_at : List Token → ℕ → Redirect
redirect_at tokens i = record {
  kind = (token_at tokens i).redirect_kind;
  fd = (token_at tokens i).redirect_fd;
  target = (i + 1) % 2 ^ 16;
}

parse_command-redirect :
    (tokens : List Token) (fuel i : ℕ) (words : List ℕ) (redirects : List Redirect)
    → type_at tokens i ≡ token_redirect
    → parse_command (suc fuel) tokens i words redirects ≡ (
        if leb max_redirects (length redirects)
        then error too_many_redirections
        else if not (is_word (type_at tokens (i + 1)))
        then error missing_target
        else parse_command fuel tokens (i + 2) words (redirects ++ (redirect_at tokens i ∷ [])))
unfolding parse_command
parse_command-redirect tokens fuel i words redirects e = rw (parse_command, e) refl

module _ (tokens : List Token) (size : length tokens ≤ max_tokens) where
  -- What `parse_command` gives from a state on.
  Parsed : ℕ → List ℕ → List Redirect → Run ParseError (Command × ℕ) → Type 0
  Parsed i words redirects r =
      ((c : Command) × (j : ℕ) × (ws : List ℕ) × (rs : List Redirect) × (r ≡ ok (c, j))
        × Items tokens i ws rs j
        × (c.words ≡ words ++ ws)
        × (c.redirects ≡ redirects ++ rs)
        × ((is_empty c.words && is_empty c.redirects) ≡ false)
        × (length c.words ≤ max_args)
        × (length c.redirects ≤ max_redirects)
        × (i ≤ j)
        × (j ≤ length tokens))
      ⊎ ((e : ParseError) × (r ≡ error e))

  Parsed-finished :
      (i : ℕ) (words : List ℕ) (redirects : List Redirect)
      → is_item (type_at tokens i) ≡ false
      → i ≤ length tokens
      → length words ≤ max_args
      → length redirects ≤ max_redirects
      → Parsed i words redirects (
          if is_empty words && is_empty redirects
          then error missing_command
          else ok (record { words = words; redirects = redirects }, i))
  unfolding Parsed
  Parsed-finished i words redirects e h lw lr =
      elim (Bool-cases (is_empty words && is_empty redirects)) [
        | inl f ↦ rw f (inr (missing_command, refl))
        | inr f ↦ rw f (
            inl (
              record { words = words; redirects = redirects },
              i,
              [],
              [],
              refl,
              no_item i e,
              sym (append-nil words),
              sym (append-nil redirects),
              f,
              lw,
              lr,
              omega arith,
              h,
            ))
      ]

  Parsed-error :
      (i : ℕ) (words : List ℕ) (redirects : List Redirect) (e : ParseError)
      → Parsed i words redirects (error e)
  unfolding Parsed
  Parsed-error i words redirects e = inr (e, refl)

  Parsed-word :
      (i : ℕ) (words : List ℕ) (redirects : List Redirect) (r : Run ParseError (Command × ℕ))
      → type_at tokens i ≡ token_word
      → i < length tokens
      → Parsed (i + 1) (words ++ (i % 2 ^ 16 ∷ [])) redirects r
      → Parsed i words redirects r
  unfolding Parsed
  Parsed-word i words redirects r e h (inr x) = inr x
  Parsed-word i words redirects r e h (inl (c, j, ws, rs, q, items, w, d, n, lw, lr, l, u)) =
      let small : i % 2 ^ 16 ≡ i = omega (arith, h, size) in
      inl (
        c,
        j,
        i ∷ ws,
        rs,
        q,
        word_item i j ws rs e items,
        w ∙ append_assoc words (i % 2 ^ 16 ∷ []) ws ∙ ap (λ k. words ++ (k ∷ ws)) small,
        d,
        n,
        lw,
        lr,
        omega (arith, l),
        u,
      )

  Parsed-redirect :
      (i : ℕ) (words : List ℕ) (redirects : List Redirect) (t : Redirect)
      (r : Run ParseError (Command × ℕ))
      → type_at tokens i ≡ token_redirect
      → type_at tokens (i + 1) ≡ token_word
      → (t.kind ≡ (token_at tokens i).redirect_kind)
        × (t.fd ≡ (token_at tokens i).redirect_fd)
        × (t.target ≡ i + 1)
      → Parsed (i + 2) words (redirects ++ (t ∷ [])) r
      → Parsed i words redirects r
  unfolding Parsed
  Parsed-redirect i words redirects t r e f g (inr x) = inr x
  Parsed-redirect i words redirects t r e f g
        (inl (c, j, ws, rs, q, items, w, d, n, lw, lr, l, u)) =
      inl (
        c,
        j,
        ws,
        t ∷ rs,
        q,
        redirect_item i j t ws rs e f g items,
        w,
        d ∙ append_assoc redirects (t ∷ []) rs,
        n,
        lw,
        lr,
        omega (arith, l),
        u,
      )

  Parsed-parse_command :
      (fuel i : ℕ) (words : List ℕ) (redirects : List Redirect)
      → length tokens < fuel + i
      → i ≤ length tokens
      → length words ≤ max_args
      → length redirects ≤ max_redirects
      → Parsed i words redirects (parse_command fuel tokens i words redirects)
  Parsed-parse_command zero i words redirects f h lw lr = absurd (omega (arith, f, h))
  Parsed-parse_command (suc fuel) i words redirects f h lw lr =
      elim (item_cases (type_at tokens i)) [
        | inl e ↦
            rw (parse_command-finished tokens fuel i words redirects (type_at tokens i) refl e)
              (Parsed-finished i words redirects e h lw lr)
        | inr (inl e) ↦
            let inside = inside_of_type tokens i (ap is_end e) in
            let open_call = parse_command-word tokens fuel i words redirects e in
            elim (Bool-cases (leb max_args (length words))) [
              | inl g ↦ rw (open_call, g) (Parsed-error i words redirects too_many_arguments)
              | inr g ↦
                  rw (open_call, g)
                    (Parsed-word i words redirects _ e inside (
                      Parsed-parse_command fuel (i + 1) (words ++ (i % 2 ^ 16 ∷ [])) redirects
                        (omega (arith, f)) (omega (arith, inside))
                        (ground (arith, g, length-append words (i % 2 ^ 16 ∷ []))) lr))
            ]
        | inr (inr e) ↦
            let open_call = parse_command-redirect tokens fuel i words redirects e in
            elim (Bool-cases (leb max_redirects (length redirects))) [
              | inl g ↦ rw (open_call, g) (Parsed-error i words redirects too_many_redirections)
              | inr g ↦ elim (Bool-cases (is_word (type_at tokens (i + 1)))) [
                | inr k ↦ rw (open_call, g, k) (Parsed-error i words redirects missing_target)
                | inl k ↦
                    let word = is_word-true (type_at tokens (i + 1)) k in
                    let inside = inside_of_type tokens (i + 1) (ap is_end word) in
                    let t = redirect_at tokens i in
                    rw (open_call, g, k)
                      (Parsed-redirect i words redirects t _ e word
                        (refl, refl, omega (arith, inside, size))
                        (Parsed-parse_command fuel (i + 2) words (redirects ++ (t ∷ []))
                          (omega (arith, f)) (omega (arith, inside)) lw
                          (ground (arith, g, length-append redirects (t ∷ [])))))
              ]
            ]
      ]

  -- `parse_command` gives a command of the grammar, or an error.
  pub IsCommand-parse_command :
      (i : ℕ)
      → i ≤ length tokens
      → ((c : Command) × (j : ℕ) × (parse_command (length tokens + 1) tokens i [] [] ≡ ok (c, j))
          × IsCommand tokens i c j
          × (i ≤ j)
          × (j ≤ length tokens))
        ⊎ ((e : ParseError) × (parse_command (length tokens + 1) tokens i [] [] ≡ error e))
  unfolding Parsed
  IsCommand-parse_command i h =
      elim (Parsed-parse_command (length tokens + 1) i [] [] (omega arith) h (omega arith)
        (omega arith)) [
          | inr x ↦ inr x
          | inl (c, j, ws, rs, q, items, w, d, n, lw, lr, l, u) ↦
              let whole =
                subst (λ t. Items tokens i c.words t j) (sym d)
                  (subst (λ t. Items tokens i t rs j) (sym w) items) in
              inl (
                c,
                j,
                q,
                record { items = whole; nonempty = n; few_words = lw; few_redirects = lr },
                l,
                u,
              )
        ]
