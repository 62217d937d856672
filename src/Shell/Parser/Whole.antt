-- ===== src/Shell/Parser/Whole.antt =====
-- userspace/shell/parser.c, parser_parse.
use hydrogen_os.Prelude.{
  ℕ, zero, suc, ◌+◌, ◌≤◌, ◌<◌, ◌≡◌, ◌∙◌, ◌⊎◌, refl, sym, subst, ap, inl, inr, true, false, leb,
  if◌then◌else◌, List, [], ◌∷◌, ◌++◌, length, length-append, arith, Bool-cases,
}
use mathlib.Core.List.{append_assoc, append-nil}
use hydrogen_os.Shell.{
  Run, ok, error, max_pipelines, max_tokens, TokenType, token_word, token_pipe, token_and, token_or,
  token_background, token_sequence, token_redirect, token_end, Token,
}
use hydrogen_os.Shell.Parser.{
  ParseError, too_many_commands, unexpected_operator, unexpected_end, Connector, connect_always,
  connect_if_success, connect_if_failure, Pipeline, is_end, after_pipeline, parse_loop, parse,
}
use hydrogen_os.Shell.Parser.Grammar.{
  type_at, IsPipeline, AndOr, last_pipeline, connected, in_background, Program, no_more, last_list,
  in_sequence, as_job,
}
use hydrogen_os.Shell.Parser.Background.{length-in_background, mark_background-list}
use hydrogen_os.Shell.Parser.Commands.{inside_of_type}
use hydrogen_os.Shell.Parser.Pipelines.{IsPipeline-parse_pipeline}

is_end-true : (t : TokenType) → is_end t ≡ true → t ≡ token_end
is_end-true token_end e = refl
is_end-true token_word e = absurd (ground (arith, e))
is_end-true token_pipe e = absurd (ground (arith, e))
is_end-true token_and e = absurd (ground (arith, e))
is_end-true token_or e = absurd (ground (arith, e))
is_end-true token_background e = absurd (ground (arith, e))
is_end-true token_sequence e = absurd (ground (arith, e))
is_end-true token_redirect e = absurd (ground (arith, e))

-- A program of the grammar, or an error.
pub Ended : List Token → Run ParseError (List Pipeline) → Type 0
Ended tokens r =
    ((ps : List Pipeline) × (r ≡ ok ps) × Program tokens 0 ps × (length ps ≤ max_pipelines))
    ⊎ ((e : ParseError) × (r ≡ error e))

module _ (tokens : List Token) (size : length tokens ≤ max_tokens) where
  -- The pipelines of the lists that have ended, and those of the list at hand, from `start` on.
  record Progress (i start : ℕ) (c : Connector) (done current : List Pipeline) : Type 0 where
    ended : (rest : List Pipeline) → Program tokens start rest → Program tokens 0 (done ++ rest)
    at_hand :
        (ps : List Pipeline) (j : ℕ)
        → AndOr tokens i c ps j
        → AndOr tokens start connect_always (current ++ ps) j
    fresh : ((current ≡ []) × (i ≡ start)) ⊎ (is_end (type_at tokens i) ≡ false)

  Progress-list :
      (j start : ℕ) (done list : List Pipeline)
      → ((rest : List Pipeline) → Program tokens (j + 1) rest → Program tokens start (list ++ rest))
      → ((rest : List Pipeline) → Program tokens start rest → Program tokens 0 (done ++ rest))
      → Progress (j + 1) (j + 1) connect_always (done ++ list) []
  Progress-list j start done list step ended = record {
    ended = λ rest p.
        subst (λ t. Program tokens 0 t) (sym (append_assoc done list rest))
          (ended (list ++ rest) (step rest p));
    at_hand = λ ps k a. a;
    fresh = inl (refl, refl);
  }

  Progress-connected :
      (i j start : ℕ) (c d : Connector) (done current : List Pipeline) (p : Pipeline)
      → IsPipeline tokens i c p j
      → ((type_at tokens j ≡ token_and) × (d ≡ connect_if_success))
        ⊎ ((type_at tokens j ≡ token_or) × (d ≡ connect_if_failure))
      → is_end (type_at tokens (j + 1)) ≡ false
      → Progress i start c done current
      → Progress (j + 1) start d done (current ++ (p ∷ []))
  Progress-connected i j start c d done current p pipeline operator more g = record {
    ended = g.ended;
    at_hand = λ ps k a.
        subst (λ t. AndOr tokens start connect_always t k) (sym (append_assoc current (p ∷ []) ps))
          (g.at_hand (p ∷ ps) k (connected i j k c d p ps pipeline operator a));
    fresh = inr more;
  }

  -- What the loop does with `fuel` left from every state that it can be in.
  Continues : ℕ → (ℕ → Connector → ℕ → List Pipeline → Run ParseError (List Pipeline)) → Type 0
  Continues fuel rest =
      (i start list_start : ℕ) (c : Connector) (done current found : List Pipeline)
      → length tokens < fuel + i
      → i ≤ length tokens
      → found ≡ done ++ current
      → list_start ≡ length done
      → length found ≤ max_pipelines
      → Progress i start c done current
      → Ended tokens (rest i c list_start found)

  Ended-after_operator :
      (fuel : ℕ) (rest : ℕ → Connector → ℕ → List Pipeline → Run ParseError (List Pipeline))
      (i j start list_start : ℕ) (c d : Connector) (done current : List Pipeline) (p : Pipeline)
      → Continues fuel rest
      → length tokens < fuel + (j + 1)
      → j < length tokens
      → list_start ≡ length done
      → length ((done ++ current) ++ (p ∷ [])) ≤ max_pipelines
      → IsPipeline tokens i c p j
      → ((type_at tokens j ≡ token_and) × (d ≡ connect_if_success))
        ⊎ ((type_at tokens j ≡ token_or) × (d ≡ connect_if_failure))
      → Progress i start c done current
      → Ended tokens (
          if is_end (type_at tokens (j + 1))
          then error unexpected_end
          else rest (j + 1) d list_start ((done ++ current) ++ (p ∷ [])))
  unfolding Continues Ended
  Ended-after_operator fuel rest i j start list_start c d done current p next f inside s n pipeline
        operator g =
      elim (Bool-cases (is_end (type_at tokens (j + 1)))) [
        | inl x ↦ rw x (inr (unexpected_end, refl))
        | inr x ↦ rw x (
            next (j + 1) start list_start d done (current ++ (p ∷ []))
              ((done ++ current) ++ (p ∷ [])) f (omega (arith, inside))
              (append_assoc done current (p ∷ [])) s n
              (Progress-connected i j start c d done current p pipeline operator x g))
      ]

  Ended-after_pipeline :
      (fuel : ℕ) (rest : ℕ → Connector → ℕ → List Pipeline → Run ParseError (List Pipeline))
      (i j start list_start : ℕ) (c : Connector) (done current : List Pipeline) (p : Pipeline)
      (k : TokenType)
      → type_at tokens j ≡ k
      → Continues fuel rest
      → length tokens < fuel + (j + 1)
      → list_start ≡ length done
      → length ((done ++ current) ++ (p ∷ [])) ≤ max_pipelines
      → IsPipeline tokens i c p j
      → Progress i start c done current
      → Ended tokens
          (after_pipeline rest tokens j list_start p.source_end ((done ++ current) ++ (p ∷ [])) k)
  unfolding Continues Ended
  Ended-after_pipeline fuel rest i j start list_start c done current p token_end e next f s n
        pipeline g =
      let list = g.at_hand (p ∷ []) j (last_pipeline i j c p pipeline) in
      let whole = g.ended (current ++ (p ∷ [])) (last_list start j (current ++ (p ∷ [])) list e) in
      inl (
        (done ++ current) ++ (p ∷ []),
        refl,
        subst (λ t. Program tokens 0 t) (sym (append_assoc done current (p ∷ []))) whole,
        n,
      )
  Ended-after_pipeline fuel rest i j start list_start c done current p token_sequence e next f s n
        pipeline g =
      let list = g.at_hand (p ∷ []) j (last_pipeline i j c p pipeline) in
      let assoc = append_assoc done current (p ∷ []) in
      next (j + 1) (j + 1) (length ((done ++ current) ++ (p ∷ []))) connect_always
        (done ++ (current ++ (p ∷ []))) [] ((done ++ current) ++ (p ∷ [])) f
        (omega (arith, inside_of_type tokens j (ap is_end e)))
        (assoc ∙ sym (append-nil (done ++ (current ++ (p ∷ []))))) (ap length assoc) n
        (Progress-list j start done (current ++ (p ∷ []))
          (λ more q. in_sequence start j (current ++ (p ∷ [])) more list e q) g.ended)
  Ended-after_pipeline fuel rest i j start list_start c done current p token_background e next f s n
        pipeline g =
      let list = g.at_hand (p ∷ []) j (last_pipeline i j c p pipeline) in
      let jobs = in_background (current ++ (p ∷ [])) in
      let marked = mark_background-list done current p list_start s n in
      let same =
        length-in_background done (current ++ (p ∷ []))
        ∙ sym (ap length (append_assoc done current (p ∷ []))) in
      next (j + 1) (j + 1) (length ((done ++ current) ++ (p ∷ []))) connect_always (done ++ jobs) []
        _ f (omega (arith, inside_of_type tokens j (ap is_end e)))
        (marked ∙ sym (append-nil (done ++ jobs))) (sym same)
        (subst (λ t. t ≤ max_pipelines) (sym (ap length marked ∙ same)) n)
        (Progress-list j start done jobs
          (λ more q. as_job start j (current ++ (p ∷ [])) more list e q) g.ended)
  Ended-after_pipeline fuel rest i j start list_start c done current p token_and e next f s n
        pipeline g =
      Ended-after_operator fuel rest i j start list_start c connect_if_success done current p next f
        (inside_of_type tokens j (ap is_end e)) s n pipeline (inl (e, refl)) g
  Ended-after_pipeline fuel rest i j start list_start c done current p token_or e next f s n
        pipeline g =
      Ended-after_operator fuel rest i j start list_start c connect_if_failure done current p next f
        (inside_of_type tokens j (ap is_end e)) s n pipeline (inr (e, refl)) g
  Ended-after_pipeline fuel rest i j start list_start c done current p token_word e next f s n
        pipeline g =
      inr (unexpected_operator, refl)
  Ended-after_pipeline fuel rest i j start list_start c done current p token_pipe e next f s n
        pipeline g =
      inr (unexpected_operator, refl)
  Ended-after_pipeline fuel rest i j start list_start c done current p token_redirect e next f s n
        pipeline g =
      inr (unexpected_operator, refl)

  -- With an empty list at hand the line has ended well.
  Program-fresh :
      (i start : ℕ) (c : Connector) (done current : List Pipeline)
      → is_end (type_at tokens i) ≡ true
      → Progress i start c done current
      → Program tokens 0 (done ++ current)
  Program-fresh i start c done current x g = elim g.fresh [
    | inr y ↦ absurd (ground (arith, x, y))
    | inl (y, z) ↦
        let end =
          is_end-true (type_at tokens start) (ap (λ t. is_end (type_at tokens t)) (sym z) ∙ x) in
        subst (λ t. Program tokens 0 t) (ap (λ t. done ++ t) (sym y))
          (g.ended [] (no_more start end))
  ]

  Continues-parse_loop : (fuel : ℕ) → Continues fuel (parse_loop fuel tokens)
  unfolding parse_loop Ended Continues
  Continues-parse_loop zero i start list_start c done current found f h e s n g =
      absurd (omega (arith, f, h))
  Continues-parse_loop (suc fuel) i start list_start c done current found f h e s n g =
      elim (Bool-cases (is_end (type_at tokens i))) [
        | inl x ↦ rw x (
            inl (
              found,
              refl,
              subst (λ t. Program tokens 0 t) (sym e) (Program-fresh i start c done current x g),
              n,
            ))
        | inr x ↦ elim (Bool-cases (leb max_pipelines (length found))) [
          | inl y ↦ rw (x, y) (inr (too_many_commands, refl))
          | inr y ↦ elim (IsPipeline-parse_pipeline tokens size c i h) [
            | inr (w, r) ↦ rw (x, y, r) (inr (w, refl))
            | inl (p, j, r, pipeline, lo, hi) ↦
                let few : length (found ++ (p ∷ [])) ≤ max_pipelines =
                  ground (arith, y, length-append found (p ∷ [])) in
                let after =
                  Ended-after_pipeline fuel (parse_loop fuel tokens) i j start list_start c done
                    current p (type_at tokens j) refl (Continues-parse_loop fuel)
                    (omega (arith, f, lo)) s
                    (subst (λ t. length (t ++ (p ∷ [])) ≤ max_pipelines) e few) pipeline g in
                rw (x, y, r, e) after
          ]
        ]
      ]

-- `parser_parse` ends on every array of at most SHELL_MAX_TOKENS tokens, with an error or with the
-- pipelines of a program of the grammar over all tokens up to the end token: commands of words and
-- redirections with pipes between them, `&&` and `||` between pipelines with the connector kept at
-- the second one, and lists with `;` and `&` between them. A list with `&` has the mark, its length
-- and its end in its first pipeline, and every array has at most the entries that the limits allow.
pub parse_lem : (tokens : List Token) → length tokens ≤ max_tokens → Ended tokens (parse tokens)
unfolding parse Continues
parse_lem tokens size =
    Continues-parse_loop tokens size (length tokens + 1) 0 0 0 connect_always [] [] [] (omega arith)
      (omega arith) refl refl (omega arith)
      (record { ended = λ rest p. p; at_hand = λ ps j a. a; fresh = inl (refl, refl) })
