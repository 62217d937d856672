-- ===== src/Shell/Parser/Pipelines.antt =====
-- userspace/shell/parser.c, parse_pipeline.
use hydrogen_os.Prelude.{
  ℕ, zero, suc, ◌+◌, ◌≤◌, ◌<◌, ◌≡◌, ◌⊎◌, refl, subst, ap, inl, inr, true, leb, List, [], ◌∷◌, ◌++◌,
  length, length-append, arith, Bool-cases,
}
use mathlib.Core.List.{append_assoc}
use hydrogen_os.Shell.{
  Run, ok, error, max_stages, max_tokens, TokenType, token_word, token_pipe, token_and, token_or,
  token_background, token_sequence, token_redirect, token_end, Token,
}
use hydrogen_os.Shell.Parser.{
  ParseError, pipeline_too_long, Connector, Command, Pipeline, is_pipe, is_end, pipeline_loop,
  parse_pipeline,
}
use hydrogen_os.Shell.Parser.Commands.{inside_of_type, IsCommand-parse_command}
use hydrogen_os.Shell.Parser.Grammar.{type_at, Commands, last_command, piped, IsPipeline}

is_pipe-true : (t : TokenType) → is_pipe t ≡ true → t ≡ token_pipe
is_pipe-true token_pipe e = refl
is_pipe-true token_word e = absurd (ground (arith, e))
is_pipe-true token_and e = absurd (ground (arith, e))
is_pipe-true token_or e = absurd (ground (arith, e))
is_pipe-true token_background e = absurd (ground (arith, e))
is_pipe-true token_sequence e = absurd (ground (arith, e))
is_pipe-true token_redirect e = absurd (ground (arith, e))
is_pipe-true token_end e = absurd (ground (arith, e))

module _ (tokens : List Token) (size : length tokens ≤ max_tokens) where
  -- What the loop of `parse_pipeline` gives from a state on.
  Piped : ℕ → List Command → Run ParseError (List Command × ℕ) → Type 0
  Piped i commands r =
      ((cs : List Command) × (j : ℕ) × (r ≡ ok (commands ++ cs, j))
        × Commands tokens i cs j
        × (length (commands ++ cs) ≤ max_stages)
        × (i ≤ j)
        × (j ≤ length tokens))
      ⊎ ((e : ParseError) × (r ≡ error e))

  Piped-pipeline_loop :
      (fuel i : ℕ) (commands : List Command)
      → length tokens < fuel + i
      → i ≤ length tokens
      → length commands ≤ max_stages
      → Piped i commands (pipeline_loop fuel tokens i commands)
  unfolding pipeline_loop Piped
  Piped-pipeline_loop zero i commands f h l = absurd (omega (arith, f, h))
  Piped-pipeline_loop (suc fuel) i commands f h l =
      elim (Bool-cases (leb max_stages (length commands))) [
        | inl e ↦ rw e (inr (pipeline_too_long, refl))
        | inr e ↦ elim (IsCommand-parse_command tokens size i h) [
          | inr (x, r) ↦ rw (e, r) (inr (x, refl))
          | inl (c, j, r, command, lo, hi) ↦
              let size1 : length (commands ++ (c ∷ [])) ≤ max_stages =
                ground (arith, e, length-append commands (c ∷ [])) in
              elim (Bool-cases (is_pipe (type_at tokens j))) [
                | inr g ↦
                    rw (e, r, g)
                      (inl (c ∷ [], j, refl, last_command i j c command g, size1, lo, hi))
                | inl g ↦
                    let pipe = is_pipe-true (type_at tokens j) g in
                    let inside = inside_of_type tokens j (ap is_end pipe) in
                    let rest =
                      Piped-pipeline_loop fuel (j + 1) (commands ++ (c ∷ [])) (omega (arith, f, lo))
                        (omega (arith, inside)) size1 in
                    elim rest [
                      | inr (x, s) ↦ rw (e, r, g, s) (inr (x, refl))
                      | inl (cs, k, s, more, size2, lo2, hi2) ↦
                          let assoc = append_assoc commands (c ∷ []) cs in
                          rw (e, r, g, s)
                            (inl (
                              c ∷ cs,
                              k,
                              ap (λ t. ok (t, k)) assoc,
                              piped i j k c cs command g more,
                              subst (λ t. length t ≤ max_stages) assoc size2,
                              omega (arith, lo, lo2),
                              hi2,
                            ))
                    ]
              ]
        ]
      ]

  -- `parse_pipeline` gives a pipeline of the grammar, or an error.
  pub IsPipeline-parse_pipeline :
      (connector : Connector) (i : ℕ)
      → i ≤ length tokens
      → ((p : Pipeline) × (j : ℕ) × (parse_pipeline tokens connector i ≡ ok (p, j))
          × IsPipeline tokens i connector p j
          × (i ≤ j)
          × (j ≤ length tokens))
        ⊎ ((e : ParseError) × (parse_pipeline tokens connector i ≡ error e))
  unfolding parse_pipeline Piped
  IsPipeline-parse_pipeline connector i h =
      elim (Piped-pipeline_loop (length tokens + 1) i [] (omega arith) h (omega arith)) [
        | inr (x, r) ↦ rw r (inr (x, refl))
        | inl (cs, j, r, commands, l, lo, hi) ↦ rw r (
            inl (
              _,
              j,
              refl,
              record {
                commands = commands;
                few_commands = l;
                connected = refl;
                foreground = refl;
                alone = refl;
                starts = refl;
                ends = refl;
              },
              lo,
              hi,
            ))
      ]
