-- ===== src/Shell/Parser/Tests.antt =====
-- userspace/shell/parser.c: runs of the parser at fixed tokens.
use hydrogen_os.Prelude.{ℕ, ◌≡◌, refl, true, false, List, [], ◌∷◌, arith}
use hydrogen_os.Shell.{
  ok, error, TokenType, token_word, token_pipe, token_and, token_background, token_redirect,
  token_end, redirect_output, Token,
}
use hydrogen_os.Shell.Parser.{
  connect_always, connect_if_success, missing_command, parse_command, pipeline_loop, parse_pipeline,
  mark_background, parse_loop, parse,
}
use hydrogen_os.Shell.Parser.Whole.{Ended, parse_lem}

abbrev at : TokenType → ℕ → Token
at k n = record {
  type = k;
  redirect_kind = redirect_output;
  redirect_fd = 1;
  start = n;
  length = 1;
}

-- `a | b > c && d &`
abbrev job : List Token
job =
    at token_word 0
    ∷ at token_pipe 2
    ∷ at token_word 4
    ∷ at token_redirect 6
    ∷ at token_word 8
    ∷ at token_and 10
    ∷ at token_word 13
    ∷ at token_background 15
    ∷ at token_end 16
    ∷ []

job_parsed :
    parse job
    ≡ ok (
        record {
          commands =
              record { words = 0 ∷ []; redirects = [] }
              ∷ record {
                words = 2 ∷ [];
                redirects = record { kind = redirect_output; fd = 1; target = 4 } ∷ [];
              }
              ∷ [];
          connector = connect_always;
          background = true;
          list_length = 2;
          source_start = 0;
          source_end = 14;
        }
        ∷ record {
          commands = record { words = 6 ∷ []; redirects = [] } ∷ [];
          connector = connect_if_success;
          background = false;
          list_length = 1;
          source_start = 13;
          source_end = 14;
        }
        ∷ [])
unfolding parse parse_loop parse_pipeline pipeline_loop parse_command mark_background
job_parsed = refl

-- `| a`
no_command : parse (at token_pipe 0 ∷ at token_word 2 ∷ at token_end 3 ∷ []) ≡ error missing_command
unfolding parse parse_loop parse_pipeline pipeline_loop parse_command mark_background
no_command = refl

parse_lem_example : Ended job (parse job)
parse_lem_example = parse_lem job (omega arith)
