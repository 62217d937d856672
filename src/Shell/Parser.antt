-- ===== src/Shell/Parser.antt =====
-- userspace/shell/parser.c. The tokens are those of the lexer, an array that ends with the end
-- token; what stands behind it is never asked for, and reads as an end token here. The counts of the
-- arrays of the C structures are the lengths of the lists.
pub mod Grammar
pub mod Commands
pub mod Pipelines
pub mod Background
pub mod Whole
mod Tests
use hydrogen_os.Prelude.{
  ℕ, zero, suc, ◌+◌, ◌-◌, ◌%◌, ◌^◌, Bool, true, false, ◌&&◌, ◌||◌, not, ltb, leb, ◌==◌,
  if◌then◌else◌, List, [], ◌∷◌, ◌++◌, get_or, length,
}
use hydrogen_os.Shell.{
  Run, ok, error, out_of_fuel, ◌>>=◌, max_args, max_redirects, max_stages, max_pipelines, TokenType,
  token_word, token_pipe, token_and, token_or, token_background, token_sequence, token_redirect,
  token_end, RedirectKind, redirect_input, Token,
}

pub data ParseError : Type 0 where
  too_many_arguments too_many_redirections missing_target missing_command : ParseError
  pipeline_too_long too_many_commands unexpected_operator unexpected_end : ParseError

pub data Connector : Type 0 where
  connect_always connect_if_success connect_if_failure : Connector

pub record Redirect : Type 0 where
  pub kind : RedirectKind
  pub fd : ℕ
  pub target : ℕ

pub record Command : Type 0 where
  pub words : List ℕ
  pub redirects : List Redirect

pub record Pipeline : Type 0 where
  pub commands : List Command
  pub connector : Connector
  pub background : Bool
  pub list_length : ℕ
  pub source_start : ℕ
  pub source_end : ℕ

abbrev pub end_token : Token
end_token = record {
  type = token_end;
  redirect_kind = redirect_input;
  redirect_fd = 0;
  start = 0;
  length = 0;
}

-- `tokens->tokens[i]`
abbrev pub token_at : List Token → ℕ → Token
token_at tokens i = get_or tokens i end_token

abbrev pub is_word : TokenType → Bool
is_word token_word = true
is_word t = false

abbrev pub is_pipe : TokenType → Bool
is_pipe token_pipe = true
is_pipe t = false

abbrev pub is_end : TokenType → Bool
is_end token_end = true
is_end t = false

abbrev pub is_empty {ℓ} : {A : Type ℓ} → List A → Bool
is_empty [] = true
is_empty (x ∷ xs) = false

-- `parse_command` at token `i`, with the words and the redirections found so far.
pub parse_command : ℕ → List Token → ℕ → List ℕ → List Redirect → Run ParseError (Command × ℕ)
parse_command zero tokens i words redirects = out_of_fuel
parse_command (suc fuel) tokens i words redirects =
    let t = token_at tokens i in
    let target : Redirect = record {
      kind = t.redirect_kind;
      fd = t.redirect_fd;
      target = (i + 1) % 2 ^ 16;
    } in
    let rest = parse_command fuel tokens in
    let finished : Run ParseError (Command × ℕ) =
      if is_empty words && is_empty redirects
      then error missing_command
      else ok (record { words = words; redirects = redirects }, i) in
    elim t.type [
      | token_word ↦
          if leb max_args (length words)
          then error too_many_arguments
          else rest (i + 1) (words ++ (i % 2 ^ 16 ∷ [])) redirects
      | token_redirect ↦
          if leb max_redirects (length redirects)
          then error too_many_redirections
          else if not (is_word (token_at tokens (i + 1)).type)
          then error missing_target
          else rest (i + 2) words (redirects ++ (target ∷ []))
      | token_pipe ↦ finished
      | token_and ↦ finished
      | token_or ↦ finished
      | token_background ↦ finished
      | token_sequence ↦ finished
      | token_end ↦ finished
    ]

-- The loop of `parse_pipeline` with the commands found so far: the commands, and the next token.
pub pipeline_loop : ℕ → List Token → ℕ → List Command → Run ParseError (List Command × ℕ)
pipeline_loop zero tokens i commands = out_of_fuel
pipeline_loop (suc fuel) tokens i commands =
    let rest = pipeline_loop fuel tokens in
    if leb max_stages (length commands)
    then error pipeline_too_long
    else parse_command (length tokens + 1) tokens i [] [] >>= λ (command, next).
        if is_pipe (token_at tokens next).type
        then rest (next + 1) (commands ++ (command ∷ []))
        else ok (commands ++ (command ∷ []), next)

pub parse_pipeline : List Token → Connector → ℕ → Run ParseError (Pipeline × ℕ)
parse_pipeline tokens connector i =
    pipeline_loop (length tokens + 1) tokens i [] >>= λ (commands, next).
    let last = token_at tokens (next - 1) in
    ok (
      record {
        commands = commands;
        connector = connector;
        background = false;
        list_length = 1;
        source_start = (token_at tokens i).start;
        source_end = (last.start + last.length) % 2 ^ 16;
      },
      next,
    )

-- The update of the pipeline at `list_start` when `&` ends a list.
pub mark_background : ℕ → ℕ → ℕ → List Pipeline → List Pipeline
mark_background list_start count source_end [] = []
mark_background zero count source_end (p ∷ ps) =
    record p { background = true; list_length = count % 2 ^ 8; source_end = source_end } ∷ ps
mark_background (suc k) count source_end (p ∷ ps) = p ∷ mark_background k count source_end ps

-- What `parser_parse` does at the token behind a pipeline, where `all` are the pipelines found, this
-- one too; `rest` goes on with the loop.
abbrev pub after_pipeline :
    (ℕ → Connector → ℕ → List Pipeline → Run ParseError (List Pipeline))
    → List Token
    → ℕ
    → ℕ
    → ℕ
    → List Pipeline
    → TokenType
    → Run ParseError (List Pipeline)
after_pipeline rest tokens next list_start source_end all token_end = ok all
after_pipeline rest tokens next list_start source_end all token_sequence =
    rest (next + 1) connect_always (length all) all
after_pipeline rest tokens next list_start source_end all token_background =
    rest (next + 1) connect_always (length all)
      (mark_background list_start (length all - list_start) source_end all)
after_pipeline rest tokens next list_start source_end all token_and =
    if is_end (token_at tokens (next + 1)).type
    then error unexpected_end
    else rest (next + 1) connect_if_success list_start all
after_pipeline rest tokens next list_start source_end all token_or =
    if is_end (token_at tokens (next + 1)).type
    then error unexpected_end
    else rest (next + 1) connect_if_failure list_start all
after_pipeline rest tokens next list_start source_end all t = error unexpected_operator

-- The loop of `parser_parse`.
pub parse_loop : ℕ → List Token → ℕ → Connector → ℕ → List Pipeline → Run ParseError (List Pipeline)
parse_loop zero tokens i connector list_start found = out_of_fuel
parse_loop (suc fuel) tokens i connector list_start found =
    let rest = parse_loop fuel tokens in
    if is_end (token_at tokens i).type
    then ok found
    else if leb max_pipelines (length found)
    then error too_many_commands
    else parse_pipeline tokens connector i >>= λ (p, next).
        after_pipeline rest tokens next list_start p.source_end (found ++ (p ∷ []))
          (token_at tokens next).type

pub parse : List Token → Run ParseError (List Pipeline)
parse tokens = parse_loop (length tokens + 1) tokens 0 connect_always 0 []
