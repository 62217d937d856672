-- ===== src/Shell/Parser/Grammar.antt =====
-- userspace/shell/parser.c: the grammar of the shell's command lines over their tokens, apart from
-- how they are parsed.
use hydrogen_os.Prelude.{
  ℕ, ◌+◌, ◌-◌, ◌%◌, ◌^◌, ◌≤◌, ◌≡◌, ◌⊎◌, Bool, true, false, ◌&&◌, List, [], ◌∷◌, ◌++◌, length,
}
use hydrogen_os.Shell.{
  max_args, max_redirects, max_stages, TokenType, token_word, token_and, token_or, token_background,
  token_sequence, token_redirect, token_end, Token,
}
use hydrogen_os.Shell.Parser.{
  Connector, connect_always, connect_if_success, connect_if_failure, Redirect, Command, Pipeline,
  token_at, is_pipe, is_empty,
}

abbrev pub is_item : TokenType → Bool
is_item token_word = true
is_item token_redirect = true
is_item t = false

abbrev pub type_at : List Token → ℕ → TokenType
type_at tokens i = (token_at tokens i).type

-- The words and the redirections between two token indices.
pub data Items (tokens : List Token) : ℕ → List ℕ → List Redirect → ℕ → Type 0 where
  no_item : (i : ℕ) → is_item (type_at tokens i) ≡ false → Items tokens i [] [] i
  word_item :
      (i j : ℕ) (ws : List ℕ) (rs : List Redirect)
      → type_at tokens i ≡ token_word
      → Items tokens (i + 1) ws rs j
      → Items tokens i (i ∷ ws) rs j
  redirect_item :
      (i j : ℕ) (r : Redirect) (ws : List ℕ) (rs : List Redirect)
      → type_at tokens i ≡ token_redirect
      → type_at tokens (i + 1) ≡ token_word
      → (r.kind ≡ (token_at tokens i).redirect_kind)
        × (r.fd ≡ (token_at tokens i).redirect_fd)
        × (r.target ≡ i + 1)
      → Items tokens (i + 2) ws rs j
      → Items tokens i ws (r ∷ rs) j

pub record IsCommand (tokens : List Token) (i : ℕ) (c : Command) (j : ℕ) : Type 0 where
  pub items : Items tokens i c.words c.redirects j
  pub nonempty : (is_empty c.words && is_empty c.redirects) ≡ false
  pub few_words : length c.words ≤ max_args
  pub few_redirects : length c.redirects ≤ max_redirects

-- Commands with pipes between them.
pub data Commands (tokens : List Token) : ℕ → List Command → ℕ → Type 0 where
  last_command :
      (i j : ℕ) (c : Command)
      → IsCommand tokens i c j
      → is_pipe (type_at tokens j) ≡ false
      → Commands tokens i (c ∷ []) j
  piped :
      (i j k : ℕ) (c : Command) (cs : List Command)
      → IsCommand tokens i c j
      → is_pipe (type_at tokens j) ≡ true
      → Commands tokens (j + 1) cs k
      → Commands tokens i (c ∷ cs) k

pub record IsPipeline (tokens : List Token) (i : ℕ) (c : Connector) (p : Pipeline) (j : ℕ)
    : Type 0 where
  pub commands : Commands tokens i p.commands j
  pub few_commands : length p.commands ≤ max_stages
  pub connected : p.connector ≡ c
  pub foreground : p.background ≡ false
  pub alone : p.list_length ≡ 1
  pub starts : p.source_start ≡ (token_at tokens i).start
  pub ends :
      p.source_end ≡ ((token_at tokens (j - 1)).start + (token_at tokens (j - 1)).length) % 2 ^ 16

-- Pipelines with `&&` and `||` between them; the connector is what stands before the first.
pub data AndOr (tokens : List Token) : ℕ → Connector → List Pipeline → ℕ → Type 0 where
  last_pipeline :
      (i j : ℕ) (c : Connector) (p : Pipeline)
      → IsPipeline tokens i c p j
      → AndOr tokens i c (p ∷ []) j
  connected :
      (i j k : ℕ) (c d : Connector) (p : Pipeline) (ps : List Pipeline)
      → IsPipeline tokens i c p j
      → ((type_at tokens j ≡ token_and) × (d ≡ connect_if_success))
        ⊎ ((type_at tokens j ≡ token_or) × (d ≡ connect_if_failure))
      → AndOr tokens (j + 1) d ps k
      → AndOr tokens i c (p ∷ ps) k

abbrev pub end_of_last : ℕ → List Pipeline → ℕ
end_of_last e [] = e
end_of_last e (p ∷ ps) = end_of_last p.source_end ps

-- A list that runs as one job: its first pipeline says so.
abbrev pub in_background : List Pipeline → List Pipeline
in_background [] = []
in_background (p ∷ ps) =
    record p {
      background = true;
      list_length = length (p ∷ ps);
      source_end = end_of_last p.source_end ps;
    }
    ∷ ps

-- Lists with `;` and `&` between them, up to the end of the line.
pub data Program (tokens : List Token) : ℕ → List Pipeline → Type 0 where
  no_more : (i : ℕ) → type_at tokens i ≡ token_end → Program tokens i []
  last_list :
      (i j : ℕ) (ps : List Pipeline)
      → AndOr tokens i connect_always ps j
      → type_at tokens j ≡ token_end
      → Program tokens i ps
  in_sequence :
      (i j : ℕ) (ps rest : List Pipeline)
      → AndOr tokens i connect_always ps j
      → type_at tokens j ≡ token_sequence
      → Program tokens (j + 1) rest
      → Program tokens i (ps ++ rest)
  as_job :
      (i j : ℕ) (ps rest : List Pipeline)
      → AndOr tokens i connect_always ps j
      → type_at tokens j ≡ token_background
      → Program tokens (j + 1) rest
      → Program tokens i (in_background ps ++ rest)
