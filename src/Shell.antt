-- ===== src/Shell.antt =====
-- userspace/shell: the limits and the tokens that the lexer and the parser share.
pub mod Lexer
pub mod Parser
use hydrogen_os.Prelude.{ℕ}

-- What a phase returns: a result, an error of its kind, or too little fuel.
pub data Run (E A : Type 0) : Type 0 where
  ok : A → Run E A
  error : E → Run E A
  out_of_fuel : Run E A

infix 20 ◌>>=◌
abbrev pub ◌>>=◌ : {E A B : Type 0} → Run E A → (A → Run E B) → Run E B
ok a >>= f = f a
error e >>= f = error e
out_of_fuel >>= f = out_of_fuel

abbrev pub line_max : ℕ
line_max = 1024

abbrev pub max_tokens : ℕ
max_tokens = 128

abbrev pub max_args : ℕ
max_args = 32

abbrev pub max_redirects : ℕ
max_redirects = 8

abbrev pub max_stages : ℕ
max_stages = 8

abbrev pub max_pipelines : ℕ
max_pipelines = 16

pub data TokenType : Type 0 where
  token_word token_pipe token_and token_or token_background token_sequence : TokenType
  token_redirect token_end : TokenType

pub data RedirectKind : Type 0 where
  redirect_input redirect_output redirect_append redirect_duplicate : RedirectKind

pub record Token : Type 0 where
  pub type : TokenType
  pub redirect_kind : RedirectKind
  pub redirect_fd : ℕ
  pub start : ℕ
  pub length : ℕ
