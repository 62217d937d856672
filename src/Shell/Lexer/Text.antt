-- ===== src/Shell/Lexer/Text.antt =====
-- userspace/shell/lexer.c: what the tokens of a line are, apart from how they are found.
use hydrogen_os.Prelude.{ℕ, ◌+◌, ◌≤◌, ◌<◌, ◌≡◌, ◌≢◌, ◌⊎◌, ◌==◌, min, List, [], ◌∷◌, if◌then◌else◌}
use hydrogen_os.Shell.{
  line_max, max_tokens, TokenType, token_word, token_pipe, token_and, token_or, token_background,
  token_sequence, token_redirect, token_end, RedirectKind, redirect_input, redirect_output,
  redirect_append, redirect_duplicate, Token,
}
use hydrogen_os.Shell.Lexer.{
  byte, LexError, unterminated_single, unterminated_double, line_too_long, too_many_tokens,
}

abbrev pub IsBlank : ℕ → Type 0
IsBlank c = (c ≡ b' ') ⊎ ((c ≡ b'\t') ⊎ (c ≡ b'\r'))

-- A redirection begins with `<` or `>`.
abbrev pub IsArrow : ℕ → Type 0
IsArrow c = (c ≡ b'<') ⊎ (c ≡ b'>')

-- What ends a word: the end of the line, a blank, or the first byte of an operator.
abbrev pub EndsWord : ℕ → Type 0
EndsWord c = (c ≡ 0) ⊎ (IsBlank c ⊎ ((c ≡ b'|') ⊎ ((c ≡ b'&') ⊎ ((c ≡ b';') ⊎ IsArrow c))))

-- A backslash and a newline join two lines.
abbrev pub Joins : List ℕ → ℕ → Type 0
Joins line p = (byte line p ≡ b'\\') × (byte line (p + 1) ≡ b'\n')

abbrev pub IsDigit : ℕ → Type 0
IsDigit c = (b'0' ≤ c) × (c ≤ b'9')

-- A token starts at a position: it is not skipped, and no comment or end.
abbrev pub Starts : List ℕ → ℕ → Type 0
Starts line p =
    (byte line p ≢ 0) × (byte line p ≢ b'#') × (¬ IsBlank (byte line p)) × ¬ Joins line p

-- The text of a redirection operator of a kind.
abbrev pub Operator : List ℕ → RedirectKind → ℕ → ℕ → Type 0
Operator line redirect_input s n = (byte line s ≡ b'<') × (byte line (s + 1) ≢ b'&') × (n ≡ 1)
Operator line redirect_output s n =
    (byte line s ≡ b'>') × (byte line (s + 1) ≢ b'>') × (byte line (s + 1) ≢ b'&') × (n ≡ 1)
Operator line redirect_append s n = (byte line s ≡ b'>') × (byte line (s + 1) ≡ b'>') × (n ≡ 2)
Operator line redirect_duplicate s n =
    ((byte line s ≡ b'<') ⊎ (byte line s ≡ b'>')) × (byte line (s + 1) ≡ b'&') × (n ≡ 2)

-- `[n]<` and the like: the descriptor is the digit in front, or 0 for `<` and 1 for `>`.
abbrev pub Redirection : List ℕ → RedirectKind → ℕ → ℕ → ℕ → Type 0
Redirection line kind fd s n =
    (Operator line kind s n × (fd ≡ (if byte line s == b'<' then 0 else 1)))
    ⊎ ((m : ℕ) × IsDigit (byte line s)
        × (byte line s ≡ fd + b'0')
        × (n ≡ m + 1)
        × Operator line kind (s + 1) m)

-- The inside of a double-quoted text: a backslash takes the byte behind it along.
pub data Quoted (line : List ℕ) : ℕ → ℕ → Type 0 where
  close : (p : ℕ) → Quoted line p p
  quoted_byte :
      (p q : ℕ)
      → byte line p ≢ 0
      → byte line p ≢ b'"'
      → (byte line p ≢ b'\\') ⊎ (byte line (p + 1) ≡ 0)
      → Quoted line (p + 1) q
      → Quoted line p q
  quoted_pair :
      (p q : ℕ)
      → byte line p ≡ b'\\'
      → byte line (p + 1) ≢ 0
      → Quoted line (p + 2) q
      → Quoted line p q

-- A piece of a word: a byte, an escaped byte, or a quoted text with its quotes.
pub data Piece (line : List ℕ) : ℕ → ℕ → Type 0 where
  bare :
      (p : ℕ)
      → byte line p ≢ b'\\'
      → byte line p ≢ b'\''
      → byte line p ≢ b'"'
      → Piece line p (p + 1)
  escaped : (p : ℕ) → byte line p ≡ b'\\' → byte line (p + 1) ≢ 0 → Piece line p (p + 2)
  last_backslash : (p : ℕ) → byte line p ≡ b'\\' → byte line (p + 1) ≡ 0 → Piece line p (p + 1)
  single_quoted :
      (p q : ℕ)
      → byte line p ≡ b'\''
      → byte line q ≡ b'\''
      → p < q
      → ((k : ℕ) → p < k → k < q → (byte line k ≢ b'\'') × (byte line k ≢ 0))
      → Piece line p (q + 1)
  double_quoted :
      (p q : ℕ)
      → byte line p ≡ b'"'
      → byte line q ≡ b'"'
      → Quoted line (p + 1) q
      → Piece line p (q + 1)

-- A word from one position to another: pieces up to the first byte outside quotes that ends words.
pub data Word (line : List ℕ) : ℕ → ℕ → Type 0 where
  word_end : (p : ℕ) → EndsWord (byte line p) → Word line p p
  word_piece :
      (p q r : ℕ) → (¬ EndsWord (byte line p)) → Piece line p q → Word line q r → Word line p r

-- A word that a quote without its closing quote ends, with the error for this quote.
pub data OpenWord (line : List ℕ) : ℕ → LexError → Type 0 where
  open_single :
      (p q : ℕ)
      → byte line p ≡ b'\''
      → byte line q ≡ 0
      → p < q
      → ((k : ℕ) → p < k → k < q → (byte line k ≢ b'\'') × (byte line k ≢ 0))
      → OpenWord line p unterminated_single
  open_double :
      (p q : ℕ)
      → byte line p ≡ b'"'
      → byte line q ≡ 0
      → Quoted line (p + 1) q
      → OpenWord line p unterminated_double
  open_later :
      (p q : ℕ) (e : LexError)
      → (¬ EndsWord (byte line p))
      → Piece line p q
      → OpenWord line q e
      → OpenWord line p e

-- The `n` bytes from `s` on are a token of the type; a digit before an arrow is no word.
abbrev pub Spelled : List ℕ → TokenType → RedirectKind → ℕ → ℕ → ℕ → Type 0
Spelled line token_word kind fd s n =
    (¬ (IsDigit (byte line s) × IsArrow (byte line (s + 1)))) × Word line s (s + n)
Spelled line token_pipe kind fd s n = (byte line s ≡ b'|') × (byte line (s + 1) ≢ b'|') × (n ≡ 1)
Spelled line token_or kind fd s n = (byte line s ≡ b'|') × (byte line (s + 1) ≡ b'|') × (n ≡ 2)
Spelled line token_background kind fd s n =
    (byte line s ≡ b'&') × (byte line (s + 1) ≢ b'&') × (n ≡ 1)
Spelled line token_and kind fd s n = (byte line s ≡ b'&') × (byte line (s + 1) ≡ b'&') × (n ≡ 2)
Spelled line token_sequence kind fd s n = (byte line s ≡ b';') × (n ≡ 1)
Spelled line token_redirect kind fd s n = Redirection line kind fd s n
Spelled line token_end kind fd s n = ⊥

-- Only blanks and line continuations stand between two positions.
pub data Skipped (line : List ℕ) : ℕ → ℕ → Type 0 where
  stay : (p : ℕ) → Skipped line p p
  blank : (p q : ℕ) → IsBlank (byte line p) → Skipped line (p + 1) q → Skipped line p q
  continued : (p q : ℕ) → Joins line p → Skipped line (p + 2) q → Skipped line p q

-- The tokens of the line from a position on: what stands between them is skipped, each has its
-- text, and the last one marks the end of the line or a comment.
pub data Lexed (line : List ℕ) : ℕ → List Token → Type 0 where
  finish :
      (p q : ℕ) (t : Token)
      → Skipped line p q
      → (byte line q ≡ 0) ⊎ (byte line q ≡ b'#')
      → t.type ≡ token_end
      → t.start ≡ min q line_max
      → t.length ≡ 0
      → Lexed line p (t ∷ [])
  token :
      (p : ℕ) (t : Token) (ts : List Token)
      → Skipped line p t.start
      → Starts line t.start
      → t.start < line_max
      → Spelled line t.type t.redirect_kind t.redirect_fd t.start t.length
      → 0 < t.length
      → t.start + t.length ≤ line_max
      → Lexed line (t.start + t.length) ts
      → Lexed line p (t ∷ ts)

-- From a position on, behind what is skipped, a token of `n` bytes starts at `q`.
pub record TokenAt (line : List ℕ) (p q n : ℕ) : Type 0 where
  pub skipped : Skipped line p q
  pub starts : Starts line q
  pub early : q < line_max
  pub some_bytes : 0 < n
  pub type : TokenType
  pub kind : RedirectKind
  pub fd : ℕ
  pub spelled : Spelled line type kind fd q n

-- Why the line from a position on, with `count` tokens before it, is refused: a token starts or ends
-- too late, is one too many, or is a word with an open quote; the tokens before it are fine.
pub data Failed (line : List ℕ) : ℕ → ℕ → LexError → Type 0 where
  late_start :
      (p q count : ℕ)
      → Skipped line p q
      → Starts line q
      → line_max ≤ q
      → Failed line p count line_too_long
  late_end :
      (p q n count : ℕ) → TokenAt line p q n → line_max < q + n → Failed line p count line_too_long
  one_too_many :
      (p q n count : ℕ)
      → TokenAt line p q n
      → q + n ≤ line_max
      → max_tokens ≤ count + 1
      → Failed line p count too_many_tokens
  open_quote :
      (p q count : ℕ) (e : LexError)
      → Skipped line p q
      → Starts line q
      → q < line_max
      → OpenWord line q e
      → Failed line p count e
  behind_token :
      (p q n count : ℕ) (e : LexError)
      → TokenAt line p q n
      → q + n ≤ line_max
      → Failed line (q + n) (count + 1) e
      → Failed line p count e
