-- ===== src/Shell/Lexer.antt =====
-- userspace/shell/lexer.c. The line is the list of its bytes, and reading at its end gives the
-- terminating 0. A position is an index into it. Loops run on fuel, and a loop whose result decides
-- between success and failure says so when the fuel does not last.
pub mod Scan
pub mod Text
pub mod Whole
mod Tests
use hydrogen_os.Prelude.{
  ℕ, zero, suc, ◌+◌, ◌-◌, ◌%◌, ◌^◌, Bool, true, false, ◌&&◌, ◌||◌, not, ltb, leb, ◌==◌,
  if◌then◌else◌, List, [], ◌∷◌, get_or, length,
}
use hydrogen_os.Shell.{
  Run, ok, error, out_of_fuel, ◌>>=◌, line_max, max_tokens, TokenType, token_word, token_pipe,
  token_and, token_or, token_background, token_sequence, token_redirect, token_end, RedirectKind,
  redirect_input, redirect_output, redirect_append, redirect_duplicate, Token,
}

pub data LexError : Type 0 where
  too_many_tokens unterminated_single unterminated_double line_too_long : LexError

-- `line[i]`
abbrev pub byte : List ℕ → ℕ → ℕ
byte line i = get_or line i 0

abbrev pub is_blank : ℕ → Bool
is_blank c = c == b' ' || c == b'\t' || c == b'\r'

abbrev pub is_operator_char : ℕ → Bool
is_operator_char c = c == b'|' || c == b'&' || c == b';' || c == b'<' || c == b'>'

abbrev pub is_line_continuation : List ℕ → ℕ → Bool
is_line_continuation line i = byte line i == b'\\' && byte line (i + 1) == b'\n'

abbrev pub is_digit : ℕ → Bool
is_digit c = leb b'0' c && leb c b'9'

-- Whether the loop of `scan_word` ends at a byte.
abbrev pub ends_word : ℕ → Bool
ends_word c = c == 0 || is_blank c || is_operator_char c

-- The loop over a single-quoted text, from behind the quote on.
pub single_end : ℕ → List ℕ → ℕ → ℕ
single_end zero line i = i
single_end (suc fuel) line i =
    let rest = single_end fuel line (i + 1) in
    if byte line i == 0 || byte line i == b'\'' then i else rest

-- The loop over a double-quoted text.
pub double_end : ℕ → List ℕ → ℕ → ℕ
double_end zero line i = i
double_end (suc fuel) line i =
    let escaped = byte line i == b'\\' && not (byte line (i + 1) == 0) in
    let rest = double_end fuel line (if escaped then i + 2 else i + 1) in
    if byte line i == 0 || byte line i == b'"' then i else rest

-- One round of the loop of `scan_word`: the next position.
pub word_step : List ℕ → ℕ → Run LexError ℕ
word_step line i =
    let single = single_end (length line) line (i + 1) in
    let double = double_end (length line) line (i + 1) in
    if byte line i == b'\\'
    then ok (if byte line (i + 1) == 0 then i + 1 else i + 2)
    else if byte line i == b'\''
    then (if byte line single == 0 then error unterminated_single else ok (single + 1))
    else if byte line i == b'"'
    then (if byte line double == 0 then error unterminated_double else ok (double + 1))
    else ok (i + 1)

pub scan_word : ℕ → List ℕ → ℕ → Run LexError ℕ
scan_word zero line i = out_of_fuel
scan_word (suc fuel) line i =
    let rest = scan_word fuel line in
    if ends_word (byte line i) then ok i else (word_step line i >>= rest)

-- The redirection's kind, and where it ends.
pub scan_redirect : List ℕ → ℕ → RedirectKind × ℕ
scan_redirect line pos =
    let next = byte line (pos + 1) in
    if byte line pos == b'<'
    then if next == b'&' then (redirect_duplicate, pos + 2) else (redirect_input, pos + 1)
    else if next == b'>'
    then (redirect_append, pos + 2)
    else if next == b'&'
    then (redirect_duplicate, pos + 2)
    else (redirect_output, pos + 1)

-- A token at a position that is not a redirection; its length is set by the loop.
abbrev pub plain : TokenType → ℕ → Token
plain type pos = record {
  type = type;
  redirect_kind = redirect_input;
  redirect_fd = 0;
  start = pos % 2 ^ 16;
  length = 0;
}

abbrev pub redirect : ℕ → RedirectKind → ℕ → Token
redirect fd kind pos = record {
  type = token_redirect;
  redirect_kind = kind;
  redirect_fd = fd;
  start = pos % 2 ^ 16;
  length = 0;
}

-- The token at a position where one starts, and its end.
pub scan_token : List ℕ → ℕ → Run LexError (Token × ℕ)
scan_token line pos =
    let c = byte line pos in
    let next = byte line (pos + 1) in
    let (kind, end) = scan_redirect line pos in
    let (kind1, end1) = scan_redirect line (pos + 1) in
    let word : Run LexError (Token × ℕ) =
      scan_word (length line + 1) line pos >>= λ e. ok (plain token_word pos, e) in
    if is_digit c && (next == b'<' || next == b'>')
    then ok (redirect (c - b'0') kind1 pos, end1)
    else if c == b'<' || c == b'>'
    then ok (redirect (if c == b'<' then 0 else 1) kind pos, end)
    else if c == b'|'
    then (if next == b'|'
        then ok (plain token_or pos, pos + 2)
        else ok (plain token_pipe pos, pos + 1))
    else if c == b'&'
    then if next == b'&'
      then ok (plain token_and pos, pos + 2)
      else ok (plain token_background pos, pos + 1)
    else if c == b';'
    then ok (plain token_sequence pos, pos + 1)
    else word

-- The inner loop of `lexer_tokenize` over what stands before a token.
pub skip_blanks : ℕ → List ℕ → ℕ → ℕ
skip_blanks zero line pos = pos
skip_blanks (suc fuel) line pos =
    let blank = is_blank (byte line pos) in
    let rest = skip_blanks fuel line (if blank then pos + 1 else pos + 2) in
    if blank || is_line_continuation line pos then rest else pos

pub final : ℕ → Token
final pos = plain token_end (if ltb pos line_max then pos else line_max)

-- The loop of `lexer_tokenize` at `pos` with `count` tokens so far: the tokens from there on.
pub tokenize_loop : ℕ → List ℕ → ℕ → ℕ → Run LexError (List Token)
tokenize_loop zero line pos count = out_of_fuel
tokenize_loop (suc fuel) line pos count =
    let start = skip_blanks (length line) line pos in
    let c = byte line start in
    let more = tokenize_loop fuel line in
    let next : Run LexError (List Token) = scan_token line start >>= λ (token, end).
    if ltb line_max end
    then error line_too_long
    else if leb (max_tokens - 1) count
    then error too_many_tokens
    else more end (count + 1) >>= λ tokens.
        ok (record token { length = (end - start) % 2 ^ 16 } ∷ tokens) in
    if c == 0 || c == b'#'
    then ok (final start ∷ [])
    else if leb line_max start
    then error line_too_long
    else next

pub tokenize : List ℕ → Run LexError (List Token)
tokenize line = tokenize_loop (length line + 1) line 0 0
