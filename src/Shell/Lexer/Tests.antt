-- ===== src/Shell/Lexer/Tests.antt =====
-- userspace/shell/lexer.c: runs on short lines.
use hydrogen_os.Prelude.{ℕ, ◌≡◌, refl, List, [], ◌∷◌}
use hydrogen_os.Shell.{
  ok, error, token_word, token_pipe, token_background, token_redirect, token_end, redirect_input,
  redirect_duplicate,
}
use hydrogen_os.Shell.Lexer.{
  unterminated_single, single_end, double_end, word_step, scan_word, scan_redirect, scan_token,
  skip_blanks, final, tokenize_loop, tokenize,
}
use hydrogen_os.Shell.Lexer.Whole.{Tokenized, tokenize_lem}

-- `a 2>&b |`
abbrev redirected : List ℕ
redirected = b'a' ∷ b' ' ∷ b'2' ∷ b'>' ∷ b'&' ∷ b'b' ∷ b' ' ∷ b'|' ∷ []

redirected_tokens :
    tokenize redirected
    ≡ ok (
        record {
          type = token_word;
          redirect_kind = redirect_input;
          redirect_fd = 0;
          start = 0;
          length = 1;
        }
        ∷ record {
          type = token_redirect;
          redirect_kind = redirect_duplicate;
          redirect_fd = 2;
          start = 2;
          length = 3;
        }
        ∷ record {
          type = token_word;
          redirect_kind = redirect_input;
          redirect_fd = 0;
          start = 5;
          length = 1;
        }
        ∷ record {
          type = token_pipe;
          redirect_kind = redirect_input;
          redirect_fd = 0;
          start = 7;
          length = 1;
        }
        ∷ record {
          type = token_end;
          redirect_kind = redirect_input;
          redirect_fd = 0;
          start = 8;
          length = 0;
        }
        ∷ [])
unfolding tokenize tokenize_loop skip_blanks scan_token scan_redirect scan_word word_step single_end
    double_end final
redirected_tokens = refl

-- `'a&b'"\""&` is one word and an operator.
quoted_tokens :
    tokenize (b'\'' ∷ b'a' ∷ b'&' ∷ b'\'' ∷ b'"' ∷ b'\\' ∷ b'"' ∷ b'"' ∷ b'&' ∷ [])
    ≡ ok (
        record {
          type = token_word;
          redirect_kind = redirect_input;
          redirect_fd = 0;
          start = 0;
          length = 8;
        }
        ∷ record {
          type = token_background;
          redirect_kind = redirect_input;
          redirect_fd = 0;
          start = 8;
          length = 1;
        }
        ∷ record {
          type = token_end;
          redirect_kind = redirect_input;
          redirect_fd = 0;
          start = 9;
          length = 0;
        }
        ∷ [])
unfolding tokenize tokenize_loop skip_blanks scan_token scan_redirect scan_word word_step single_end
    double_end final
quoted_tokens = refl

-- `'a` has no closing quote.
unterminated : tokenize (b'\'' ∷ b'a' ∷ []) ≡ error unterminated_single
unfolding tokenize tokenize_loop skip_blanks scan_token scan_redirect scan_word word_step single_end
    double_end
unterminated = refl

tokenize_lem_example : Tokenized redirected 0 0 (tokenize redirected)
tokenize_lem_example = tokenize_lem redirected
