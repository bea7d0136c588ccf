-- ===== src/Lexer/Scan.antt =====
-- The loops of src/lexer/lexer.c: whitespace and comments, quoted literals, numbers, identifiers.
use holy_d.Prelude.{
  ℕ, ◌-◌, Bool, not, ◌&&◌, ◌||◌, Option, none, some, ◌==◌, if◌then◌else◌, length, take,
}
use holy_d.Syntax.Token.{TokenType, number_tok, float_tok, unknown_tok}
use holy_d.Lexer.Cursor.{
  Token, Lexer, peek, peek_next, peek_next_next, advance, repeat, make_token, is_digit,
  is_hex_digit, is_alnum, is_space, first,
}
use holy_d.Lexer.Keywords.{keywords, keyword_lookup}

-- `while (test) advance`, with the bytes that are left as fuel.
unfoldable pub while_byte : (ℕ → Bool) → Lexer → Lexer
while_byte test l = repeat (λ l. if test (peek l) then some (advance l) else none) (length l.rest) l

unfoldable pub in_line_comment : ℕ → Bool
in_line_comment c = not (c == b'\n') && not (c == 0)

unfoldable pub line_comment : Lexer → Lexer
line_comment l = while_byte in_line_comment l

unfoldable pub comment_body : Lexer → Option Lexer
comment_body l =
    if not (peek l == b'*' && peek_next l == b'/') && not (peek l == 0)
    then some (advance l)
    else none

unfoldable pub block_comment : Lexer → Lexer
block_comment l =
    let l = advance (advance l) in
    let l = repeat comment_body (length l.rest) l in
    if peek l == b'*' then advance (advance l) else l

-- One turn of the loop of `skip_whitespace`, nothing where it breaks.
unfoldable pub skip_one : Lexer → Option Lexer
skip_one l =
    if is_space (peek l)
    then some (advance l)
    else if peek l == b'\n'
    then some (advance l)
    else if peek l == b'/' && peek_next l == b'/'
    then some (line_comment l)
    else if peek l == b'/' && peek_next l == b'*'
    then some (block_comment l)
    else none

unfoldable pub skip_whitespace : Lexer → Lexer
skip_whitespace l = repeat skip_one (length l.rest) l

abbrev pub Scanned : Type 0
Scanned = Token × Lexer

unfoldable pub finish : TokenType → Lexer → Scanned
finish type l = (make_token l type, l)

unfoldable pub quoted_body : ℕ → Lexer → Option Lexer
quoted_body quote l =
    if not (peek l == quote) && not (peek l == 0)
    then some (advance (if peek l == b'\\' && not (peek_next l == 0) then advance l else l))
    else none

unfoldable pub quoted : ℕ → TokenType → Lexer → Scanned
quoted quote type l =
    let l = repeat (quoted_body quote) (length l.rest) l in
    if peek l == 0 then finish unknown_tok l else finish type (advance l)

unfoldable pub sign : ℕ → Bool
sign c = c == b'+' || c == b'-'

unfoldable pub exponent_mark : ℕ → Bool
exponent_mark c = c == b'e' || c == b'E'

unfoldable pub at_fraction : Lexer → Bool
at_fraction l = peek l == b'.' && is_digit (peek_next l)

unfoldable pub at_exponent : Lexer → Bool
at_exponent l =
    exponent_mark (peek l)
    && (is_digit (peek_next l) || sign (peek_next l) && is_digit (peek_next_next l))

unfoldable pub exponent : Lexer → Lexer
exponent l =
    let l = advance l in let l = if sign (peek l) then advance l else l in while_byte is_digit l

unfoldable pub hex_number : Lexer → Scanned
hex_number l = finish number_tok (while_byte is_hex_digit (advance l))

unfoldable pub decimal_number : Lexer → Scanned
decimal_number l =
    let whole = while_byte is_digit l in
    let fraction = if at_fraction whole then while_byte is_digit (advance whole) else whole in
    let last = if at_exponent fraction then exponent fraction else fraction in
    finish (if at_fraction whole || at_exponent fraction then float_tok else number_tok) last

unfoldable pub number : Lexer → Scanned
number l =
    if first l.start_text == b'0' && (peek l == b'x' || peek l == b'X')
    then hex_number l
    else decimal_number l

unfoldable pub identifier : Lexer → Scanned
identifier l =
    let l = while_byte is_alnum l in
    finish (keyword_lookup keywords (take (l.current - l.start) l.start_text)) l
