-- ===== src/Lexer/Next.antt =====
-- LexerNextToken of src/lexer/lexer.c, and the loop of dump_tokens in src/main.c that takes tokens
-- up to the end of the file.
use holy_d.Prelude.{ℕ, zero, suc, Bool, true, false, ◌&&◌, List, [], ◌∷◌, ◌==◌, if◌then◌else◌}
use holy_d.Syntax.Token.{
  TokenType, ampersand_tok, and_assign_tok, andand_tok, assign_tok, at_tok, bang_tok, char_tok,
  colon_tok, comma_tok, dollar_tok, dot_tok, dotdot_tok, dotdotdot_tok, eof_tok, eqeq_tok, gt_tok,
  gteq_tok, lambda_tok, lbrace_tok, lbracket_tok, lparen_tok, lt_tok, lteq_tok, minus_assign_tok,
  minus_tok, minusminus_tok, neq_tok, newline_tok, or_assign_tok, or_tok, oror_tok,
  percent_assign_tok, percent_tok, plus_assign_tok, plus_tok, plusplus_tok, pow_assign_tok, pow_tok,
  question_tok, rbrace_tok, rbracket_tok, rparen_tok, semicolon_tok, shl_assign_tok, shl_tok,
  shr_assign_tok, shr_tok, slash_assign_tok, slash_tok, star_assign_tok, star_tok, string_tok,
  tilde_assign_tok, tilde_tok, unknown_tok, ushr_assign_tok, ushr_tok, xor_assign_tok, xor_tok,
}
use holy_d.Lexer.Cursor.{Token, Lexer, peek, peek_next, advance, matched, is_digit, is_alpha}
use holy_d.Lexer.Scan.{Scanned, finish, while_byte, number, identifier, quoted, skip_whitespace}

unfoldable pub assigned : TokenType → TokenType → Lexer → Scanned
assigned with_assign plain l = matched l b'=' (finish with_assign) (finish plain l)

-- The one-byte tokens of the switch.
unfoldable pub punctuation : ℕ → Lexer → Scanned → Scanned
punctuation c l other =
    if c == b'('
    then finish lparen_tok l
    else if c == b')'
    then finish rparen_tok l
    else if c == b'{'
    then finish lbrace_tok l
    else if c == b'}'
    then finish rbrace_tok l
    else if c == b'['
    then finish lbracket_tok l
    else if c == b']'
    then finish rbracket_tok l
    else if c == b';'
    then finish semicolon_tok l
    else if c == b':'
    then finish colon_tok l
    else if c == b'?'
    then finish question_tok l
    else if c == b'$'
    then finish dollar_tok l
    else if c == b'@'
    then finish at_tok l
    else if c == b','
    then finish comma_tok l
    else other

unfoldable pub angle_right : Lexer → Scanned
angle_right l =
    matched l b'>'
      (λ l. matched l b'>' (assigned ushr_assign_tok ushr_tok) (assigned shr_assign_tok shr_tok l))
      (assigned gteq_tok gt_tok l)

unfoldable pub dots : Lexer → Scanned
dots l =
    if peek l == b'.' && peek_next l == b'.'
    then finish dotdotdot_tok (advance (advance l))
    else if peek l == b'.'
    then finish dotdot_tok (advance l)
    else finish dot_tok l

-- The operators and quotes of the switch, an unknown token for any other byte.
unfoldable pub operator : ℕ → Lexer → Scanned
operator c l =
    if c == b'+'
    then matched l b'+' (finish plusplus_tok) (assigned plus_assign_tok plus_tok l)
    else if c == b'-'
    then matched l b'-' (finish minusminus_tok) (assigned minus_assign_tok minus_tok l)
    else if c == b'*'
    then assigned star_assign_tok star_tok l
    else if c == b'/'
    then assigned slash_assign_tok slash_tok l
    else if c == b'%'
    then assigned percent_assign_tok percent_tok l
    else if c == b'~'
    then assigned tilde_assign_tok tilde_tok l
    else if c == b'&'
    then matched l b'&' (finish andand_tok) (assigned and_assign_tok ampersand_tok l)
    else if c == b'|'
    then matched l b'|' (finish oror_tok) (assigned or_assign_tok or_tok l)
    else if c == b'^'
    then matched l b'^' (assigned pow_assign_tok pow_tok) (assigned xor_assign_tok xor_tok l)
    else if c == b'!'
    then assigned neq_tok bang_tok l
    else if c == b'='
    then matched l b'>' (finish lambda_tok) (assigned eqeq_tok assign_tok l)
    else if c == b'<'
    then matched l b'<' (assigned shl_assign_tok shl_tok) (assigned lteq_tok lt_tok l)
    else if c == b'>'
    then angle_right l
    else if c == b'"'
    then quoted b'"' string_tok l
    else if c == b'\''
    then quoted b'\'' char_tok l
    else if c == b'.'
    then dots l
    else finish unknown_tok l

-- What is behind the first byte `c` of a token.
unfoldable pub scan_token : ℕ → Lexer → Scanned
scan_token c l =
    if c == b'\n'
    then finish newline_tok (while_byte (λ d. d == b'\n') l)
    else if is_digit c
    then number l
    else if is_alpha c
    then identifier l
    else punctuation c l (operator c l)

unfoldable pub begin_token : Lexer → Lexer
begin_token l = record l {
  start = l.current;
  start_text = l.rest;
  token_line = l.line;
  token_column = l.column;
}

unfoldable pub lexer_next_token : Lexer → Scanned
lexer_next_token l =
    let l = begin_token (skip_whitespace l) in
    if peek l == 0 then finish eof_tok l else scan_token (peek l) (advance l)

unfoldable pub is_eof : TokenType → Bool
is_eof eof_tok = true
is_eof _ = false

-- The tokens that `dump_tokens` prints, the end of the file last; the loop takes as many as the
-- fuel says.
unfoldable pub dump_tokens : ℕ → Lexer → List Token
dump_tokens zero l = []
dump_tokens (suc n) l =
    let (token, after) = lexer_next_token l in
    let rest = dump_tokens n after in token ∷ (if is_eof token.token_type then [] else rest)
