-- ===== src/Tests/Lexing.antt =====
-- The lexer's properties at concrete inputs.
use holy_d.Prelude.{ℕ, ◌≡◌, refl, same_bytes, true, none, List, [], ◌∷◌, map, arith}
use holy_d.Prelude.Text.{bytes}
use holy_d.Syntax.Token.{
  return_kw, identifier_tok, plus_assign_tok, number_tok, semicolon_tok, string_tok, eof_tok,
}
use holy_d.Lexer.Cursor.{lexer_init, is_alpha, is_alnum, is_digit, first}
use holy_d.Lexer.Keywords.{keywords, keyword_lookup, Keyword}
use holy_d.Lexer.Next.{dump_tokens, lexer_next_token}
use holy_d.Lexer.Dump.{dump_tokens-Chained, dump_tokens-ends, Chained, ends_once}
use holy_d.Lexer.Words.{next_token-word, all_bytes}
use holy_d.Lexer.NameLaws.{token_type_to_string-inj}
use holy_d.Lexer.Spelling.{spelling}
use holy_d.Lexer.RoundTrip.{
  dump_tokens-Text, Text, no_text, more_text, operator_text, keyword_text, identifier_text,
  number_text,
}
use holy_d.Lexer.Quotes.{next_token-literal, IsQuoted, behind_quote, literal}

abbrev commented : List ℕ
commented = bytes "x // y\n += 1.5e3;"

dump_tokens-Chained_example : Chained commented 0 (dump_tokens 4 (lexer_init commented))
dump_tokens-Chained_example = dump_tokens-Chained commented 4

dump_tokens-ends_example :
    (ends_once (dump_tokens 30 (lexer_init commented)) ≡ true)
    × (dump_tokens 30 (lexer_init commented) ≡ dump_tokens 18 (lexer_init commented))
dump_tokens-ends_example = dump_tokens-ends commented 30 (omega arith)

abbrev statement : List ℕ
statement = bytes "return total += 10 ; "

abbrev return_keyword : Keyword
return_keyword = record { spelling = bytes "return"; keyword_type = return_kw }

statement-Text :
    Text (return_kw ∷ identifier_tok ∷ plus_assign_tok ∷ number_tok ∷ semicolon_tok ∷ []) statement
unfolding keywords keyword_lookup same_bytes is_alpha is_alnum is_digit all_bytes spelling
statement-Text = more_text (keyword_text 24 return_keyword refl) (
    more_text (identifier_text b't' (bytes "otal") refl refl refl) (
      more_text (operator_text plus_assign_tok (bytes "+=") refl) (
        more_text (number_text b'1' (bytes "0") refl refl)
          (more_text (operator_text semicolon_tok (bytes ";") refl) no_text))))

dump_tokens-Text_example :
    map (λ t. t.token_type) (dump_tokens 22 (lexer_init statement))
    ≡ return_kw ∷ identifier_tok ∷ plus_assign_tok ∷ number_tok ∷ semicolon_tok ∷ eof_tok ∷ []
dump_tokens-Text_example =
    dump_tokens-Text
      (return_kw ∷ identifier_tok ∷ plus_assign_tok ∷ number_tok ∷ semicolon_tok ∷ []) statement 22
      statement-Text (omega arith)

abbrev unclosed : List ℕ
unclosed = bytes "a\\\"b"

next_token-literal_example :
    IsQuoted string_tok
      (behind_quote b'"' unclosed)
      (lexer_next_token (lexer_init (b'"' ∷ unclosed))).0.token_type
      (lexer_next_token (lexer_init (b'"' ∷ unclosed))).1.rest
unfolding literal lexer_init
next_token-literal_example =
    next_token-literal (lexer_init (b'"' ∷ unclosed)) b'"' unclosed string_tok refl refl

unclosed_unfinished : behind_quote b'"' unclosed ≡ none
unfolding behind_quote
unclosed_unfinished = refl

next_token-word_example :
    ((lexer_next_token (lexer_init (bytes "iffy+1"))).0.token_type
      ≡ keyword_lookup keywords (bytes "iffy"))
    × ((lexer_next_token (lexer_init (bytes "iffy+1"))).0.text ≡ bytes "iffy")
    × ((lexer_next_token (lexer_init (bytes "iffy+1"))).1.rest ≡ bytes "+1")
unfolding lexer_init is_alpha is_alnum is_digit all_bytes first
next_token-word_example =
    next_token-word (lexer_init (bytes "iffy+1")) b'i' (bytes "ffy") (bytes "+1") refl refl refl
      refl

token_type_to_string-inj_example : return_kw ≡ return_kw
token_type_to_string-inj_example = token_type_to_string-inj return_kw return_kw refl
