-- ===== src/Lexer/Spelling.antt =====
-- The spellings of the operators that src/lexer/lexer.h gives beside the token types, and what
-- LexerNextToken of src/lexer/lexer.c reads from them.
use mathlib.Core.Path.{subst}
use holy_d.Prelude.{ℕ, ◌≡◌, refl, List, ◌∷◌, ◌++◌, Option, none, some}
use holy_d.Prelude.Text.{bytes}
use holy_d.Syntax.Token.{
  TokenType, lparen_tok, rparen_tok, lbrace_tok, rbrace_tok, lbracket_tok, rbracket_tok,
  semicolon_tok, colon_tok, question_tok, dollar_tok, at_tok, comma_tok, plusplus_tok,
  minusminus_tok, plus_tok, minus_tok, star_tok, slash_tok, percent_tok, pow_tok, tilde_tok,
  bang_tok, andand_tok, oror_tok, eqeq_tok, neq_tok, lt_tok, gt_tok, lteq_tok, gteq_tok,
  ampersand_tok, or_tok, xor_tok, shl_tok, shr_tok, ushr_tok, assign_tok, plus_assign_tok,
  minus_assign_tok, star_assign_tok, slash_assign_tok, percent_assign_tok, pow_assign_tok,
  tilde_assign_tok, and_assign_tok, or_assign_tok, xor_assign_tok, shl_assign_tok, shr_assign_tok,
  ushr_assign_tok, dot_tok, dotdot_tok, dotdotdot_tok, lambda_tok,
}
use holy_d.Lexer.Cursor.{
  Lexer, first, peek, peek_next, advance, is_space, is_digit, is_alpha, make_token, matched, repeat,
}
use holy_d.Lexer.Scan.{finish, skip_one, skip_whitespace}
use holy_d.Lexer.Next.{
  assigned, punctuation, angle_right, dots, operator, scan_token, begin_token, lexer_next_token,
}

unfoldable pub spelling : TokenType → Option (List ℕ)
spelling lparen_tok = some (bytes "(")
spelling rparen_tok = some (bytes ")")
spelling lbrace_tok = some (bytes "{")
spelling rbrace_tok = some (bytes "}")
spelling lbracket_tok = some (bytes "[")
spelling rbracket_tok = some (bytes "]")
spelling semicolon_tok = some (bytes ";")
spelling colon_tok = some (bytes ":")
spelling question_tok = some (bytes "?")
spelling dollar_tok = some (bytes "$")
spelling at_tok = some (bytes "@")
spelling comma_tok = some (bytes ",")
spelling plusplus_tok = some (bytes "++")
spelling minusminus_tok = some (bytes "--")
spelling plus_tok = some (bytes "+")
spelling minus_tok = some (bytes "-")
spelling star_tok = some (bytes "*")
spelling slash_tok = some (bytes "/")
spelling percent_tok = some (bytes "%")
spelling pow_tok = some (bytes "^^")
spelling tilde_tok = some (bytes "~")
spelling bang_tok = some (bytes "!")
spelling andand_tok = some (bytes "&&")
spelling oror_tok = some (bytes "||")
spelling eqeq_tok = some (bytes "==")
spelling neq_tok = some (bytes "!=")
spelling lt_tok = some (bytes "<")
spelling gt_tok = some (bytes ">")
spelling lteq_tok = some (bytes "<=")
spelling gteq_tok = some (bytes ">=")
spelling ampersand_tok = some (bytes "&")
spelling or_tok = some (bytes "|")
spelling xor_tok = some (bytes "^")
spelling shl_tok = some (bytes "<<")
spelling shr_tok = some (bytes ">>")
spelling ushr_tok = some (bytes ">>>")
spelling assign_tok = some (bytes "=")
spelling plus_assign_tok = some (bytes "+=")
spelling minus_assign_tok = some (bytes "-=")
spelling star_assign_tok = some (bytes "*=")
spelling slash_assign_tok = some (bytes "/=")
spelling percent_assign_tok = some (bytes "%=")
spelling pow_assign_tok = some (bytes "^^=")
spelling tilde_assign_tok = some (bytes "~=")
spelling and_assign_tok = some (bytes "&=")
spelling or_assign_tok = some (bytes "|=")
spelling xor_assign_tok = some (bytes "^=")
spelling shl_assign_tok = some (bytes "<<=")
spelling shr_assign_tok = some (bytes ">>=")
spelling ushr_assign_tok = some (bytes ">>>=")
spelling dot_tok = some (bytes ".")
spelling dotdot_tok = some (bytes "..")
spelling dotdotdot_tok = some (bytes "...")
spelling lambda_tok = some (bytes "=>")
spelling _ = none

-- The lexer in front of another text.
abbrev pub facing : Lexer → List ℕ → Lexer
facing l text = record l { rest = text }

-- The lexer reads a spelling in front of a space as its token and leaves the space.
unfoldable pub Reads : Lexer → List ℕ → TokenType → Option (List ℕ) → Type 0
Reads l r kind none = Unit {0}
Reads l r kind (some s) =
    ((lexer_next_token (facing l (s ++ b' ' ∷ r))).0.token_type ≡ kind)
    × ((lexer_next_token (facing l (s ++ b' ' ∷ r))).1.rest ≡ b' ' ∷ r)

spelling-Reads : (l : Lexer) (r : List ℕ) (kind : TokenType) → Reads l r kind (spelling kind)
unfolding Reads spelling lexer_next_token scan_token operator punctuation angle_right dots assigned
    matched finish make_token begin_token skip_whitespace skip_one repeat advance peek peek_next
    first is_space is_digit is_alpha
spelling-Reads l r lparen_tok = (refl, refl)
spelling-Reads l r rparen_tok = (refl, refl)
spelling-Reads l r lbrace_tok = (refl, refl)
spelling-Reads l r rbrace_tok = (refl, refl)
spelling-Reads l r lbracket_tok = (refl, refl)
spelling-Reads l r rbracket_tok = (refl, refl)
spelling-Reads l r semicolon_tok = (refl, refl)
spelling-Reads l r colon_tok = (refl, refl)
spelling-Reads l r question_tok = (refl, refl)
spelling-Reads l r dollar_tok = (refl, refl)
spelling-Reads l r at_tok = (refl, refl)
spelling-Reads l r comma_tok = (refl, refl)
spelling-Reads l r plusplus_tok = (refl, refl)
spelling-Reads l r minusminus_tok = (refl, refl)
spelling-Reads l r plus_tok = (refl, refl)
spelling-Reads l r minus_tok = (refl, refl)
spelling-Reads l r star_tok = (refl, refl)
spelling-Reads l r slash_tok = (refl, refl)
spelling-Reads l r percent_tok = (refl, refl)
spelling-Reads l r pow_tok = (refl, refl)
spelling-Reads l r tilde_tok = (refl, refl)
spelling-Reads l r bang_tok = (refl, refl)
spelling-Reads l r andand_tok = (refl, refl)
spelling-Reads l r oror_tok = (refl, refl)
spelling-Reads l r eqeq_tok = (refl, refl)
spelling-Reads l r neq_tok = (refl, refl)
spelling-Reads l r lt_tok = (refl, refl)
spelling-Reads l r gt_tok = (refl, refl)
spelling-Reads l r lteq_tok = (refl, refl)
spelling-Reads l r gteq_tok = (refl, refl)
spelling-Reads l r ampersand_tok = (refl, refl)
spelling-Reads l r or_tok = (refl, refl)
spelling-Reads l r xor_tok = (refl, refl)
spelling-Reads l r shl_tok = (refl, refl)
spelling-Reads l r shr_tok = (refl, refl)
spelling-Reads l r ushr_tok = (refl, refl)
spelling-Reads l r assign_tok = (refl, refl)
spelling-Reads l r plus_assign_tok = (refl, refl)
spelling-Reads l r minus_assign_tok = (refl, refl)
spelling-Reads l r star_assign_tok = (refl, refl)
spelling-Reads l r slash_assign_tok = (refl, refl)
spelling-Reads l r percent_assign_tok = (refl, refl)
spelling-Reads l r pow_assign_tok = (refl, refl)
spelling-Reads l r tilde_assign_tok = (refl, refl)
spelling-Reads l r and_assign_tok = (refl, refl)
spelling-Reads l r or_assign_tok = (refl, refl)
spelling-Reads l r xor_assign_tok = (refl, refl)
spelling-Reads l r shl_assign_tok = (refl, refl)
spelling-Reads l r shr_assign_tok = (refl, refl)
spelling-Reads l r ushr_assign_tok = (refl, refl)
spelling-Reads l r dot_tok = (refl, refl)
spelling-Reads l r dotdot_tok = (refl, refl)
spelling-Reads l r dotdotdot_tok = (refl, refl)
spelling-Reads l r lambda_tok = (refl, refl)
spelling-Reads l r _ = tt

-- An operator's spelling in front of a space is read as that operator, and the space is left.
pub next_token-spelling :
    (l : Lexer) (kind : TokenType) (s r : List ℕ)
    → spelling kind ≡ some s
    → ((lexer_next_token (facing l (s ++ b' ' ∷ r))).0.token_type ≡ kind)
      × ((lexer_next_token (facing l (s ++ b' ' ∷ r))).1.rest ≡ b' ' ∷ r)
unfolding Reads
next_token-spelling l kind s r h = subst (Reads l r kind) h (spelling-Reads l r kind)
