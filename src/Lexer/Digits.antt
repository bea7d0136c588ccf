-- ===== src/Lexer/Digits.antt =====
-- Decimal numbers as src/lexer/lexer.c reads them in front of a space.
use holy_d.Prelude.{ℕ, ◌≡◌, refl, ap, ◌∙◌, true, false, List, [], ◌∷◌, ◌++◌, arith}
use holy_d.Syntax.Token.{number_tok}
use holy_d.Lexer.Cursor.{Lexer, first, peek, advance, is_digit, is_space, make_token}
use holy_d.Lexer.Scan.{
  finish, while_byte, number, decimal_number, at_fraction, at_exponent, exponent_mark,
}
use holy_d.Lexer.Next.{begin_token, lexer_next_token, scan_token}
use holy_d.Lexer.Words.{all_bytes, next_token-begins, while_byte-Behind, begins, begin-rest}

-- The digits of a number without a fraction and an exponent are all of it.
decimal_number-plain :
    (l : Lexer)
    → at_fraction (while_byte is_digit l) ≡ false
    → at_exponent (while_byte is_digit l) ≡ false
    → decimal_number l ≡ finish number_tok (while_byte is_digit l)
unfolding decimal_number
decimal_number-plain l h k = rw (h) (rw (k) refl)

space-ends : (l : Lexer) → peek l ≡ b' ' → (at_fraction l ≡ false) × (at_exponent l ≡ false)
unfolding at_fraction at_exponent exponent_mark
space-ends l h = (ground arith, ground arith)

number-decimal :
    (l : Lexer) (w r : List ℕ)
    → l.rest ≡ w ++ b' ' ∷ r
    → all_bytes is_digit w ≡ true
    → number l ≡ decimal_number l
unfolding number peek first all_bytes is_digit
number-decimal l [] r e h = rw e (ground arith)
number-decimal l (c ∷ w) r e h = rw e (ground arith)

scan_token-digit : (c : ℕ) (l : Lexer) → is_digit c ≡ true → scan_token c l ≡ number l
unfolding scan_token is_digit
scan_token-digit c l h = ground arith

digit-begins : (c : ℕ) → is_digit c ≡ true → begins c ≡ true
unfolding is_digit begins is_space
digit-begins c h = ground arith

space-digit : (r : List ℕ) → is_digit (first (b' ' ∷ r)) ≡ false
unfolding is_digit first
space-digit r = refl

peek-at : (l : Lexer) (c : ℕ) (r : List ℕ) → l.rest ≡ c ∷ r → peek l ≡ c
unfolding peek first
peek-at l c r e = ap first e

-- Digits in front of a space are one number, and the space is left.
pub next_token-digits :
    (l : Lexer) (c : ℕ) (w r : List ℕ)
    → l.rest ≡ c ∷ w ++ b' ' ∷ r
    → is_digit c ≡ true
    → all_bytes is_digit w ≡ true
    → ((lexer_next_token l).0.token_type ≡ number_tok) × ((lexer_next_token l).1.rest ≡ b' ' ∷ r)
unfolding finish make_token
next_token-digits l c w r e d h =
    let b = advance (begin_token l) in
    let one : b.rest ≡ w ++ b' ' ∷ r = begin-rest l c (w ++ b' ' ∷ r) e in
    let all = while_byte-Behind is_digit w (b' ' ∷ r) b one h (space-digit r) in
    let stops =
      space-ends (while_byte is_digit b) (peek-at (while_byte is_digit b) b' ' r all.rest_is) in
    rw
      (next_token-begins l c (w ++ b' ' ∷ r) e (digit-begins c d)
        ∙ scan_token-digit c b d
        ∙ number-decimal b w r one h
        ∙ decimal_number-plain b stops.0 stops.1)
      (refl, all.rest_is)
