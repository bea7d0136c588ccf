-- ===== src/Lexer/Scans.antt =====
-- The branches of LexerNextToken of src/lexer/lexer.c: each makes its token where it stops, of a
-- type that is not the end of the file, after steps over bytes of the source only.
use holy_d.Prelude.{
  ℕ, ◌≡◌, refl, Bool, true, false, not, ◌&&◌, ◌||◌, List, [], ◌∷◌, inl, inr, ◌==◌, if◌then◌else◌,
  length, arith, Bool-cases, same_bytes,
}
use holy_d.Syntax.Token.{TokenType, unknown_tok, number_tok, float_tok}
use holy_d.Lexer.Cursor.{
  Lexer, first, peek, advance, is_digit, is_hex_digit, is_alpha, is_alnum, make_token, matched,
  repeat,
}
use holy_d.Lexer.Keywords.{keywords, keyword_lookup, Keyword}
use holy_d.Lexer.Scan.{
  Scanned, finish, while_byte, at_fraction, at_exponent, exponent, sign, exponent_mark, hex_number,
  decimal_number, number, identifier, quoted, quoted_body,
}
use holy_d.Lexer.Next.{assigned, is_eof}
use holy_d.Lexer.Moves.{
  Moves, Further-Moves, Further-advance, Moves-trans, Moves-while_byte, Moves-repeat,
  Further-tested,
}
use holy_d.Lexer.Turns.{quoted_body-Turns}

pub record Scans (l : Lexer) (r : Scanned) : Type 0 where
  pub kind : TokenType
  pub moved : Moves l r.1
  pub token_is : r.0 ≡ make_token r.1 kind
  pub goes_on : is_eof kind ≡ false

pub finish-Scans :
    {l m : Lexer} (kind : TokenType) → Moves l m → is_eof kind ≡ false → Scans l (finish kind m)
unfolding finish
finish-Scans kind t h = record { kind = kind; moved = t; token_is = refl; goes_on = h }

pub if-Scans :
    {l : Lexer} {a b : Scanned} (c : Bool) → Scans l a → Scans l b → Scans l (if c then a else b)
if-Scans true s t = s
if-Scans false s t = t

pub from-Scans : {l m : Lexer} {r : Scanned} → Moves l m → Scans m r → Scans l r
from-Scans t s = record {
  kind = s.kind;
  moved = Moves-trans t s.moved;
  token_is = s.token_is;
  goes_on = s.goes_on;
}

step-Moves : (l : Lexer) (c : ℕ) → (c == 0) ≡ false → (peek l == c) ≡ true → Moves l (advance l)
step-Moves l c h k = Further-Moves (Further-advance l (ground arith))

pub matched-Scans :
    {l m : Lexer} {found : Lexer → Scanned} {missing : Scanned} (c : ℕ)
    → (c == 0) ≡ false
    → Moves l m
    → ((n : Lexer) → Moves l n → Scans l (found n))
    → Scans l missing
    → Scans l (matched m c found missing)
unfolding matched
matched-Scans {m = m} c h t found missing = elim (Bool-cases (peek m == c)) [
  | inl e ↦ rw e (found (advance m) (Moves-trans t (step-Moves m c h e)))
  | inr e ↦ rw e missing
]

pub assigned-Scans :
    {l : Lexer} (a b : TokenType)
    → is_eof a ≡ false
    → is_eof b ≡ false
    → (m : Lexer) → Moves l m
    → Scans l (assigned a b m)
unfolding assigned
assigned-Scans a b h k m t =
    matched-Scans b'=' refl t (λ n u. finish-Scans a u h) (finish-Scans b t k)

pub quoted-Scans :
    (q : ℕ) (kind : TokenType) → is_eof kind ≡ false → (l : Lexer) → Scans l (quoted q kind l)
unfolding quoted is_eof
quoted-Scans q kind h l =
    let t = Moves-repeat (quoted_body q) (quoted_body-Turns q) (length l.rest) l in
    let m = repeat (quoted_body q) (length l.rest) l in
    elim (Bool-cases (peek m == 0)) [
      | inl e ↦ rw e (finish-Scans unknown_tok t refl)
      | inr e ↦ rw e (finish-Scans kind (Moves-trans t (Further-Moves (Further-advance m e))) h)
    ]

-- A part of a number that may be missing.
part-Moves :
    {l m n : Lexer} (c : Bool) → Moves l m → (c ≡ true → Moves m n) → Moves l (if c then n else m)
part-Moves true t part = Moves-trans t (part refl)
part-Moves false t part = t

digits-Moves : (l : Lexer) → Moves l (while_byte is_digit l)
unfolding is_digit
digits-Moves l = Moves-while_byte is_digit refl l

exponent-Moves : (l : Lexer) → at_exponent l ≡ true → Moves l (exponent l)
unfolding exponent sign at_exponent exponent_mark
exponent-Moves l h =
    let mark = Further-Moves (Further-advance l (ground arith)) in
    Moves-trans
      (part-Moves (sign (peek (advance l))) mark
        (λ e. Further-Moves (Further-tested sign (advance l) refl e)))
      (digits-Moves _)

fraction-Moves : (l : Lexer) → at_fraction l ≡ true → Moves l (while_byte is_digit (advance l))
unfolding at_fraction
fraction-Moves l h =
    Moves-trans (Further-Moves (Further-advance l (ground arith))) (digits-Moves (advance l))

decimal_number-Scans : (l : Lexer) → Scans l (decimal_number l)
unfolding decimal_number is_eof
decimal_number-Scans l =
    let whole = while_byte is_digit l in
    let fraction = if at_fraction whole then while_byte is_digit (advance whole) else whole in
    let to_fraction : Moves l fraction =
      part-Moves (at_fraction whole) (digits-Moves l) (fraction-Moves whole) in
    let to_end = part-Moves (at_exponent fraction) to_fraction (exponent-Moves fraction) in
    elim (Bool-cases (at_fraction whole || at_exponent fraction)) [
      | inl e ↦ rw e (finish-Scans float_tok to_end refl)
      | inr e ↦ rw e (finish-Scans number_tok to_end refl)
    ]

pub number-Scans : (l : Lexer) → Scans l (number l)
unfolding number hex_number is_hex_digit is_digit is_eof
number-Scans l =
    elim (Bool-cases (first l.start_text == b'0' && (peek l == b'x' || peek l == b'X'))) [
      | inl e ↦ rw e (
          finish-Scans number_tok
            (Moves-trans (Further-Moves (Further-advance l (ground arith)))
              (Moves-while_byte is_hex_digit refl (advance l)))
            refl)
      | inr e ↦ rw e (decimal_number-Scans l)
    ]

-- No keyword of a table is the end of the file.
go_on : List Keyword → Bool
go_on [] = true
go_on (k ∷ ks) = not (is_eof k.keyword_type) && go_on ks

keyword_lookup-is_eof :
    (ks : List Keyword) (text : List ℕ) → go_on ks ≡ true → is_eof (keyword_lookup ks text) ≡ false
unfolding keyword_lookup go_on is_eof
keyword_lookup-is_eof [] text h = refl
keyword_lookup-is_eof (k ∷ ks) text h = elim (Bool-cases (same_bytes k.spelling text)) [
  | inl e ↦ rw e (ground arith)
  | inr e ↦ rw e (keyword_lookup-is_eof ks text (ground arith))
]

-- No keyword is the end of the file.
pub keyword-is_eof : (text : List ℕ) → is_eof (keyword_lookup keywords text) ≡ false
unfolding go_on is_eof keywords
keyword-is_eof text = keyword_lookup-is_eof keywords text refl

pub identifier-Scans : (l : Lexer) → Scans l (identifier l)
unfolding identifier is_alnum is_alpha is_digit
identifier-Scans l = finish-Scans _ (Moves-while_byte is_alnum refl l) (keyword-is_eof _)
