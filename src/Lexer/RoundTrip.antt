-- ===== src/Lexer/RoundTrip.antt =====
-- Token types written out as text and read back by the lexer of src/lexer/lexer.c.
use mathlib.Core.Path.{subst}
use holy_d.Lexer.Scans.{keyword-is_eof}
use holy_d.Lexer.KeywordLaws.{keyword-word, keyword_lookup-spelling}
use holy_d.Lexer.Digits.{next_token-digits}
use holy_d.Prelude.{
  ℕ, zero, suc, ◌<◌, ◌≡◌, refl, sym, ap, ap₂, ◌∙◌, true, false, List, [], ◌∷◌, ◌++◌, some, map,
  length, length-append, arith, get_elem?, ◌==◌, drop, if◌then◌else◌,
}
use holy_d.Syntax.Token.{TokenType, identifier_tok, number_tok, eof_tok}
use holy_d.Lexer.Cursor.{
  Lexer, first, peek, advance, is_digit, is_alpha, is_alnum, is_space, make_token, repeat,
  lexer_init,
}
use holy_d.Lexer.Keywords.{keywords, keyword_lookup, Keyword}
use holy_d.Lexer.Scan.{finish, skip_one, skip_whitespace}
use holy_d.Lexer.Next.{begin_token, lexer_next_token, scan_token, dump_tokens, is_eof}
use holy_d.Lexer.Words.{all_bytes, next_token-word}
use holy_d.Lexer.Moves.{advance-rest, repeat-some}
use holy_d.Lexer.Spelling.{spelling, next_token-spelling, facing}

-- A spelling of a token type: an operator's or a keyword's own, a word that is no keyword, or
-- decimal digits.
pub data Spelt : TokenType → List ℕ → Type 0 where
  operator_text : (kind : TokenType) (s : List ℕ) → spelling kind ≡ some s → Spelt kind s
  keyword_text :
      (i : ℕ) (k : Keyword) → get_elem? keywords i ≡ some k → Spelt k.keyword_type k.spelling
  identifier_text :
      (c : ℕ) (w : List ℕ)
      → is_alpha c ≡ true
      → all_bytes is_alnum w ≡ true
      → keyword_lookup keywords (c ∷ w) ≡ identifier_tok
      → Spelt identifier_tok (c ∷ w)
  number_text :
      (c : ℕ) (w : List ℕ)
      → is_digit c ≡ true
      → all_bytes is_digit w ≡ true
      → Spelt number_tok (c ∷ w)

-- A text that spells token types, each in front of a space.
pub data Text : List TokenType → List ℕ → Type 0 where
  no_text : Text [] []
  more_text :
      {kind : TokenType} {s : List ℕ} {kinds : List TokenType} {r : List ℕ}
      → Spelt kind s
      → Text kinds r
      → Text (kind ∷ kinds) (s ++ b' ' ∷ r)

spelling-is_eof : (kind : TokenType) (s : List ℕ) → spelling kind ≡ some s → is_eof kind ≡ false
unfolding spelling is_eof
spelling-is_eof eof_tok s h = cc
spelling-is_eof _ s h = refl

space-alnum : (r : List ℕ) → is_alnum (first (b' ' ∷ r)) ≡ false
unfolding is_alnum is_alpha is_digit first
space-alnum r = refl

Spelt-is_eof : {kind : TokenType} {s : List ℕ} → Spelt kind s → is_eof kind ≡ false
unfolding is_eof
Spelt-is_eof (operator_text kind s h) = spelling-is_eof kind s h
Spelt-is_eof (keyword_text i k h) =
    rw (← (keyword_lookup-spelling i k h)) (keyword-is_eof k.spelling)
Spelt-is_eof (identifier_text c w a h e) = refl
Spelt-is_eof (number_text c w d h) = refl

-- A spelling in front of a space is read as its token type, and the space is left.
Spelt-read :
    {kind : TokenType} {s : List ℕ} (l : Lexer) (r : List ℕ)
    → Spelt kind s
    → l.rest ≡ s ++ b' ' ∷ r
    → ((lexer_next_token l).0.token_type ≡ kind) × ((lexer_next_token l).1.rest ≡ b' ' ∷ r)
Spelt-read l r (operator_text kind s h) e =
    subst
      (λ k. ((lexer_next_token k).0.token_type ≡ kind) × ((lexer_next_token k).1.rest ≡ b' ' ∷ r))
      (ap (facing l) (sym e)) (next_token-spelling l kind s r h)
Spelt-read l r (keyword_text i k h) e =
    let (c, w, spelt_so, a, all) = keyword-word i k h in
    let (type, text, rest) =
      next_token-word l c w (b' ' ∷ r) (e ∙ ap (λ t. t ++ b' ' ∷ r) spelt_so) a all
        (space-alnum r) in
    (type ∙ ap (keyword_lookup keywords) (sym spelt_so) ∙ keyword_lookup-spelling i k h, rest)
Spelt-read l r (identifier_text c w a h i) e =
    let (type, text, rest) = next_token-word l c w (b' ' ∷ r) e a h (space-alnum r) in
    (type ∙ i, rest)
Spelt-read l r (number_text c w d h) e = next_token-digits l c w r e d h

skip_whitespace-space :
    (l : Lexer) (r : List ℕ) → l.rest ≡ b' ' ∷ r → skip_whitespace l ≡ skip_whitespace (advance l)
unfolding skip_whitespace skip_one is_space peek first
skip_whitespace-space l r e =
    let space : skip_one l ≡ some (advance l) = ground arith in
    let shorter = ap length (advance-rest l ∙ ap (drop 1) e) in
    let size : length l.rest ≡ suc (length (advance l).rest) = ap length e ∙ ap suc (sym shorter) in
    ap (λ n. repeat skip_one n l) size
    ∙ repeat-some skip_one (length (advance l).rest) l (advance l) space

-- A space in front of the text changes nothing but the position.
next_token-space :
    (l : Lexer) (r : List ℕ) → l.rest ≡ b' ' ∷ r → lexer_next_token l ≡ lexer_next_token (advance l)
unfolding lexer_next_token
next_token-space l r e =
    ap
      (λ m.
        let b = begin_token m in
        if peek b == 0 then finish eof_tok b else scan_token (peek b) (advance b))
      (skip_whitespace-space l r e)

dump_tokens-space :
    (n : ℕ) (l : Lexer) (r : List ℕ)
    → l.rest ≡ b' ' ∷ r
    → dump_tokens n l ≡ dump_tokens n (advance l)
unfolding dump_tokens
dump_tokens-space zero l r e = refl
dump_tokens-space (suc n) l r e =
    ap
      (λ s.
        let (token, after) = s in
        let rest = dump_tokens n after in token ∷ (if is_eof token.token_type then [] else rest))
      (next_token-space l r e)

next_token-end : (l : Lexer) → l.rest ≡ [] → (lexer_next_token l).0.token_type ≡ eof_tok
unfolding lexer_next_token skip_whitespace repeat finish make_token begin_token peek first
next_token-end l e =
    let same : skip_whitespace l ≡ l = ap (λ n. repeat skip_one n l) (ap length e) in
    rw same (rw e refl)

dump_tokens-end :
    (n : ℕ) (l : Lexer)
    → l.rest ≡ []
    → 0 < n
    → map (λ t. t.token_type) (dump_tokens n l) ≡ eof_tok ∷ []
unfolding dump_tokens is_eof
dump_tokens-end zero l e h = absurd (omega arith)
dump_tokens-end (suc n) l e h = rw (next_token-end l e) refl

dump_tokens-more :
    (n : ℕ) (l : Lexer)
    → is_eof (lexer_next_token l).0.token_type ≡ false
    → dump_tokens (suc n) l ≡ (lexer_next_token l).0 ∷ dump_tokens n (lexer_next_token l).1
unfolding dump_tokens
dump_tokens-more n l h = rw h refl

dump_from-Text :
    (kinds : List TokenType) (source : List ℕ) (n : ℕ) (l : Lexer)
    → Text kinds source
    → l.rest ≡ source
    → length source < n
    → map (λ t. t.token_type) (dump_tokens n l) ≡ kinds ++ eof_tok ∷ []
dump_from-Text kinds source n l no_text e h = dump_tokens-end n l e (omega arith)
dump_from-Text kinds source zero l (more_text p t) e h = absurd (omega arith)
dump_from-Text kinds source (suc n) l (more_text {s = s} {kinds = ks} {r = r} p t) e h =
    let (type, rest) = Spelt-read l r p e in
    let m = (lexer_next_token l).1 in
    let size = length-append s (b' ' ∷ r) in
    let ahead = ap (drop 1) rest in
    let others = dump_from-Text ks r n (advance m) t (advance-rest m ∙ ahead) (omega arith) in
    ap (map (λ t. t.token_type)) (
      dump_tokens-more n l (ap is_eof type ∙ Spelt-is_eof p)
      ∙ ap (λ ts. (lexer_next_token l).0 ∷ ts) (dump_tokens-space n m r rest))
    ∙ ap₂ (λ k ks. k ∷ ks) type others

-- Token types written out as operators, keywords, words that are no keywords and decimal numbers,
-- each in front of a space, are read back in their order with the end of the file behind them, when
-- the loop may take more turns than the text has bytes.
pub dump_tokens-Text :
    (kinds : List TokenType) (source : List ℕ) (n : ℕ)
    → Text kinds source
    → length source < n
    → map (λ t. t.token_type) (dump_tokens n (lexer_init source)) ≡ kinds ++ eof_tok ∷ []
unfolding lexer_init
dump_tokens-Text kinds source n t h = dump_from-Text kinds source n (lexer_init source) t refl h
