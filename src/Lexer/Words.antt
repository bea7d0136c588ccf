-- ===== src/Lexer/Words.antt =====
-- Words and numbers as src/lexer/lexer.c reads them: the longest run of the bytes that belong.
use holy_d.Prelude.{
  ℕ, zero, suc, ◌+◌, ◌-◌, ◌≤◌, ◌≡◌, refl, ap, ◌∙◌, Bool, true, false, not, ◌&&◌, List, [], ◌∷◌,
  ◌++◌, Option, none, some, inl, inr, ◌==◌, if◌then◌else◌, length, take, drop, length-append, arith,
  Bool-cases,
}
use holy_d.Lexer.Cursor.{
  Lexer, first, peek, advance, is_digit, is_alpha, is_alnum, is_space, make_token, repeat,
}
use holy_d.Lexer.Keywords.{keywords, keyword_lookup}
use holy_d.Lexer.Scan.{finish, while_byte, identifier, skip_one, skip_whitespace}
use holy_d.Lexer.Next.{begin_token, lexer_next_token, scan_token}
use holy_d.Lexer.Moves.{repeat-none}

unfoldable pub all_bytes : (ℕ → Bool) → List ℕ → Bool
all_bytes test [] = true
all_bytes test (c ∷ cs) = test c && all_bytes test cs

-- The lexer behind `n` bytes that it has stepped over, with `r` before it.
pub record Behind (l m : Lexer) (n : ℕ) (r : List ℕ) : Type 0 where
  pub rest_is : m.rest ≡ r
  pub current_is : m.current ≡ l.current + n
  pub start_kept : m.start ≡ l.start
  pub text_kept : m.start_text ≡ l.start_text

pub advance-Behind : (l : Lexer) (c : ℕ) (r : List ℕ) → l.rest ≡ c ∷ r → Behind l (advance l) 1 r
unfolding advance
advance-Behind l c r e = elim (Bool-cases (peek l == b'\n')) [
  | inl h ↦ rw h (record {
    rest_is = ap (drop 1) e;
    current_is = omega arith;
    start_kept = refl;
    text_kept = refl;
  })
  | inr h ↦ rw h (record {
    rest_is = ap (drop 1) e;
    current_is = omega arith;
    start_kept = refl;
    text_kept = refl;
  })
]

pub Behind-trans :
    {l m n : Lexer} {i j : ℕ} {q r : List ℕ} (k : ℕ)
    → Behind l m i q
    → Behind m n j r
    → k ≡ i + j
    → Behind l n k r
Behind-trans k a b e = record {
  rest_is = b.rest_is;
  current_is = omega (arith, a.current_is, b.current_is);
  start_kept = b.start_kept ∙ a.start_kept;
  text_kept = b.text_kept ∙ a.text_kept;
}

module _ (test : ℕ → Bool) where
  abbrev turn : Lexer → Option Lexer
  turn l = if test (peek l) then some (advance l) else none

  repeat-Behind :
      (w r : List ℕ) (n : ℕ) (l : Lexer)
      → l.rest ≡ w ++ r
      → all_bytes test w ≡ true
      → test (first r) ≡ false
      → length w ≤ n
      → Behind l (repeat turn n l) (length w) r
  unfolding repeat all_bytes peek first
  repeat-Behind [] r zero l e h g k = record {
    rest_is = e;
    current_is = omega arith;
    start_kept = refl;
    text_kept = refl;
  }
  repeat-Behind [] r (suc n) l e h g k =
      let stop : test (first l.rest) ≡ false = rw e g in
      rw (stop, repeat)
        (record { rest_is = e; current_is = omega arith; start_kept = refl; text_kept = refl })
  repeat-Behind (c ∷ w) r zero l e h g k = absurd (omega arith)
  repeat-Behind (c ∷ w) r (suc n) l e h g k =
      let now : test (first l.rest) ≡ true = ap (λ t. test (first t)) e ∙ ground arith in
      let one = advance-Behind l c (w ++ r) e in
      rw (now, repeat)
        (Behind-trans (length (c ∷ w)) one
          (repeat-Behind w r n (advance l) one.rest_is (ground arith) g (omega arith))
          (omega arith))

  -- `while_byte` reads exactly the bytes that belong.
  pub while_byte-Behind :
      (w r : List ℕ) (l : Lexer)
      → l.rest ≡ w ++ r
      → all_bytes test w ≡ true
      → test (first r) ≡ false
      → Behind l (while_byte test l) (length w) r
  unfolding while_byte
  while_byte-Behind w r l e h g =
      let size = ap length e ∙ length-append w r in
      repeat-Behind w r (length l.rest) l e h g (omega arith)

pub take-append : (w r : List ℕ) (n : ℕ) → n ≡ length w → take n (w ++ r) ≡ w
take-append w r n e = rw e (go w)
  where
    go : (w : List ℕ) → take (length w) (w ++ r) ≡ w
    go [] = refl
    go (c ∷ w) = ap (λ t. c ∷ t) (go w)

-- The text of a token that was begun in front of what is read.
pub Behind-text :
    {b m : Lexer} {r : List ℕ} (t : List ℕ)
    → Behind b m (length t) r
    → b.start ≡ b.current
    → b.start_text ≡ t ++ r
    → take (m.current - m.start) m.start_text ≡ t
Behind-text {r = r} t h s e =
    rw (h.text_kept ∙ e) (take-append t r _ (omega (arith, h.current_is, h.start_kept)))

-- Where no whitespace stands nothing is skipped.
pub skip_whitespace-none : (l : Lexer) → skip_one l ≡ none → skip_whitespace l ≡ l
unfolding skip_whitespace
skip_whitespace-none l h = repeat-none skip_one (length l.rest) l h

-- In front of a byte that begins a token nothing is skipped, and its first byte is taken.
unfoldable pub begins : ℕ → Bool
begins c = not (is_space c) && not (c == b'\n') && not (c == b'/') && not (c == 0)

pub next_token-begins :
    (l : Lexer) (c : ℕ) (r : List ℕ)
    → l.rest ≡ c ∷ r
    → begins c ≡ true
    → lexer_next_token l ≡ scan_token c (advance (begin_token l))
unfolding lexer_next_token begins skip_one begin_token peek first
next_token-begins l c r e h =
    let head : first l.rest ≡ c = ap first e in
    let none_skipped : skip_one l ≡ none = ground arith in
    rw (skip_whitespace-none l none_skipped) (rw head (ground arith))

scan_token-word : (c : ℕ) (l : Lexer) → is_alpha c ≡ true → scan_token c l ≡ identifier l
unfolding scan_token is_alpha is_digit
scan_token-word c l h = ground arith

alpha-begins : (c : ℕ) → is_alpha c ≡ true → begins c ≡ true
unfolding is_alpha begins is_space
alpha-begins c h = ground arith

-- A letter or underscore and the bytes of a word behind it, up to a byte that belongs to no word,
-- are one token: of the keyword that they spell, or an identifier.
pub next_token-word :
    (l : Lexer) (c : ℕ) (w r : List ℕ)
    → l.rest ≡ c ∷ w ++ r
    → is_alpha c ≡ true
    → all_bytes is_alnum w ≡ true
    → is_alnum (first r) ≡ false
    → ((lexer_next_token l).0.token_type ≡ keyword_lookup keywords (c ∷ w))
      × ((lexer_next_token l).0.text ≡ c ∷ w)
      × ((lexer_next_token l).1.rest ≡ r)
unfolding identifier finish make_token begin_token
next_token-word l c w r e a h g =
    let b = begin_token l in
    let one = advance-Behind b c (w ++ r) e in
    let all =
      Behind-trans (length (c ∷ w)) one (while_byte-Behind is_alnum w r (advance b) one.rest_is h g)
        (omega arith) in
    let end = while_byte is_alnum (advance b) in
    let text : take (end.current - end.start) end.start_text ≡ c ∷ w =
      Behind-text (c ∷ w) all refl e in
    rw (next_token-begins l c (w ++ r) e (alpha-begins c a) ∙ scan_token-word c (advance b) a)
      (ap (keyword_lookup keywords) text, text, all.rest_is)

pub begin-rest :
    (l : Lexer) (c : ℕ) (r : List ℕ) → l.rest ≡ c ∷ r → (advance (begin_token l)).rest ≡ r
unfolding begin_token
begin-rest l c r e = (advance-Behind (begin_token l) c r e).rest_is
