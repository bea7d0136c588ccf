-- ===== src/Lexer/Quotes.antt =====
-- Quoted literals of src/lexer/lexer.c against a search for the closing quote.
use mathlib.Core.Path.{subst}
use holy_d.Prelude.{
  ℕ, zero, suc, ◌≤◌, ◌≡◌, refl, sym, ap, ◌∙◌, Bool, true, false, not, ◌&&◌, List, [], ◌∷◌, Option,
  none, some, inl, inr, ◌==◌, if◌then◌else◌, length, drop, arith, Bool-cases, ==→eq,
}
use holy_d.Syntax.Token.{TokenType, unknown_tok, string_tok, char_tok}
use holy_d.Lexer.Cursor.{Lexer, first, peek, peek_next, advance, repeat, make_token}
use holy_d.Lexer.Scan.{finish, quoted, quoted_body}
use holy_d.Lexer.Cursor.{is_space, is_digit, is_alpha}
use holy_d.Lexer.Next.{scan_token, lexer_next_token, begin_token, punctuation, operator}
use holy_d.Lexer.Words.{begins, next_token-begins, begin-rest}
use holy_d.Lexer.Moves.{advance-rest, peek-advance, repeat-none, repeat-some}

-- The text behind the first quote that no backslash covers; none where the text ends before.
unfoldable pub behind_quote : ℕ → List ℕ → Option (List ℕ)
behind_quote quote [] = none
behind_quote quote (c ∷ []) = if c == quote && not (c == 0) then some [] else none
behind_quote quote (c ∷ d ∷ cs) =
    let covered = behind_quote quote cs in
    let plain = behind_quote quote (d ∷ cs) in
    if c == 0
    then none
    else if c == quote
    then some (d ∷ cs)
    else if c == b'\\' && not (d == 0)
    then covered
    else plain

-- What a literal's scan gives: its type and what is left, or an unknown token at the end.
unfoldable pub IsQuoted : TokenType → Option (List ℕ) → TokenType → List ℕ → Type 0
IsQuoted kind none type rest = (type ≡ unknown_tok) × (first rest ≡ 0)
IsQuoted kind (some after) type rest = (type ≡ kind) × (rest ≡ after)

unfoldable closing : ℕ → TokenType → Lexer → TokenType × List ℕ
closing quote kind l = if peek l == 0 then (unknown_tok, l.rest) else (kind, drop 1 l.rest)

module _ (quote : ℕ) (kind : TokenType) where
  -- The scan of the lexer `last` fits what the search found.
  Fits : Option (List ℕ) → Lexer → Type 0
  Fits found last = IsQuoted kind found (closing quote kind last).0 (closing quote kind last).1

  loop : ℕ → Lexer → Lexer
  loop n l = repeat (quoted_body quote) n l

  Fits-end : (n : ℕ) (l : Lexer) → (peek l == 0) ≡ true → Fits none (loop n l)
  unfolding Fits loop IsQuoted closing quoted_body peek
  Fits-end n l h =
      let stop : quoted_body quote l ≡ none = ground arith in
      rw (repeat-none (quoted_body quote) n l stop) (rw h (refl, ground arith))

  Fits-closed :
      (n : ℕ) (l : Lexer)
      → (peek l == 0) ≡ false
      → (peek l == quote) ≡ true
      → Fits (some (drop 1 l.rest)) (loop n l)
  unfolding Fits loop IsQuoted closing quoted_body peek
  Fits-closed n l here h =
      let stop : quoted_body quote l ≡ none = ground arith in
      rw (repeat-none (quoted_body quote) n l stop) (rw here (refl, refl))

  Fits-turn :
      (found : Option (List ℕ)) (n : ℕ) (l m : Lexer)
      → quoted_body quote l ≡ some m
      → Fits found (loop n m)
      → Fits found (loop (suc n) l)
  unfolding loop
  Fits-turn found n l m h f = rw (repeat-some (quoted_body quote) n l m h) f

  -- The byte behind a backslash is covered, unless the text ends there.
  covers : ℕ → List ℕ → Bool
  covers c cs = c == b'\\' && not (first cs == 0)

  found-end : (c : ℕ) (cs : List ℕ) → (c == 0) ≡ true → behind_quote quote (c ∷ cs) ≡ none
  unfolding behind_quote
  found-end c [] h = ground arith
  found-end c (d ∷ cs) h = rw h refl

  found-closed :
      (c : ℕ) (cs : List ℕ)
      → (c == 0) ≡ false
      → (c == quote) ≡ true
      → behind_quote quote (c ∷ cs) ≡ some cs
  unfolding behind_quote
  found-closed c [] h k = ground arith
  found-closed c (d ∷ cs) h k = rw h (rw k refl)

  found-turn :
      (c : ℕ) (cs : List ℕ)
      → (c == 0) ≡ false
      → (c == quote) ≡ false
      → behind_quote quote (c ∷ cs) ≡ behind_quote quote (if covers c cs then drop 1 cs else cs)
  unfolding behind_quote covers first
  found-turn c [] h k = ground arith
  found-turn c (d ∷ cs) h k = elim (Bool-cases (covers c (d ∷ cs))) [
    | inl e ↦ rw h (rw k (rw e refl))
    | inr e ↦ rw h (rw k (rw e refl))
  ]

  -- A turn in front of a byte that neither ends the text nor closes the literal.
  turn :
      (l : Lexer) (c : ℕ) (cs : List ℕ)
      → l.rest ≡ c ∷ cs
      → (c == 0) ≡ false
      → (c == quote) ≡ false
      → quoted_body quote l ≡ some (advance (if covers c cs then advance l else l))
  unfolding quoted_body covers peek first
  turn l c cs e z k =
      let at : peek l ≡ c = ap first e in
      let ahead : peek_next l ≡ first cs =
        sym (peek-advance l (rw at z)) ∙ ap first (advance-rest l ∙ ap (drop 1) e) in
      rw (at, ahead) (rw z (rw k refl))

  turn-rest :
      (b : Bool) (l : Lexer) (c : ℕ) (cs : List ℕ)
      → l.rest ≡ c ∷ cs
      → (advance (if b then advance l else l)).rest ≡ (if b then drop 1 cs else cs)
  turn-rest true l c cs e =
      advance-rest (advance l) ∙ ap (drop 1) (advance-rest l) ∙ ap (λ t. drop 1 (drop 1 t)) e
  turn-rest false l c cs e = advance-rest l ∙ ap (drop 1) e

  shorter : (b : Bool) (cs : List ℕ) → length (if b then drop 1 cs else cs) ≤ length cs
  shorter true [] = omega arith
  shorter true (c ∷ cs) = omega arith
  shorter false cs = omega arith

  loop-Fits :
      (n : ℕ) (text : List ℕ) (l : Lexer)
      → l.rest ≡ text
      → length text ≤ n
      → Fits (behind_quote quote text) (loop n l)
  unfolding peek first behind_quote
  loop-Fits n [] l e h = Fits-end n l (rw e refl)
  loop-Fits zero (c ∷ cs) l e h = absurd (omega arith)
  loop-Fits (suc n) (c ∷ cs) l e h =
      let at : peek l ≡ c = ap first e in
      elim (Bool-cases (c == 0)) [
        | inl z ↦ rw (found-end c cs z) (Fits-end (suc n) l (rw at z))
        | inr z ↦ elim (Bool-cases (c == quote)) [
          | inl k ↦ rw (found-closed c cs z k) (
              subst (λ t. Fits (some t) (loop (suc n) l)) (ap (drop 1) e)
                (Fits-closed (suc n) l (rw at z) (rw at k)))
          | inr k ↦
              let less = shorter (covers c cs) cs in
              rw (found-turn c cs z k) (
                Fits-turn _ n l _ (turn l c cs e z k) (
                  loop-Fits n (if covers c cs then drop 1 cs else cs) _
                    (turn-rest (covers c cs) l c cs e) (omega arith)))
        ]
      ]

  quoted-closing :
      (l : Lexer)
      → ((quoted quote kind l).0.token_type, (quoted quote kind l).1.rest)
        ≡ closing quote kind (loop (length l.rest) l)
  unfolding quoted finish make_token closing loop
  quoted-closing l =
      let last = repeat (quoted_body quote) (length l.rest) l in
      elim (Bool-cases (peek last == 0)) [
        | inl e ↦ rw e refl
        | inr e ↦ rw e (ap (λ r. (kind, r)) (advance-rest last))
      ]

  quoted-behind_quote :
      (l : Lexer)
      → IsQuoted kind
          (behind_quote quote l.rest)
          (quoted quote kind l).0.token_type
          (quoted quote kind l).1.rest
  unfolding Fits
  quoted-behind_quote l =
      subst (λ p. IsQuoted kind (behind_quote quote l.rest) p.0 p.1) (sym (quoted-closing l))
        (loop-Fits (length l.rest) l.rest l refl (omega arith))

-- The literals' quotes with the types of their tokens.
unfoldable pub literal : ℕ → Option TokenType
literal c = if c == b'"' then some string_tok else if c == b'\'' then some char_tok else none

literal-begins : (c : ℕ) (kind : TokenType) → literal c ≡ some kind → begins c ≡ true
unfolding literal begins is_space
literal-begins c kind h = ground arith

scan_token-literal :
    (c : ℕ) (kind : TokenType) (l : Lexer)
    → literal c ≡ some kind
    → scan_token c l ≡ quoted c kind l
unfolding scan_token literal is_digit is_alpha punctuation operator
scan_token-literal c kind l h = elim (Bool-cases (c == b'"')) [
  | inl e ↦ let is : kind ≡ string_tok = ground arith in rw (==→eq c b'"' e) (rw is refl)
  | inr e ↦
      let quote : c ≡ b'\'' = ground arith in
      let is : kind ≡ char_tok = ground arith in rw quote (rw is refl)
]

-- A call in front of a quote ends behind the first quote like it that no backslash covers, with a
-- token of the literal's type; where the text ends before such a quote the token is an unknown one
-- and the call has stopped at the end of the text.
pub next_token-literal :
    (l : Lexer) (quote : ℕ) (cs : List ℕ) (kind : TokenType)
    → l.rest ≡ quote ∷ cs
    → literal quote ≡ some kind
    → IsQuoted kind
        (behind_quote quote cs)
        (lexer_next_token l).0.token_type
        (lexer_next_token l).1.rest
next_token-literal l quote cs kind e h =
    let b = advance (begin_token l) in
    let ahead : b.rest ≡ cs = begin-rest l quote cs e in
    subst (λ r. IsQuoted kind (behind_quote quote cs) r.0.token_type r.1.rest)
      (sym (
        next_token-begins l quote cs e (literal-begins quote kind h)
        ∙ scan_token-literal quote kind b h))
      (subst
        (λ t.
          IsQuoted kind (behind_quote quote t) (quoted quote kind b).0.token_type
            (quoted quote kind b).1.rest)
        ahead (quoted-behind_quote quote kind b))
