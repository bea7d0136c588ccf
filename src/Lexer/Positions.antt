-- ===== src/Lexer/Positions.antt =====
-- Positions in the source of src/lexer/lexer.c, counted over the text in front of them.
use holy_d.Prelude.{
  ℕ, zero, suc, ◌+◌, ◌≤◌, ◌≡◌, refl, sym, ap, ◌∙◌, List, [], ◌∷◌, inl, inr, ◌==◌, if◌then◌else◌,
  length, drop, arith, Bool-cases,
}
use holy_d.Lexer.Cursor.{Lexer, lexer_init, advance, peek, first}
use holy_d.Lexer.Moves.{Moves, stay, over}

-- The line of an offset: one more than the newlines in front of it.
unfoldable pub line_at : List ℕ → ℕ → ℕ
line_at [] n = 1
line_at (c ∷ cs) zero = 1
line_at (c ∷ cs) (suc n) = (if c == b'\n' then 1 else 0) + line_at cs n

-- The column of an offset in a text whose first byte stands in column `from`.
unfoldable pub column_from : ℕ → List ℕ → ℕ → ℕ
column_from from [] n = from
column_from from (c ∷ cs) zero = from
column_from from (c ∷ cs) (suc n) = column_from (if c == b'\n' then 1 else suc from) cs n

unfoldable pub column_at : List ℕ → ℕ → ℕ
column_at source n = column_from 1 source n

pub record Position (source : List ℕ) (offset line column : ℕ) : Type 0 where
  pub in_source : offset ≤ length source
  pub line_is : line ≡ line_at source offset
  pub column_is : column ≡ column_at source offset

-- The lexer stands in the source where its fields say.
pub record Reached (source : List ℕ) (l : Lexer) : Type 0 where
  pub here : Position source l.current l.line l.column
  pub rest_is : l.rest ≡ drop l.current source

drop-suc : (s : List ℕ) (n c : ℕ) (cs : List ℕ) → drop n s ≡ c ∷ cs → drop (suc n) s ≡ cs
drop-suc [] zero c cs h = cc
drop-suc [] (suc n) c cs h = cc
drop-suc (x ∷ s) zero c cs h = cc
drop-suc (x ∷ s) (suc n) c cs h = drop-suc s n c cs h

drop-lt : (s : List ℕ) (n c : ℕ) (cs : List ℕ) → drop n s ≡ c ∷ cs → suc n ≤ length s
drop-lt [] zero c cs h = cc
drop-lt [] (suc n) c cs h = cc
drop-lt (x ∷ s) zero c cs h = omega arith
drop-lt (x ∷ s) (suc n) c cs h = omega (arith, drop-lt s n c cs h)

line_at-suc :
    (s : List ℕ) (n c : ℕ) (cs : List ℕ)
    → drop n s ≡ c ∷ cs
    → line_at s (suc n) ≡ (if c == b'\n' then suc (line_at s n) else line_at s n)
unfolding line_at
line_at-suc [] zero c cs h = cc
line_at-suc [] (suc n) c cs h = cc
line_at-suc (x ∷ []) zero c cs h = ground arith
line_at-suc (x ∷ y ∷ s) zero c cs h = ground arith
line_at-suc (x ∷ s) (suc n) c cs h = ground (arith, line_at-suc s n c cs h)

column_from-suc :
    (from : ℕ) (s : List ℕ) (n c : ℕ) (cs : List ℕ)
    → drop n s ≡ c ∷ cs
    → column_from from s (suc n) ≡ (if c == b'\n' then 1 else suc (column_from from s n))
unfolding column_from
column_from-suc from [] zero c cs h = cc
column_from-suc from [] (suc n) c cs h = cc
column_from-suc from (x ∷ []) zero c cs h = ground arith
column_from-suc from (x ∷ y ∷ s) zero c cs h = ground arith
column_from-suc from (x ∷ s) (suc n) c cs h =
    column_from-suc (if x == b'\n' then 1 else suc from) s n c cs h

pub advance-Reached :
    (source : List ℕ) (l : Lexer) (c : ℕ) (cs : List ℕ)
    → l.rest ≡ c ∷ cs
    → Reached source l
    → Reached source (advance l)
unfolding advance peek first column_at
advance-Reached source l c cs e r =
    let from : drop l.current source ≡ c ∷ cs = sym r.rest_is ∙ e in
    let tail : drop (suc l.current) source ≡ cs = drop-suc source l.current c cs from in
    let line = line_at-suc source l.current c cs from in
    let column = column_from-suc 1 source l.current c cs from in
    let inside = drop-lt source l.current c cs from in
    let line_now = r.here.line_is in
    let column_now = r.here.column_is in
    let rest : drop 1 l.rest ≡ drop (suc l.current) source = ap (drop 1) e ∙ sym tail in
    let byte : first l.rest ≡ c = ap first e in
    elim (Bool-cases (first l.rest == b'\n')) [
      | inl k ↦ rw k (record {
        here = record { in_source = inside; line_is = ground arith; column_is = ground arith };
        rest_is = rest;
      })
      | inr k ↦ rw k (record {
        here = record { in_source = inside; line_is = ground arith; column_is = ground arith };
        rest_is = rest;
      })
    ]

pub Moves-Reached :
    (source : List ℕ) {l m : Lexer} → Moves l m → Reached source l → Reached source m
Moves-Reached source stay r = r
Moves-Reached source (over c cs e t) r = Moves-Reached source t (advance-Reached source _ c cs e r)

pub init-Reached : (source : List ℕ) → Reached source (lexer_init source)
unfolding lexer_init line_at column_at column_from
init-Reached [] = record {
  here = record { in_source = omega arith; line_is = refl; column_is = refl };
  rest_is = refl;
}
init-Reached (c ∷ cs) = record {
  here = record { in_source = omega arith; line_is = refl; column_is = refl };
  rest_is = refl;
}
