-- ===== src/Lexer/Spans.antt =====
-- The spans of the tokens of src/lexer/lexer.c against the source they were read from.
use holy_d.Prelude.{
  ℕ, ◌-◌, ◌≤◌, ◌≡◌, refl, sym, ap, ◌∙◌, true, List, ◌⊎◌, inl, inr, ◌==◌, take, drop, arith,
  Bool-cases,
}
use holy_d.Syntax.Token.{TokenType, eof_tok}
use holy_d.Lexer.Cursor.{Lexer, Token, make_token, peek, advance}
use holy_d.Lexer.Scan.{Scanned, skip_whitespace, finish}
use holy_d.Lexer.Next.{begin_token, lexer_next_token, is_eof}
use holy_d.Lexer.Moves.{Moves, stay, over, Further, Further-on, Further-Moves, Further-advance}
use holy_d.Lexer.Turns.{skip_whitespace-Moves}
use holy_d.Lexer.Switch.{scan_token-Scans}
use holy_d.Lexer.Positions.{Position, Reached, Moves-Reached}

-- A token's span lies in the source, gives the lines and columns of its two offsets, and holds the
-- token's text.
pub record IsSpanned (source : List ℕ) (t : Token) : Type 0 where
  pub starts : Position source t.span.start_offset t.span.start_line t.span.start_column
  pub ends : Position source t.span.end_offset t.span.end_line t.span.end_column
  pub ordered : t.span.start_offset ≤ t.span.end_offset
  pub text_is :
      t.text ≡ take (t.span.end_offset - t.span.start_offset) (drop t.span.start_offset source)

-- What moves leave: the start of the token.
record Kept (l m : Lexer) : Type 0 where
  start_kept : m.start ≡ l.start
  text_kept : m.start_text ≡ l.start_text
  line_kept : m.token_line ≡ l.token_line
  column_kept : m.token_column ≡ l.token_column
  further : l.current ≤ m.current

advance-Kept : (l : Lexer) → Kept l (advance l)
unfolding advance
advance-Kept l = elim (Bool-cases (peek l == b'\n')) [
  | inl h ↦ rw h (record {
    start_kept = refl;
    text_kept = refl;
    line_kept = refl;
    column_kept = refl;
    further = omega arith;
  })
  | inr h ↦ rw h (record {
    start_kept = refl;
    text_kept = refl;
    line_kept = refl;
    column_kept = refl;
    further = omega arith;
  })
]

Moves-Kept : {l m : Lexer} → Moves l m → Kept l m
Moves-Kept stay = record {
  start_kept = refl;
  text_kept = refl;
  line_kept = refl;
  column_kept = refl;
  further = omega arith;
}
Moves-Kept {l} (over c cs e t) =
    let a = advance-Kept l in
    let b = Moves-Kept t in
    record {
      start_kept = b.start_kept ∙ a.start_kept;
      text_kept = b.text_kept ∙ a.text_kept;
      line_kept = b.line_kept ∙ a.line_kept;
      column_kept = b.column_kept ∙ a.column_kept;
      further = omega (arith, a.further, b.further);
    }

-- What a call finds when it begins its token, with what it then steps over.
pub record IsScan (l : Lexer) (r : Scanned) : Type 0 where
  pub begin : Lexer
  pub skipped : Moves l begin
  pub kind : TokenType
  pub scanned : Moves (begin_token begin) r.1
  pub token_is : r.0 ≡ make_token r.1 kind
  pub progress : (is_eof kind ≡ true) ⊎ Further (begin_token begin) r.1

pub next_token-IsScan : (l : Lexer) → IsScan l (lexer_next_token l)
unfolding lexer_next_token finish is_eof
next_token-IsScan l =
    let before = skip_whitespace l in
    let b = begin_token before in
    elim (Bool-cases (peek b == 0)) [
      | inl e ↦ rw e (record {
        begin = before;
        skipped = skip_whitespace-Moves l;
        kind = eof_tok;
        scanned = stay;
        token_is = refl;
        progress = inl refl;
      })
      | inr e ↦
          let s = scan_token-Scans (advance b) (peek b) in
          let f = Further-on (Further-advance b e) s.moved in
          rw e (record {
            begin = before;
            skipped = skip_whitespace-Moves l;
            kind = s.kind;
            scanned = Further-Moves f;
            token_is = s.token_is;
            progress = inr f;
          })
    ]

module _ (source : List ℕ) where
  Position-at :
      {n k line last column end : ℕ}
      → k ≡ n
      → last ≡ line
      → end ≡ column
      → Position source n line column
      → Position source k last end
  Position-at a b c p = record {
    in_source = rw a p.in_source;
    line_is = b ∙ p.line_is ∙ rw a refl;
    column_is = c ∙ p.column_is ∙ rw a refl;
  }

  make_token-IsSpanned :
      (kind : TokenType) (b m : Lexer)
      → Reached source b
      → Reached source m
      → Kept (begin_token b) m
      → IsSpanned source (make_token m kind)
  unfolding make_token begin_token
  make_token-IsSpanned kind b m r q k = record {
    starts = Position-at k.start_kept k.line_kept k.column_kept r.here;
    ends = q.here;
    ordered = rw k.start_kept k.further;
    text_is =
        ap (take (m.current - m.start))
          (k.text_kept ∙ r.rest_is ∙ ap (λ n. drop n source) (sym k.start_kept));
  }

  begin-Reached : (b : Lexer) → Reached source b → Reached source (begin_token b)
  unfolding begin_token
  begin-Reached b r = record { here = r.here; rest_is = r.rest_is }

  -- A call of whatever shape.
  scan-IsSpanned :
      (l : Lexer) (t : Token) (m : Lexer)
      → IsScan l (t, m)
      → Reached source l
      → IsSpanned source t
        × Reached source m
        × l.current ≤ t.span.start_offset
        × (t.span.end_offset ≡ m.current)
  unfolding make_token begin_token
  scan-IsSpanned l t m s r =
      let k = Moves-Kept s.scanned in
      let before = Moves-Reached source s.skipped r in
      let after = Moves-Reached source s.scanned (begin-Reached s.begin before) in
      let reached = Moves-Kept s.skipped in
      rw s.token_is (
        make_token-IsSpanned s.kind s.begin m before after k,
        after,
        rw k.start_kept reached.further,
        refl,
      )

-- From a lexer that stands in the source at the line and column it says, a call gives a token whose
-- span lies in the source, behind where the lexer stood, with the token's text and the right lines
-- and columns at both ends, and the lexer then stands in the source at the end of that span.
pub next_token-IsSpanned :
    (source : List ℕ) (l : Lexer)
    → Reached source l
    → IsSpanned source (lexer_next_token l).0
      × Reached source (lexer_next_token l).1
      × l.current ≤ (lexer_next_token l).0.span.start_offset
      × ((lexer_next_token l).0.span.end_offset ≡ (lexer_next_token l).1.current)
next_token-IsSpanned source l r =
    scan-IsSpanned source l (lexer_next_token l).0 (lexer_next_token l).1 (next_token-IsScan l) r
