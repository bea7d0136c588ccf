-- ===== src/Lexer/Dump.antt =====
-- The token loop of dump_tokens of src/main.c: it ends, and its tokens follow one another.
use holy_d.Prelude.{
  ℕ, zero, suc, ◌≤◌, ◌<◌, ◌≡◌, refl, ap, Bool, true, false, not, ◌&&◌, List, [], ◌∷◌, inl, inr,
  length, arith, Bool-cases,
}
use holy_d.Lexer.Cursor.{Lexer, Token, lexer_init, make_token}
use holy_d.Lexer.Next.{begin_token, lexer_next_token, is_eof, dump_tokens}
use holy_d.Lexer.Moves.{Moves-length, Further-length}
use holy_d.Lexer.Positions.{Reached, init-Reached}
use holy_d.Lexer.Spans.{IsScan, IsSpanned, next_token-IsScan, next_token-IsSpanned}

-- The tokens have spans in the source, each behind the one before it.
unfoldable pub Chained : List ℕ → ℕ → List Token → Type 0
Chained source from [] = Unit {0}
Chained source from (t ∷ ts) =
    IsSpanned source t × from ≤ t.span.start_offset × Chained source t.span.end_offset ts

-- The end of the file stands at the end of the tokens and nowhere else.
unfoldable pub ends_once : List Token → Bool
ends_once [] = false
ends_once (t ∷ []) = is_eof t.token_type
ends_once (t ∷ u ∷ ts) = not (is_eof t.token_type) && ends_once (u ∷ ts)

scan-shorter :
    (l : Lexer) (t : Token) (m : Lexer)
    → IsScan l (t, m)
    → is_eof t.token_type ≡ false
    → length m.rest < length l.rest
unfolding make_token begin_token
scan-shorter l t m s h =
    let type : t.token_type ≡ s.kind = ap (λ t. t.token_type) s.token_is in
    let skipped = Moves-length s.skipped in
    elim s.progress [
      | inl e ↦ absurd (ground arith)
      | inr f ↦ let shorter = Further-length f in omega arith
    ]

-- A token that is not the end of the file leaves less of the source.
pub next_token-shorter :
    (l : Lexer)
    → is_eof (lexer_next_token l).0.token_type ≡ false
    → length (lexer_next_token l).1.rest < length l.rest
next_token-shorter l h =
    scan-shorter l (lexer_next_token l).0 (lexer_next_token l).1 (next_token-IsScan l) h

dump_from-Chained :
    (source : List ℕ) (n : ℕ) (l : Lexer)
    → Reached source l
    → Chained source l.current (dump_tokens n l)
unfolding Chained dump_tokens
dump_from-Chained source zero l r = tt
dump_from-Chained source (suc n) l r =
    let (spanned, after, behind, at) = next_token-IsSpanned source l r in
    let rest : Chained source (lexer_next_token l).0.span.end_offset
        (dump_tokens n (lexer_next_token l).1) =
      rw at (dump_from-Chained source n (lexer_next_token l).1 after) in
    (
      spanned,
      behind,
      elim (Bool-cases (is_eof (lexer_next_token l).0.token_type)) [
        | inl e ↦ rw e tt
        | inr e ↦ rw e rest
      ],
    )

-- A token that does not end the file in front of tokens that end once.
ends_once-more :
    (t : Token) (ts : List Token)
    → is_eof t.token_type ≡ false
    → ends_once ts ≡ true
    → ends_once (t ∷ ts) ≡ true
unfolding ends_once
ends_once-more t [] e h = cc
ends_once-more t (u ∷ ts) e h = ground arith

dump_from-ends : (n : ℕ) (l : Lexer) → length l.rest < n → ends_once (dump_tokens n l) ≡ true
unfolding ends_once dump_tokens
dump_from-ends zero l h = absurd (omega arith)
dump_from-ends (suc n) l h = elim (Bool-cases (is_eof (lexer_next_token l).0.token_type)) [
  | inl e ↦ rw e e
  | inr e ↦
      let shorter = next_token-shorter l e in
      rw e (
        ends_once-more (lexer_next_token l).0 (dump_tokens n (lexer_next_token l).1) e
          (dump_from-ends n (lexer_next_token l).1 (omega arith)))
]

dump_from-enough :
    (n k : ℕ) (l : Lexer)
    → length l.rest < n
    → length l.rest < k
    → dump_tokens n l ≡ dump_tokens k l
unfolding dump_tokens
dump_from-enough zero k l h g = absurd (omega arith)
dump_from-enough (suc n) zero l h g = absurd (omega arith)
dump_from-enough (suc n) (suc k) l h g =
    elim (Bool-cases (is_eof (lexer_next_token l).0.token_type)) [
      | inl e ↦ rw e refl
      | inr e ↦
          let shorter = next_token-shorter l e in
          rw e (
            ap (λ ts. (lexer_next_token l).0 ∷ ts)
              (dump_from-enough n k (lexer_next_token l).1 (omega arith) (omega arith)))
    ]

-- The tokens of a source, however many are taken, have spans in the source that give their texts
-- and positions, each span behind the one before it.
pub dump_tokens-Chained :
    (source : List ℕ) (n : ℕ) → Chained source 0 (dump_tokens n (lexer_init source))
unfolding lexer_init
dump_tokens-Chained source n = dump_from-Chained source n (lexer_init source) (init-Reached source)

-- With more turns than the source has bytes the loop of `dump_tokens` ends by itself: its last token
-- and no other is the end of the file, and further turns change nothing.
pub dump_tokens-ends :
    (source : List ℕ) (n : ℕ)
    → length source < n
    → (ends_once (dump_tokens n (lexer_init source)) ≡ true)
      × (dump_tokens n (lexer_init source) ≡ dump_tokens (suc (length source)) (lexer_init source))
unfolding lexer_init
dump_tokens-ends source n h = (
  dump_from-ends n (lexer_init source) h,
  dump_from-enough n _ (lexer_init source) h (omega arith),
)
