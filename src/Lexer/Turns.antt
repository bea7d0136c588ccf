-- ===== src/Lexer/Turns.antt =====
-- The turns of the loops of src/lexer/lexer.c: skip_whitespace and quoted step over bytes of the
-- source only.
use holy_d.Prelude.{
  ℕ, ◌≤◌, ◌≡◌, refl, true, false, not, ◌&&◌, none, some, inl, inr, ◌==◌, if◌then◌else◌, length,
  arith, Bool-cases,
}
use holy_d.Lexer.Cursor.{Lexer, peek, peek_next, advance, is_space, repeat}
use holy_d.Lexer.Scan.{
  in_line_comment, line_comment, comment_body, block_comment, skip_one, skip_whitespace,
  quoted_body,
}
use holy_d.Lexer.Moves.{
  Moves, Further, Further-Moves, Further-on, Further-advance, peek-advance, Further-while_byte,
  Moves-trans, Moves-repeat, repeat-stops, Turns, guarded, refused, Further-tested,
}

same_some : (l m : Lexer) → some l ≡ some m → l ≡ m
same_some l m e = cc

pub comment_body-Turns : Turns comment_body
unfolding comment_body
comment_body-Turns l m e =
    let (h, same) = guarded _ (advance l) m e in rw (← same) (Further-advance l (ground arith))

-- Two steps where two bytes are not the terminator.
Further-twice :
    (l : Lexer)
    → (peek l == 0) ≡ false
    → (peek_next l == 0) ≡ false
    → Further l (advance (advance l))
Further-twice l h k =
    Further-on (Further-advance l h)
      (Further-Moves (Further-advance (advance l) (rw (peek-advance l h) k)))

pub quoted_body-Turns : (quote : ℕ) → Turns (quoted_body quote)
unfolding quoted_body
quoted_body-Turns quote l m e =
    let escaped = peek l == b'\\' && not (peek_next l == 0) in
    let (h, same) = guarded _ (advance (if escaped then advance l else l)) m e in
    let here : (peek l == 0) ≡ false = ground arith in
    rw (← same) (elim (Bool-cases escaped) [
      | inl k ↦ rw k (Further-twice l here (ground arith))
      | inr k ↦ rw k (Further-advance l here)
    ])

-- The loop of a block comment stops at its end or at the terminator.
comment-end :
    (l : Lexer) (n : ℕ)
    → length l.rest ≤ n
    → (peek (repeat comment_body n l) == b'*') ≡ true
    → (peek_next (repeat comment_body n l) == b'/') ≡ true
unfolding comment_body
comment-end l n le h =
    let e = refused _ _ (repeat-stops comment_body comment_body-Turns n l le) in ground arith

pub block_comment-Further :
    (l : Lexer)
    → (peek l == b'/') ≡ true
    → (peek_next l == b'*') ≡ true
    → Further l (block_comment l)
unfolding block_comment
block_comment-Further l h k =
    let inside = advance (advance l) in
    let n = length inside.rest in
    let last = repeat comment_body n inside in
    let body = Moves-repeat comment_body comment_body-Turns n inside in
    Further-on (Further-twice l (ground arith) (ground arith))
      (elim (Bool-cases (peek last == b'*')) [
        | inl e ↦
            let slash = comment-end inside n (omega arith) e in
            rw e
              (Moves-trans body (Further-Moves (Further-twice last (ground arith) (ground arith))))
        | inr e ↦ rw e body
      ])

pub line_comment-Further : (l : Lexer) → (peek l == b'/') ≡ true → Further l (line_comment l)
unfolding line_comment in_line_comment
line_comment-Further l h = Further-while_byte in_line_comment refl l (ground arith)

pub skip_one-Turns : Turns skip_one
unfolding skip_one is_space
skip_one-Turns l m e = elim (Bool-cases (is_space (peek l))) [
  | inl h ↦ rw (← (same_some (advance l) m (ground arith))) (Further-tested is_space l refl h)
  | inr h ↦ elim (Bool-cases (peek l == b'\n')) [
    | inl k ↦
        rw (← (same_some (advance l) m (ground arith))) (Further-tested (λ c. c == b'\n') l refl k)
    | inr k ↦ elim (Bool-cases (peek l == b'/' && peek_next l == b'/')) [
      | inl a ↦
          rw (← (same_some (line_comment l) m (ground arith)))
            (line_comment-Further l (ground arith))
      | inr a ↦ elim (Bool-cases (peek l == b'/' && peek_next l == b'*')) [
        | inl b ↦
            rw (← (same_some (block_comment l) m (ground arith)))
              (block_comment-Further l (ground arith) (ground arith))
        | inr b ↦ absurd (ground arith)
      ]
    ]
  ]
]

pub skip_whitespace-Moves : (l : Lexer) → Moves l (skip_whitespace l)
unfolding skip_whitespace
skip_whitespace-Moves l = Moves-repeat skip_one skip_one-Turns (length l.rest) l

-- Behind the whitespace stands no more of it.
pub skip_whitespace-stops : (l : Lexer) → skip_one (skip_whitespace l) ≡ none
unfolding skip_whitespace
skip_whitespace-stops l = repeat-stops skip_one skip_one-Turns (length l.rest) l (omega arith)
