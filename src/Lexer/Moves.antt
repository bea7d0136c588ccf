-- ===== src/Lexer/Moves.antt =====
-- Moves of the lexer of src/lexer/lexer.c over bytes of the source: every loop and every branch
-- only ever steps over a byte that is there.
use holy_d.Prelude.{
  ℕ, zero, suc, ◌≤◌, ◌<◌, ◌≡◌, refl, ap, ◌∙◌, Bool, true, false, not, List, ◌∷◌, Option, none, some,
  inl, inr, ◌==◌, if◌then◌else◌, length, drop, arith, Bool-cases, Option-cases, List-cases,
}
use holy_d.Lexer.Cursor.{Lexer, first, peek, peek_next, advance, repeat}
use holy_d.Lexer.Scan.{while_byte}

pub data Moves : Lexer → Lexer → Type 0 where
  stay : {l : Lexer} → Moves l l
  over : {l m : Lexer} (c : ℕ) (cs : List ℕ) → l.rest ≡ c ∷ cs → Moves (advance l) m → Moves l m

pub Moves-trans : {a b c : Lexer} → Moves a b → Moves b c → Moves a c
Moves-trans stay m = m
Moves-trans (over c cs e t) m = over c cs e (Moves-trans t m)

-- A move over one byte at least.
pub record Further (l m : Lexer) : Type 0 where
  pub byte : ℕ
  pub others : List ℕ
  pub rest_is : l.rest ≡ byte ∷ others
  pub moved : Moves (advance l) m

pub Further-Moves : {l m : Lexer} → Further l m → Moves l m
Further-Moves f = over f.byte f.others f.rest_is f.moved

pub Further-on : {l m n : Lexer} → Further l m → Moves m n → Further l n
Further-on f t = record {
  byte = f.byte;
  others = f.others;
  rest_is = f.rest_is;
  moved = Moves-trans f.moved t;
}

-- `advance` gives up the first byte.
pub advance-rest : (l : Lexer) → (advance l).rest ≡ drop 1 l.rest
unfolding advance
advance-rest l = elim (Bool-cases (peek l == b'\n')) [ inl h ↦ rw h refl | inr h ↦ rw h refl ]

pub peek-advance : (l : Lexer) → (peek l == 0) ≡ false → peek (advance l) ≡ peek_next l
unfolding peek peek_next first
peek-advance l h =
    ap first (advance-rest l)
    ∙ elim (List-cases l.rest) [ inl e ↦ absurd (ground arith) | inr (c, cs, e) ↦ ground arith ]

-- A byte that a test lets through is there, when the test stops at the terminator.
pub Further-tested :
    (test : ℕ → Bool) (l : Lexer) → test 0 ≡ false → test (peek l) ≡ true → Further l (advance l)
unfolding peek first
Further-tested test l z h = elim (List-cases l.rest) [
  | inl e ↦ absurd (cc)
  | inr (c, cs, e) ↦ record { byte = c; others = cs; rest_is = e; moved = stay }
]

pub Further-advance : (l : Lexer) → (peek l == 0) ≡ false → Further l (advance l)
Further-advance l h = Further-tested (λ c. not (c == 0)) l refl (rw h refl)

pub Moves-length : {l m : Lexer} → Moves l m → length m.rest ≤ length l.rest
Moves-length stay = omega arith
Moves-length {l} (over c cs e t) =
    let shorter = Moves-length t in
    let tail = ap length (advance-rest l) ∙ ap (λ r. length (drop 1 r)) e in
    let whole = ap length e in omega arith

pub Further-length : {l m : Lexer} → Further l m → length m.rest < length l.rest
Further-length {l} f =
    let shorter = Moves-length f.moved in
    let tail = ap length (advance-rest l) ∙ ap (λ r. length (drop 1 r)) f.rest_is in
    let whole = ap length f.rest_is in omega arith

-- What a guarded turn says of its guard.
pub guarded :
    (b : Bool) (l m : Lexer) → (if b then some l else none) ≡ some m → (b ≡ true) × (l ≡ m)
guarded true l m e = (refl, cc)
guarded false l m e = cc

pub refused : (b : Bool) (l : Lexer) → (if b then some l else none) ≡ none → b ≡ false
refused true l e = cc
refused false l e = refl

-- Every turn of a loop moves.
abbrev pub Turns : (Lexer → Option Lexer) → Type 0
Turns body = (l m : Lexer) → body l ≡ some m → Further l m

module _ (body : Lexer → Option Lexer) where
  -- A loop whose body is not taken changes nothing.
  pub repeat-none : (n : ℕ) (l : Lexer) → body l ≡ none → repeat body n l ≡ l
  unfolding repeat
  repeat-none zero l h = refl
  repeat-none (suc n) l h = rw (h, repeat) refl

  pub repeat-some :
      (n : ℕ) (l m : Lexer) → body l ≡ some m → repeat body (suc n) l ≡ repeat body n m
  unfolding repeat
  repeat-some n l m h = rw (h, repeat) refl

module _ (body : Lexer → Option Lexer) (turns : Turns body) where
  pub Moves-repeat : (n : ℕ) (l : Lexer) → Moves l (repeat body n l)
  unfolding repeat
  Moves-repeat zero l = stay
  Moves-repeat (suc n) l = elim (Option-cases (body l)) [
    | inl e ↦ rw (e, repeat) stay
    | inr (m, e) ↦ rw (e, repeat) (Moves-trans (Further-Moves (turns l m e)) (Moves-repeat n m))
  ]

  pub Further-repeat : (n : ℕ) (l m : Lexer) → body l ≡ some m → 0 < n → Further l (repeat body n l)
  unfolding repeat
  Further-repeat zero l m e h = absurd (omega arith)
  Further-repeat (suc n) l m e h = rw (e, repeat) (Further-on (turns l m e) (Moves-repeat n m))

  -- A loop that moves at every turn has stopped by itself when its fuel is the bytes left.
  pub repeat-stops : (n : ℕ) (l : Lexer) → length l.rest ≤ n → body (repeat body n l) ≡ none
  unfolding repeat
  repeat-stops zero l le = elim (Option-cases (body l)) [
    | inl e ↦ e
    | inr (m, e) ↦ absurd (let shorter = Further-length (turns l m e) in omega arith)
  ]
  repeat-stops (suc n) l le = elim (Option-cases (body l)) [
    | inl e ↦ rw (e, repeat) e
    | inr (m, e) ↦
        let shorter = Further-length (turns l m e) in
        rw (e, repeat) (repeat-stops n m (omega arith))
  ]

module _ (test : ℕ → Bool) (test_end : test 0 ≡ false) where
  abbrev byte_turn : Lexer → Option Lexer
  byte_turn l = if test (peek l) then some (advance l) else none

  byte_turn-Turns : Turns byte_turn
  byte_turn-Turns l m e =
      let (h, same) = guarded (test (peek l)) (advance l) m e in
      rw (← same) (Further-tested test l test_end h)

  pub Moves-while_byte : (l : Lexer) → Moves l (while_byte test l)
  unfolding while_byte
  Moves-while_byte l = Moves-repeat byte_turn byte_turn-Turns (length l.rest) l

  -- `while_byte` stops in front of a byte that its test refuses.
  pub while_byte-stops : (l : Lexer) → test (peek (while_byte test l)) ≡ false
  unfolding while_byte
  while_byte-stops l =
      let stop = repeat-stops byte_turn byte_turn-Turns (length l.rest) l (omega arith) in
      refused (test (peek (while_byte test l))) _ stop

  pub Further-while_byte : (l : Lexer) → test (peek l) ≡ true → Further l (while_byte test l)
  unfolding while_byte
  Further-while_byte l h =
      let longer = Further-length (Further-tested test l test_end h) in
      Further-repeat byte_turn byte_turn-Turns (length l.rest) l (advance l) (rw h refl)
        (omega arith)
