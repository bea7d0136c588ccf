-- ===== src/Lexer/Cursor.antt =====
-- The lexer's state and the tokens of src/lexer/lexer.h, with the helpers of src/lexer/lexer.c that
-- look at a byte or move by one.
use holy_d.Prelude.{
  ℕ, zero, suc, ◌-◌, Bool, ◌&&◌, ◌||◌, List, [], ◌∷◌, Option, none, some, leb, ◌==◌, if◌then◌else◌,
  take, drop,
}
use holy_d.Syntax.Token.{TokenType}

pub record Span : Type 0 where
  pub start_offset : ℕ
  pub end_offset : ℕ
  pub start_line : ℕ
  pub start_column : ℕ
  pub end_line : ℕ
  pub end_column : ℕ

-- `text` is the token's `length` bytes at its `start`.
pub record Token : Type 0 where
  pub token_type : TokenType
  pub text : List ℕ
  pub span : Span

-- The pointers `start` and `current` are offsets into the source; `start_text` and `rest` are the
-- bytes from there to the terminator.
pub record Lexer : Type 0 where
  pub start : ℕ
  pub start_text : List ℕ
  pub current : ℕ
  pub rest : List ℕ
  pub line : ℕ
  pub column : ℕ
  pub token_line : ℕ
  pub token_column : ℕ

unfoldable pub lexer_init : List ℕ → Lexer
lexer_init source = record {
  start = 0;
  start_text = source;
  current = 0;
  rest = source;
  line = 1;
  column = 1;
  token_line = 1;
  token_column = 1;
}

unfoldable pub is_digit : ℕ → Bool
is_digit c = leb b'0' c && leb c b'9'

unfoldable pub is_hex_digit : ℕ → Bool
is_hex_digit c = is_digit c || leb b'a' c && leb c b'f' || leb b'A' c && leb c b'F'

unfoldable pub is_alpha : ℕ → Bool
is_alpha c = leb b'a' c && leb c b'z' || leb b'A' c && leb c b'Z' || c == b'_'

unfoldable pub is_alnum : ℕ → Bool
is_alnum c = is_alpha c || is_digit c

unfoldable pub is_space : ℕ → Bool
is_space c = c == b' ' || c == b'\t' || c == b'\r'

unfoldable pub make_token : Lexer → TokenType → Token
make_token l type = record {
  token_type = type;
  text = take (l.current - l.start) l.start_text;
  span = record {
    start_offset = l.start;
    end_offset = l.current;
    start_line = l.token_line;
    start_column = l.token_column;
    end_line = l.line;
    end_column = l.column;
  };
}

-- The byte at the head of a text, the terminator at its end.
unfoldable pub first : List ℕ → ℕ
first [] = 0
first (c ∷ cs) = c

unfoldable pub peek : Lexer → ℕ
peek l = first l.rest

unfoldable pub peek_next : Lexer → ℕ
peek_next l = elim l.rest [ [] ↦ 0 | c ∷ cs ↦ if c == 0 then 0 else first cs ]

unfoldable pub peek_next_next : Lexer → ℕ
peek_next_next l = elim l.rest [
  | [] ↦ 0
  | c ∷ [] ↦ 0
  | c ∷ d ∷ cs ↦ if c == 0 || d == 0 then 0 else first cs
]

-- Moves `current` by one byte. A step over the terminator would leave the source: the offset
-- counts it, so that an offset past the end of the source shows.
unfoldable pub advance : Lexer → Lexer
advance l =
    let rest = drop 1 l.rest in
    if peek l == b'\n'
    then record l { current = suc l.current; rest = rest; line = suc l.line; column = 1 }
    else record l { current = suc l.current; rest = rest; column = suc l.column }

-- `match` where the source tests its answer: the branch for a match, which goes on behind the
-- byte, or the other one, which goes on in front of it.
unfoldable pub matched {ℓ} : {A : Type ℓ} → Lexer → ℕ → (Lexer → A) → A → A
matched l expected found missing = if peek l == expected then found (advance l) else missing

-- A `while` loop: it runs while its body is taken, at most as often as the fuel says.
unfoldable pub repeat : (Lexer → Option Lexer) → ℕ → Lexer → Lexer
repeat body zero l = l
repeat body (suc n) l = elim (body l) [ none ↦ l | some next ↦ repeat body n next ]
