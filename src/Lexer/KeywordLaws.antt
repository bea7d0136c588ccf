-- ===== src/Lexer/KeywordLaws.antt =====
-- The keyword table of src/lexer/lexer.c: no spelling twice, and each of them a word.
use holy_d.Prelude.{
  ℕ, zero, suc, ◌≡◌, refl, Bool, true, false, not, ◌&&◌, List, [], ◌∷◌, some, inl, inr, arith,
  same_bytes, same_bytes_self, same_bytes→eq, get_elem?, Bool-cases, if◌then◌else◌,
}
use holy_d.Lexer.Cursor.{is_digit, is_alpha, is_alnum}
use holy_d.Lexer.Keywords.{keywords, keyword_lookup, Keyword}
use holy_d.Lexer.Words.{all_bytes}

-- No spelling of a table stands in it twice.
spelt : List ℕ → List Keyword → Bool
spelt text [] = false
spelt text (k ∷ ks) = let rest = spelt text ks in if same_bytes k.spelling text then true else rest

distinct : List Keyword → Bool
distinct [] = true
distinct (k ∷ ks) = not (spelt k.spelling ks) && distinct ks

some_same : (x y : Keyword) → some x ≡ some y → x ≡ y
some_same x y h = cc

member-spelt :
    (ks : List Keyword) (i : ℕ) (k : Keyword) → get_elem? ks i ≡ some k → spelt k.spelling ks ≡ true
unfolding spelt
member-spelt [] i k h = cc
member-spelt (x ∷ ks) zero k h =
    let same : x ≡ k = some_same x k h in rw same (rw (same_bytes_self k.spelling) refl)
member-spelt (x ∷ ks) (suc i) k h = elim (Bool-cases (same_bytes x.spelling k.spelling)) [
  | inl e ↦ rw e refl
  | inr e ↦ rw e (member-spelt ks i k h)
]

-- The lookup of a keyword's spelling in a table without repetitions finds its type.
distinct-lookup :
    (ks : List Keyword) (i : ℕ) (k : Keyword)
    → distinct ks ≡ true
    → get_elem? ks i ≡ some k
    → keyword_lookup ks k.spelling ≡ k.keyword_type
unfolding distinct keyword_lookup
distinct-lookup [] i k d h = cc
distinct-lookup (x ∷ ks) zero k d h =
    let same : x ≡ k = some_same x k h in rw same (rw (same_bytes_self k.spelling) refl)
distinct-lookup (x ∷ ks) (suc i) k d h = elim (Bool-cases (same_bytes x.spelling k.spelling)) [
  | inl e ↦
      let twice : spelt x.spelling ks ≡ true =
        rw (same_bytes→eq x.spelling k.spelling e) (member-spelt ks i k h) in
      absurd (ground arith)
  | inr e ↦ rw e (distinct-lookup ks i k (ground arith) h)
]

-- The spelling of each keyword of the table is looked up as that keyword.
pub keyword_lookup-spelling :
    (i : ℕ) (k : Keyword)
    → get_elem? keywords i ≡ some k
    → keyword_lookup keywords k.spelling ≡ k.keyword_type
unfolding distinct spelt keywords same_bytes
keyword_lookup-spelling i k h = distinct-lookup keywords i k refl h

is_word : List ℕ → Bool
is_word [] = false
is_word (c ∷ w) = is_alpha c && all_bytes is_alnum w

all_words : List Keyword → Bool
all_words [] = true
all_words (k ∷ ks) = is_word k.spelling && all_words ks

member-word :
    (ks : List Keyword) (i : ℕ) (k : Keyword)
    → all_words ks ≡ true
    → get_elem? ks i ≡ some k
    → is_word k.spelling ≡ true
unfolding all_words
member-word [] i k h e = cc
member-word (x ∷ ks) zero k h e = rw (← (some_same x k e)) (ground arith)
member-word (x ∷ ks) (suc i) k h e = member-word ks i k (ground arith) e

word-parts :
    (s : List ℕ)
    → is_word s ≡ true
    → (c : ℕ) × (w : List ℕ) × (s ≡ c ∷ w) × (is_alpha c ≡ true) × (all_bytes is_alnum w ≡ true)
unfolding is_word
word-parts [] h = cc
word-parts (c ∷ w) h = (c, w, refl, ground arith, ground arith)

-- Each keyword of the table is a letter and bytes of a word behind it.
pub keyword-word :
    (i : ℕ) (k : Keyword)
    → get_elem? keywords i ≡ some k
    → (c : ℕ) × (w : List ℕ) × (k.spelling ≡ c ∷ w)
      × (is_alpha c ≡ true)
      × (all_bytes is_alnum w ≡ true)
unfolding all_words is_word keywords is_alpha is_alnum is_digit all_bytes
keyword-word i k h = word-parts k.spelling (member-word keywords i k refl h)
