-- ===== src/Runtime/Escapes.antt =====
-- print_string_escaped of src/runtime.c against an encoder of its escapes.
use holy_d.Prelude.{ℕ, ◌≡◌, refl, List, [], ◌∷◌, ◌++◌, false, ◌==◌, if◌then◌else◌, arith}
use holy_d.Runtime.Print.{print_string_escaped}

-- The source spelling of a byte: `\n`, `\\`, `\"`, or the byte itself.
unfoldable pub escape : ℕ → List ℕ
escape c =
    if c == 10
    then 92 ∷ b'n' ∷ []
    else if c == 92
    then 92 ∷ 92 ∷ []
    else if c == 34
    then 92 ∷ 34 ∷ []
    else c ∷ []

unfoldable pub escape_all : List ℕ → List ℕ
escape_all [] = []
escape_all (c ∷ rest) = escape c ++ escape_all rest

-- A byte that is no backslash is printed as it is, whatever comes behind.
printed-plain :
    (c : ℕ) (rest : List ℕ)
    → (c == 92) ≡ false
    → print_string_escaped (c ∷ rest) ≡ c ∷ print_string_escaped rest
unfolding print_string_escaped
printed-plain c [] h = refl
printed-plain c (d ∷ rest) h = ground arith

-- Printing the source spelling of a text gives back the text.
pub print_string_escaped-escape_all : (t : List ℕ) → print_string_escaped (escape_all t) ≡ t
unfolding print_string_escaped escape_all escape
print_string_escaped-escape_all [] = refl
print_string_escaped-escape_all (c ∷ rest) =
    ground (arith, print_string_escaped-escape_all rest, printed-plain c (escape_all rest))
