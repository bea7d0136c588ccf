-- ===== src/Prelude/Text.antt =====
-- Text literals as the bytes that the program walks.
use Prim.Native.Char.{code}
use Prim.Native.String.{String}
use holy_d.Prelude.{ℕ, List, [], ◌∷◌}

-- The code points of a text: its bytes, since it is ASCII.
abbrev pub bytes : String → List ℕ
bytes String.[] = []
bytes (String.◌∷◌ c s) = code c ∷ bytes s
