-- ===== src/Runtime/Print.antt =====
-- print_string_escaped, HDPrintDouble, HDPrintValue and HDPrintN of src/runtime.c, as the bytes that
-- they print. The decimal digits of `%lld` and `%06lld` are written out here.
use holy_d.Prelude.{
  ℕ, zero, suc, ◌+◌, ◌/◌, ◌%◌, Bool, not, Option, some, none, List, [], ◌∷◌, ◌++◌, ltb, ◌==◌,
  if◌then◌else◌, take,
}
use holy_d.Prelude.Int.{ℤ, pos, negsuc, leb_ℤ, ◌+ℤ◌, ◌-ℤ◌}
use holy_d.Prelude.Text.{bytes}
use holy_d.Outcome.{Outcome, ok, undefined, ◌>>=◌}
use holy_d.Syntax.{Double}
use holy_d.Runtime.Value.{Host, Store, Value, int, float, string, array, RtError, Run, lift}
use holy_d.Runtime.Array.{elements}

-- What an escape prints; none for a backslash that covers nothing known.
abbrev pub escape_of : ℕ → Option ℕ
escape_of c =
    if c == b'n' then some 10 else if c == 92 then some 92 else if c == 34 then some 34 else none

unfoldable pub print_string_escaped : List ℕ → List ℕ
print_string_escaped [] = []
print_string_escaped (c ∷ []) = c ∷ []
print_string_escaped (c ∷ next ∷ rest) =
    let plain = c ∷ print_string_escaped (next ∷ rest) in
    let escaped = print_string_escaped rest in
    if c == 92 then elim (escape_of next) [ none ↦ plain | some e ↦ e ∷ escaped ] else plain

-- The decimal digits of a number below 10 ^ fuel, in front of `acc`.
pub digits : ℕ → ℕ → List ℕ → List ℕ
digits zero n acc = acc
digits (suc f) n acc =
    let rest = digits f (n / 10) ((48 + n % 10) ∷ acc) in if ltb n 10 then (48 + n) ∷ acc else rest

-- %lld; a 64-bit integer has 19 digits at most.
unfoldable pub print_int : ℤ → List ℕ
unfolding digits
print_int (pos n) = digits 20 n []
print_int (negsuc n) = 45 ∷ digits 20 (suc n) []

abbrev five_digits : ℕ → List ℕ
five_digits n =
    (48 + n / 10000 % 10)
    ∷ (48 + n / 1000 % 10)
    ∷ (48 + n / 100 % 10)
    ∷ (48 + n / 10 % 10)
    ∷ (48 + n % 10)
    ∷ []

-- The first six characters of `%06lld`; a fraction below 1000000 has no more.
abbrev six_digits : ℕ → List ℕ
six_digits n =
    (48 + n / 100000 % 10)
    ∷ (48 + n / 10000 % 10)
    ∷ (48 + n / 1000 % 10)
    ∷ (48 + n / 100 % 10)
    ∷ (48 + n / 10 % 10)
    ∷ (48 + n % 10)
    ∷ []

abbrev trimmed_tail : List ℕ → List ℕ
trimmed_tail [] = []
trimmed_tail (d ∷ ds) = elim (trimmed_tail ds) [
  | [] ↦ if d == 48 then [] else d ∷ []
  | e ∷ es ↦ d ∷ e ∷ es
]

abbrev trimmed : List ℕ → List ℕ
trimmed [] = []
trimmed (d ∷ ds) = d ∷ trimmed_tail ds

module _ ⦃host : Host⦄ where
  -- 9.0e18, 1000000.0 and 0.5
  abbrev huge : Double
  huge = 0x43df_399b_1438_a100

  abbrev million : Double
  million = 0x412e_8480_0000_0000

  abbrev half : Double
  half = 0x3fe0_0000_0000_0000

  abbrev truncated : Double → Outcome RtError ℤ
  truncated d = elim (host.to_int d) [ none ↦ undefined | some n ↦ ok n ]

  abbrev print_parts : ℤ → ℤ → List ℕ
  print_parts whole (pos f) = print_int whole ++ 46 ∷ trimmed (six_digits f)
  print_parts whole (negsuc f) =
      let tail =
        if ltb (suc f) 100000 then five_digits (suc f) else take 5 (digits 20 (suc f) []) in
      print_int whole ++ 46 ∷ trimmed (45 ∷ tail)

  -- HDPrintDouble from the point where the sign is printed.
  abbrev print_magnitude : Double → Outcome RtError (List ℕ)
  print_magnitude v = do
    whole ← truncated v
    frac ← truncated (host.fadd (host.fmul (host.fsub v (host.of_int whole)) million) half)
    ok (
        if leb_ℤ (pos 1000000) frac
        then print_parts (whole +ℤ pos 1) (frac -ℤ pos 1000000)
        else print_parts whole frac)

  unfoldable pub print_double : Double → Outcome RtError (List ℕ)
  unfolding print_int ◌+ℤ◌ ◌-ℤ◌
  print_double v =
      if not (host.feq v v)
      then ok (bytes "nan")
      else (let negative = host.flt v 0 in
          let sign : List ℕ = if negative then 45 ∷ [] else [] in
          let v' = if negative then host.fneg v else v in
          if host.fle huge v'
          then ok (sign ++ bytes "<out of range>")
          else (do t ← print_magnitude v'; ok (sign ++ t)))

  -- The loop over an array's elements, with ", " between them.
  abbrev print_items : (Value → Outcome RtError (List ℕ)) → List Value → Outcome RtError (List ℕ)
  print_items p [] = ok []
  print_items p (v ∷ []) = p v
  print_items p (v ∷ w ∷ rest) = do
    t ← p v
    ts ← print_items p (w ∷ rest)
    ok (t ++ bytes ", " ++ ts)

  -- HDPrintValue. The first argument is how deep the C stack lets it recurse: an array that holds
  -- itself, or one that is nested deeper, overflows the stack, which is undefined.
  unfoldable pub print_value : ℕ → Store → Value → Outcome RtError (List ℕ)
  unfolding print_string_escaped print_double print_int elements
  print_value depth s (string t) = ok (print_string_escaped t)
  print_value depth s (float d) = print_double d
  print_value depth s (int n) = ok (print_int n)
  print_value zero s (array a n) = undefined
  print_value (suc depth) s (array a n) = do
    vs ← elements s (array a n)
    ts ← print_items (print_value depth s) vs
    ok (91 ∷ ts ++ 93 ∷ [])

  abbrev print_all : (Value → Outcome RtError (List ℕ)) → List Value → Outcome RtError (List ℕ)
  print_all p [] = ok []
  print_all p (v ∷ vs) = do t ← p v; ts ← print_all p vs; ok (t ++ ts)

  -- HDPrintN: the store with the text behind what was printed, and int 0.
  unfoldable pub print_n : ℕ → List Value → Bool → Store → Run (Value × Store)
  unfolding print_value
  print_n depth args add_newline s = do
    t ← lift s (print_all (print_value depth s) args)
    let line : List ℕ = if add_newline then t ++ 10 ∷ [] else t
    ok (int (pos 0), record s { output = s.output ++ line })
