-- ===== src/Runtime/Array.antt =====
-- HDConcat, HDArrayNew, HDIndex, HDIndexSet, HDLength and HDCast of src/runtime.c. An access outside
-- the block that an array points to is undefined, and so is a length past the range of `int`.
use holy_d.Prelude.{
  ℕ, ◌+◌, ◌*◌, ◌^◌, Bool, true, false, Option, some, none, List, [], ◌∷◌, ◌++◌, ltb, leb, ◌==◌,
  ◌||◌, if◌then◌else◌, length, get_elem?, set, take,
}
use holy_d.Prelude.Int.{pos}
use holy_d.Outcome.{Outcome, ok, fail, undefined, ◌>>=◌, ◌>>◌, guard}
use holy_d.Runtime.Value.{
  Host, Store, Value, int, float, string, array, BinOp, hd_concat, RtError, concat_type,
  out_of_memory, bad_access, bad_assignment, bad_length, bad_cast_int, bad_cast_float, CastKind,
  cast_int, cast_float, cast_bool, Run, lift, as_double, truthy, of_bool, is_numeric,
}
use holy_d.Runtime.Numeric.{binary_numeric}

-- sizeof(HDValue) on a 64-bit machine.
abbrev pub value_size : ℕ
value_size = 56

-- The `int` of a length.
abbrev pub int_length : ℕ → Outcome RtError ℕ
int_length n = if ltb n (2 ^ 31) then ok n else undefined

-- The elements that an array value shows.
unfoldable pub elements : Store → Value → Outcome RtError (List Value)
elements s (array a n) = if n == 0 then ok [] else elim (get_elem? s.cells a) [
  | none ↦ undefined
  | some c ↦ if leb n (length c) then ok (take n c) else undefined
]
elements s v = ok (v ∷ [])

abbrev pub is_array : Value → Bool
is_array (array _ _) = true
is_array _ = false

-- Count a call of `malloc`.
abbrev pub counted : Store → Store
counted s = record s { mallocs = s.mallocs + 1 }

-- A fresh block behind those in use, with its elements.
abbrev pub push_cell : List Value → Store → Value × Store
push_cell vs s = (array (length s.cells) (length vs), record s { cells = s.cells ++ vs ∷ [] })

-- The test that the index operations share; the index as a number.
abbrev pub in_range : ℕ → Value → Option ℕ
in_range n (int (pos i)) = if ltb i n then some i else none
in_range n _ = none

unfoldable pub index : Store → Value → Value → Outcome RtError Value
index s (array a n) i = elim (in_range n i) [
  | none ↦ fail bad_access
  | some k ↦ elim (get_elem? s.cells a) [
    | none ↦ undefined
    | some c ↦ elim (get_elem? c k) [ none ↦ undefined | some v ↦ ok v ]
  ]
]
index s _ i = fail bad_access

unfoldable pub index_set : Value → Value → Value → Store → Outcome RtError Store
index_set (array a n) i v s = elim (in_range n i) [
  | none ↦ fail bad_assignment
  | some k ↦ elim (get_elem? s.cells a) [
    | none ↦ undefined
    | some c ↦
        if ltb k (length c) then ok (record s { cells = set s.cells a (set c k v) }) else undefined
  ]
]
index_set _ i v s = fail bad_assignment

unfoldable pub length_of : Value → Outcome RtError Value
length_of (array _ n) = ok (int (pos n))
length_of (string t) = ok (int (pos (length t)))
length_of _ = fail bad_length

module _ ⦃host : Host⦄ where
  unfoldable pub array_new : List Value → Store → Run (Value × Store)
  array_new [] s = ok (array 0 0, s)
  array_new (v ∷ vs) s =
      if host.malloc s.mallocs (value_size * length (v ∷ vs))
      then ok (push_cell (v ∷ vs) (counted s))
      else lift s (fail out_of_memory)

  unfoldable pub concat : Value → Value → Store → Run (Value × Store)
  unfolding elements
  concat (string l) (string r) s = do
    n ← lift s (int_length (length l + length r))
    if host.malloc s.mallocs (n + 1)
        then ok (string (l ++ r), counted s)
        else lift s (fail out_of_memory)
  concat left right s =
      if is_array left || is_array right
      then (do
        ls ← lift s (elements s left)
        rs ← lift s (elements s right)
        n ← lift s (int_length (length ls + length rs))
        if host.malloc s.mallocs (value_size * n)
            then ok (push_cell (ls ++ rs) (counted s))
            else lift s (fail out_of_memory))
      else lift s (fail concat_type)

  abbrev pub is_concat : BinOp → Bool
  is_concat hd_concat = true
  is_concat _ = false

  -- HDBinary
  unfoldable pub binary : BinOp → Value → Value → Store → Run (Value × Store)
  unfolding concat binary_numeric
  binary op left right s =
      if is_concat op
      then concat left right s
      else (do v ← lift s (binary_numeric op left right); ok (v, s))

  -- (long long) of a double.
  abbrev pub to_integer : Value → Outcome RtError Value
  to_integer v = elim (host.to_int (as_double v)) [ none ↦ undefined | some n ↦ ok (int n) ]

  -- HDCast: an integer goes through double and back too.
  unfoldable pub cast : CastKind → Value → Outcome RtError Value
  cast cast_int v = do guard (is_numeric v) bad_cast_int; to_integer v
  cast cast_float v = do guard (is_numeric v) bad_cast_float; ok (float (as_double v))
  cast cast_bool v = ok (of_bool (truthy v))
