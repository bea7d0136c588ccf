-- ===== src/Runtime/Value.antt =====
-- HDValue of src/eval.h, the constructors and inspections of src/runtime.c, the store that values
-- point into, and the host: the floating-point unit and the allocator, which are no code of the
-- program and enter as an instance argument.
use holy_d.Prelude.{
  ℕ, Bool, true, false, not, ◌||◌, Option, some, none, List, ◌==◌, if◌then◌else◌, length,
  same_bytes,
}
use holy_d.Prelude.Int.{ℤ, pos, eqb_ℤ}
use Prim.Native.String.{String}
use holy_d.Prelude.Text.{bytes}
use holy_d.Outcome.{Outcome, ok, fail, undefined, exhausted}
use holy_d.Syntax.{Name, Double, TypeSyntax, named_type}

-- `double` arithmetic on bit patterns, and whether a `malloc` that the code checks succeeds: by the
-- number of such calls before it and the bytes that it asks for. `to_int` is none where C leaves the cast undefined.
pub record Host : Type 0 where
  pub fadd : Double → Double → Double
  pub fsub : Double → Double → Double
  pub fmul : Double → Double → Double
  pub fdiv : Double → Double → Double
  pub fneg : Double → Double
  pub feq : Double → Double → Bool
  pub flt : Double → Double → Bool
  pub fle : Double → Double → Bool
  pub of_int : ℤ → Double
  pub to_int : Double → Option ℤ
  pub malloc : ℕ → ℕ → Bool

-- A string's bytes never change, so it is its bytes. An array is the address of its elements, which
-- copies of the value share, and its length.
pub data Value : Type 0 where
  int : ℤ → Value
  float : Double → Value
  string : List ℕ → Value
  array : ℕ → ℕ → Value

-- The blocks of elements that `malloc` gave out, the number of checked `malloc` calls, and what
-- was printed.
pub record Store : Type 0 where
  pub cells : List (List Value)
  pub mallocs : ℕ
  pub output : List ℕ

pub data BinOp : Type 0 where
  hd_add hd_sub hd_mul hd_div hd_mod hd_pow hd_eq hd_ne hd_lt hd_gt hd_le hd_ge : BinOp
  hd_band hd_bor hd_bxor hd_shl hd_shr hd_ushr hd_concat : BinOp

pub data CastKind : Type 0 where
  cast_int cast_float cast_bool : CastKind

-- One constructor for each message of src/runtime.c and of the VM in src/compiler.c.
pub data RtError : Type 0 where
  non_numeric division_by_zero exponent_type negative_exponent concat_type : RtError
  out_of_memory bad_access bad_assignment bad_length bad_cast_int bad_cast_float : RtError
  expects_integers shift_range : BinOp → RtError
  stack_underflow stack_overflow print_underflow native_underflow : RtError
  call_underflow array_underflow cast_target : RtError
  undefined_variable no_slot unknown_function bad_arity : Name → RtError

-- A runtime error stops the program: with it stands what had been printed.
pub record Fault : Type 0 where
  pub error : RtError
  pub printed : List ℕ

abbrev pub Run {ℓ} : Type ℓ → Type ℓ
Run A = Outcome Fault A

abbrev pub lift {ℓ} : {A : Type ℓ} → Store → Outcome RtError A → Run A
lift s (ok a) = ok a
lift s (fail e) = fail (record { error = e; printed = s.output })
lift s undefined = undefined
lift s exhausted = exhausted

abbrev pub is_numeric : Value → Bool
is_numeric (int _) = true
is_numeric (float _) = true
is_numeric _ = false

-- A C truth value as the int that it is.
abbrev pub of_bool : Bool → Value
of_bool b = int (pos (if b then 1 else 0))

module _ ⦃host : Host⦄ where
  -- HDAsDouble. A value that is no number has 0 for its i64.
  abbrev pub as_double : Value → Double
  as_double (float d) = d
  as_double (int n) = host.of_int n
  as_double _ = host.of_int (pos 0)

  -- HDTruthy; 0.0 is the pattern 0.
  abbrev pub truthy : Value → Bool
  truthy (int n) = not (eqb_ℤ n (pos 0))
  truthy (float d) = not (host.feq d 0)
  truthy (string s) = not (length s == 0)
  truthy (array _ n) = not (n == 0)

  -- HDNot
  abbrev pub not_value : Value → Value
  not_value v = of_bool (not (truthy v))

-- HDCastKindFromTypeSyntax: the kind that a named type spells, if any.
unfoldable pub cast_kind_named : Name → Option CastKind
cast_kind_named name =
    if is "F64" || is "double"
    then some cast_float
    else if is "Bool" || is "bool"
    then some cast_bool
    else if is "I8"
        || is "U8"
        || is "I16"
        || is "U16"
        || is "I32"
        || is "U32"
        || is "I64"
        || is "U64"
        || is "int"
        || is "uint"
        || is "long"
        || is "ulong"
    then some cast_int
    else none
  where
    is : String → Bool
    is s = same_bytes name (bytes s)

unfoldable pub cast_kind_of : TypeSyntax → Option CastKind
unfolding cast_kind_named
cast_kind_of (named_type name) = cast_kind_named name
cast_kind_of _ = none
