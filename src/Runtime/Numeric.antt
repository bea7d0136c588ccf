-- ===== src/Runtime/Numeric.antt =====
-- HDBinary of src/runtime.c on numbers, with `power`, `integer_only` and `shift_amount`. Signed
-- overflow is undefined in C, so an `int` result is given only where it fits 64 bits.
use Prim.Native.Nat.{bit_and, bit_or, bit_xor}
use holy_d.Prelude.{
  ℕ, zero, suc, ◌*◌, ◌/◌, ◌%◌, ◌^◌, Bool, true, false, not, ◌&&◌, ltb, if◌then◌else◌,
}
use holy_d.Prelude.Int.{
  ℤ, pos, negsuc, ◌+ℤ◌, ◌-ℤ◌, ◌*ℤ◌, div_ℤ, ltb_ℤ, leb_ℤ, eqb_ℤ, fits, to_bits, of_bits,
}
use holy_d.Outcome.{Outcome, ok, fail, undefined, ◌>>=◌, ◌>>◌, guard}
use holy_d.Syntax.{Double}
use holy_d.Runtime.Value.{
  Host, Value, int, float, BinOp, hd_add, hd_sub, hd_mul, hd_div, hd_mod, hd_pow, hd_eq, hd_ne,
  hd_lt, hd_gt, hd_le, hd_ge, hd_band, hd_bor, hd_bxor, hd_shl, hd_shr, hd_ushr, RtError,
  non_numeric, division_by_zero, exponent_type, negative_exponent, expects_integers, shift_range,
  is_numeric, of_bool, as_double,
}

abbrev pub Result : Type 0
Result = Outcome RtError Value

-- The value of a signed expression whose exact result is `n`.
abbrev pub exact : ℤ → Result
exact n = if fits n then ok (int n) else undefined

-- integer_only
pub integers : BinOp → Value → Value → Outcome RtError (ℤ × ℤ)
integers op (int a) (int b) = ok (a, b)
integers op _ _ = fail (expects_integers op)

-- shift_amount
pub shift_amount : BinOp → ℤ → Outcome RtError ℕ
shift_amount op (pos n) = if ltb n 64 then ok n else fail (shift_range op)
shift_amount op (negsuc n) = fail (shift_range op)

-- `a >> k` on a signed operand keeps the sign: it rounds down.
abbrev pub shift_right : ℤ → ℕ → ℤ
shift_right (pos n) k = pos (n / 2 ^ k)
shift_right (negsuc n) k = negsuc (n / 2 ^ k)

-- The loops of `power`: `n` rounds are left.
abbrev pub power_int : ℕ → ℤ → ℤ → Result
power_int zero acc base = ok (int acc)
power_int (suc n) acc base = elim (fits (acc *ℤ base)) [
  | true ↦ power_int n (acc *ℤ base) base
  | false ↦ undefined
]

module _ ⦃host : Host⦄ where
  abbrev pub power_float : ℕ → Double → Double → Double
  power_float zero acc base = acc
  power_float (suc n) acc base = power_float n (host.fmul acc base) base

  -- The pattern of 1.0.
  abbrev one : Double
  one = 0x3ff0_0000_0000_0000

  pub power : Value → Value → Result
  power base (int (negsuc n)) = fail negative_exponent
  power (float d) (int (pos n)) = ok (float (power_float n one d))
  power (int a) (int (pos n)) = power_int n (pos 1) a
  -- HDBinary calls it with two numbers only.
  power _ (int (pos n)) = power_int n (pos 1) (pos 0)
  power base _ = fail exponent_type

  -- The switch over the operators that never promote; none where the switch breaks out.
  abbrev pub integer_result : BinOp → ℤ → ℤ → Result
  integer_result hd_mod a b =
      if eqb_ℤ b (pos 0)
      then fail division_by_zero
      else if fits (div_ℤ a b)
      then exact (a -ℤ div_ℤ a b *ℤ b)
      else undefined
  integer_result hd_band a b = ok (int (of_bits (bit_and (to_bits a) (to_bits b))))
  integer_result hd_bor a b = ok (int (of_bits (bit_or (to_bits a) (to_bits b))))
  integer_result hd_bxor a b = ok (int (of_bits (bit_xor (to_bits a) (to_bits b))))
  integer_result hd_shl a b = do
    by ← shift_amount hd_shl b
    ok (int (of_bits (to_bits a * 2 ^ by % 2 ^ 64)))
  integer_result hd_shr a b = do by ← shift_amount hd_shr b; ok (int (shift_right a by))
  integer_result hd_ushr a b = do
    by ← shift_amount hd_ushr b
    ok (int (of_bits (to_bits a / 2 ^ by)))
  integer_result hd_add a b = exact (a +ℤ b)
  integer_result hd_sub a b = exact (a -ℤ b)
  integer_result hd_mul a b = exact (a *ℤ b)
  integer_result hd_div a b = if eqb_ℤ b (pos 0) then fail division_by_zero else exact (div_ℤ a b)
  integer_result hd_eq a b = ok (of_bool (eqb_ℤ a b))
  integer_result hd_ne a b = ok (of_bool (not (eqb_ℤ a b)))
  integer_result hd_lt a b = ok (of_bool (ltb_ℤ a b))
  integer_result hd_gt a b = ok (of_bool (ltb_ℤ b a))
  integer_result hd_le a b = ok (of_bool (leb_ℤ a b))
  integer_result hd_ge a b = ok (of_bool (leb_ℤ b a))
  integer_result _ a b = ok (int (pos 0))

  -- The switch of the promoted path. A NaN makes every comparison but `!=` false.
  abbrev pub float_result : BinOp → Double → Double → Result
  float_result hd_add a b = ok (float (host.fadd a b))
  float_result hd_sub a b = ok (float (host.fsub a b))
  float_result hd_mul a b = ok (float (host.fmul a b))
  float_result hd_div a b =
      if host.feq b 0 then fail division_by_zero else ok (float (host.fdiv a b))
  float_result hd_eq a b = ok (of_bool (host.feq a b))
  float_result hd_ne a b = ok (of_bool (not (host.feq a b)))
  float_result hd_lt a b = ok (of_bool (host.flt a b))
  float_result hd_gt a b = ok (of_bool (host.flt b a))
  float_result hd_le a b = ok (of_bool (host.fle a b))
  float_result hd_ge a b = ok (of_bool (host.fle b a))
  float_result _ a b = ok (int (pos 0))

  -- Whether an operator stands in the switch of those that never promote to double.
  abbrev pub never_promotes : BinOp → Bool
  never_promotes hd_mod = true
  never_promotes hd_band = true
  never_promotes hd_bor = true
  never_promotes hd_bxor = true
  never_promotes hd_shl = true
  never_promotes hd_shr = true
  never_promotes hd_ushr = true
  never_promotes _ = false

  abbrev pub arithmetic : BinOp → Value → Value → Result
  arithmetic op (int a) (int b) = integer_result op a b
  arithmetic op left right = float_result op (as_double left) (as_double right)

  abbrev pub is_pow : BinOp → Bool
  is_pow hd_pow = true
  is_pow _ = false

  -- HDBinary behind its test for `~`.
  unfoldable pub binary_numeric : BinOp → Value → Value → Result
  unfolding integers shift_amount power ◌+ℤ◌ ◌-ℤ◌ ◌*ℤ◌ div_ℤ
  binary_numeric op left right = do
    guard (is_numeric left && is_numeric right) non_numeric
    if is_pow op
        then power left right
        else if never_promotes op
        then (do (a, b) ← integers op left right; integer_result op a b)
        else arithmetic op left right
