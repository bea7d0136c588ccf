-- ===== src/Prelude/Int.antt =====
-- Signed integers over the native numbers, and the 64-bit words behind them. A `long long` is the
-- integer it stands for; `to_bits` and `of_bits` pass to its two's complement pattern and back.
use holy_d.Prelude.{
  ℕ, suc, ◌+◌, ◌-◌, ◌*◌, ◌/◌, ◌%◌, ◌^◌, ◌<◌, ◌≡◌, Bool, true, arith, ltb, leb, ◌==◌, if◌then◌else◌,
}

-- `negsuc n` is -(n + 1).
pub data ℤ : Type 0 where
  pos : ℕ → ℤ
  negsuc : ℕ → ℤ

abbrev pub pos_part : ℤ → ℕ
pos_part (pos n) = n
pos_part (negsuc n) = 0

abbrev pub neg_part : ℤ → ℕ
neg_part (pos n) = 0
neg_part (negsuc n) = suc n

-- a - b as an integer.
abbrev pub sub_ℕ : ℕ → ℕ → ℤ
sub_ℕ a b = if leb b a then pos (a - b) else negsuc (b - a - 1)

infixl 65 ◌+ℤ◌ ◌-ℤ◌
infixl 70 ◌*ℤ◌
unfoldable pub ◌+ℤ◌ : ℤ → ℤ → ℤ
a +ℤ b = sub_ℕ (pos_part a + pos_part b) (neg_part a + neg_part b)

unfoldable pub ◌-ℤ◌ : ℤ → ℤ → ℤ
a -ℤ b = sub_ℕ (pos_part a + neg_part b) (neg_part a + pos_part b)

unfoldable pub ◌*ℤ◌ : ℤ → ℤ → ℤ
a *ℤ b =
    sub_ℕ (pos_part a * pos_part b + neg_part a * neg_part b)
      (pos_part a * neg_part b + neg_part a * pos_part b)

-- C's division rounds towards zero. The divisor is not 0 where this is used.
unfoldable pub div_ℤ : ℤ → ℤ → ℤ
div_ℤ (pos a) (pos b) = pos (a / b)
div_ℤ (pos a) (negsuc b) = sub_ℕ 0 (a / suc b)
div_ℤ (negsuc a) (pos b) = sub_ℕ 0 (suc a / b)
div_ℤ (negsuc a) (negsuc b) = pos (suc a / suc b)

-- C's remainder: it has the sign of the dividend.
unfoldable pub mod_ℤ : ℤ → ℤ → ℤ
mod_ℤ (pos a) (pos b) = pos (a % b)
mod_ℤ (pos a) (negsuc b) = pos (a % suc b)
mod_ℤ (negsuc a) (pos b) = sub_ℕ 0 (suc a % b)
mod_ℤ (negsuc a) (negsuc b) = sub_ℕ 0 (suc a % suc b)

abbrev pub ltb_ℤ : ℤ → ℤ → Bool
ltb_ℤ a b = ltb (pos_part a + neg_part b) (pos_part b + neg_part a)

abbrev pub leb_ℤ : ℤ → ℤ → Bool
leb_ℤ a b = leb (pos_part a + neg_part b) (pos_part b + neg_part a)

abbrev pub eqb_ℤ : ℤ → ℤ → Bool
eqb_ℤ a b = pos_part a + neg_part b == pos_part b + neg_part a

-- The range of a 64-bit signed integer, -2^63 to 2^63 - 1.
abbrev pub fits : ℤ → Bool
fits (pos n) = ltb n (2 ^ 63)
fits (negsuc n) = ltb n (2 ^ 63)

abbrev pub to_bits : ℤ → ℕ
to_bits (pos n) = n % 2 ^ 64
to_bits (negsuc n) = 2 ^ 64 - 1 - n % 2 ^ 64

abbrev pub of_bits : ℕ → ℤ
of_bits w = if ltb w (2 ^ 63) then pos w else negsuc (2 ^ 64 - 1 - w)

pub of_bits-to_bits : (a : ℤ) → fits a ≡ true → of_bits (to_bits a) ≡ a
of_bits-to_bits (pos n) h = ground arith
of_bits-to_bits (negsuc n) h = ground arith

pub to_bits-of_bits : (w : ℕ) → w < 2 ^ 64 → to_bits (of_bits w) ≡ w
to_bits-of_bits w h = ground arith

pub fits-of_bits : (w : ℕ) → w < 2 ^ 64 → fits (of_bits w) ≡ true
fits-of_bits w h = ground arith

pub to_bits-lt : (a : ℤ) → to_bits a < 2 ^ 64
to_bits-lt (pos n) = omega arith
to_bits-lt (negsuc n) = omega arith
