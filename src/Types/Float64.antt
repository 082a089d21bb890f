-- ===== src/Types/Float64.antt =====
-- `double` as its IEEE 754 bit pattern (binary64), with the order that `<` and `>` compute.
pub mod Arithmetic
use htap_storage_lsm_tree.Common.{
  ℕ, ◌/◌, ◌%◌, ◌^◌, Bool, not, ◌&&◌, ltb, ◌==◌, if◌then◌else◌, ℤ, pos, sub_ℕ, ltb_ℤ, leb_ℤ,
}

pub record Double : Type 0 where
  pub bits : ℕ

-- Exponent and mantissa, without the sign bit.
unfoldable pub magnitude : Double → ℕ
magnitude d = d.bits % 2 ^ 63

unfoldable pub sign_bit : Double → ℕ
sign_bit d = d.bits / 2 ^ 63 % 2

-- `std::isnan`: all exponent bits set and a mantissa other than zero.
unfoldable pub is_nan : Double → Bool
unfolding magnitude
is_nan d = ltb 0x7ff0000000000000 (magnitude d)

-- Among numbers, the order of the signed magnitudes is the order of the values; the two zeros agree.
unfoldable pub order_key : Double → ℤ
unfolding magnitude sign_bit
order_key d = if sign_bit d == 0 then pos (magnitude d) else sub_ℕ 0 (magnitude d)

-- `a < b`: false as soon as one side is not a number.
abbrev pub lt_double : Double → Double → Bool
lt_double a b = not (is_nan a) && (not (is_nan b) && ltb_ℤ (order_key a) (order_key b))

abbrev pub zero_double : Double
zero_double = record { bits = 0 }

-- `a <= b`
abbrev pub le_double : Double → Double → Bool
le_double a b = not (is_nan a) && (not (is_nan b) && leb_ℤ (order_key a) (order_key b))
