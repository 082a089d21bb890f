-- ===== src/Types/Float64/Arithmetic.antt =====
-- Addition, division and conversion of binary64, rounded to the nearest number with ties to even.
-- A finite double is a signed number of units of 2 ^ -1074.
use htap_storage_lsm_tree.Common.{
  ℕ, zero, suc, ◌+◌, ◌-◌, ◌*◌, ◌/◌, ◌%◌, ◌^◌, Bool, true, false, not, ◌&&◌, ◌||◌, ◌==◌, leb, ltb,
  if◌then◌else◌, ℤ, pos, negsuc, pos_part, neg_part, sub_ℕ, ◌+ℤ◌,
}
use htap_storage_lsm_tree.Types.Float64.{Double, magnitude, sign_bit, is_nan}

-- A positive double in units. The bit patterns are in the order of the values.
unfoldable pub units : ℕ → ℕ
units bits =
    let exponent = bits / 2 ^ 52 in
    let fraction = bits % 2 ^ 52 in
    if exponent == 0 then fraction else (2 ^ 52 + fraction) * 2 ^ (exponent - 1)

-- the greatest pattern at or below the number `value / scale` in those units, bit by bit
unfoldable pub pattern_below : ℕ → ℕ → ℕ → ℕ → ℕ
unfolding units
pattern_below zero value scale bits = bits
pattern_below (suc i) value scale bits =
    let more = bits + 2 ^ i in
    pattern_below i value scale (if leb (units more * scale) value then more else bits)

abbrev is_even : ℕ → Bool
is_even n = n % 2 == 0

unfoldable pub nearest_pattern : ℕ → ℕ → ℕ
unfolding pattern_below
nearest_pattern value scale =
    let low = pattern_below 63 value scale 0 in
    let middle = (units low + units (suc low)) * scale in
    if ltb (2 * value) middle
    then low
    else if ltb middle (2 * value)
    then suc low
    else if is_even low
    then low
    else suc low

abbrev infinity : ℕ
infinity = 0x7ff0000000000000

abbrev quiet_nan : Double
quiet_nan = record { bits = 0x7ff8000000000000 }

-- the double nearest to `value / scale` units, with its sign; a number out of range is infinite
unfoldable pub rounded : Bool → ℕ → ℕ → Double
unfolding nearest_pattern
rounded is_minus value scale =
    let bits = nearest_pattern value scale in
    let clamped = if leb infinity bits then infinity else bits in
    record { bits = if is_minus then 2 ^ 63 + clamped else clamped }

unfoldable pub is_minus_double : Double → Bool
unfolding sign_bit
is_minus_double d = not (sign_bit d == 0)

unfoldable pub is_infinite : Double → Bool
unfolding magnitude
is_infinite d = magnitude d == infinity

-- `static_cast<double>` of an integer
unfoldable pub of_int : ℤ → Double
unfolding rounded
of_int (pos n) = rounded false (n * 2 ^ 1074) 1
of_int (negsuc n) = rounded true (suc n * 2 ^ 1074) 1

unfoldable pub signed_units : Double → ℤ
unfolding units magnitude is_minus_double
signed_units d =
    if is_minus_double d then sub_ℕ 0 (units (magnitude d)) else pos (units (magnitude d))

-- the sum of two finite doubles; a sum of zero is negative for two negative zeros only
unfoldable pub add_finite : Double → Double → Double
unfolding rounded signed_units
add_finite a b =
    let sum = signed_units a +ℤ signed_units b in
    if pos_part sum + neg_part sum == 0
    then rounded (is_minus_double a && is_minus_double b) 0 1
    else rounded (not (neg_part sum == 0)) (pos_part sum + neg_part sum) 1

-- `a + b`
unfoldable pub add_double : Double → Double → Double
unfolding add_finite is_infinite is_minus_double
add_double a b =
    if is_nan a || is_nan b
    then quiet_nan
    else if is_infinite a
    then if is_infinite b && not (sign_bit a == sign_bit b) then quiet_nan else a
    else if is_infinite b
    then b
    else add_finite a b

-- `a / n` for a positive integer `n`, which is converted to a double first; it is below 2 ^ 53
unfoldable pub div_double : Double → ℕ → Double
unfolding rounded is_infinite is_minus_double
div_double a n =
    if is_nan a
    then quiet_nan
    else if is_infinite a
    then a
    else rounded (is_minus_double a) (units (magnitude a)) n
