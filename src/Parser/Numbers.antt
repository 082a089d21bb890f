-- ===== src/Parser/Numbers.antt =====
-- The standard conversions that src/parser/parser.cpp calls on the text of a number token: `stoll`,
-- `stoull` and `stod`. Such a text is digits behind an optional minus sign, with a fraction for
-- `stod`. The result of `stod` is the closest binary64 number, and ties go to the even one; too large
-- a number, or an inexact one below the normal range, is out of range, as with glibc.
use htap_storage_lsm_tree.Common.{
  ℕ, zero, suc, ◌+◌, ◌-◌, ◌*◌, ◌%◌, ◌^◌, Bool, List, [], ◌∷◌, ◌++◌, not, ◌&&◌, ◌||◌, ◌==◌, leb, ltb,
  if◌then◌else◌, ℤ, pos, negsuc, length,
}
use htap_storage_lsm_tree.Types.Float64.{Double}
use htap_storage_lsm_tree.Types.Float64.Arithmetic.{units, nearest_pattern}
use htap_storage_lsm_tree.Parser.Lexer.{is_digit, first_or_nul}
use htap_storage_lsm_tree.Parser.Outcome.{Outcome, ok, failed, out_of_range, invalid_argument}

-- the digits at the front, and what stands behind them
unfoldable pub leading_digits : List ℕ → List ℕ × List ℕ
leading_digits [] = ([], [])
leading_digits (c ∷ cs) =
    let later = leading_digits cs in if is_digit c then (c ∷ later.0, later.1) else ([], c ∷ cs)

unfoldable pub decimal : ℕ → List ℕ → ℕ
decimal n [] = n
decimal n (c ∷ cs) = decimal (n * 10 + (c - b'0')) cs

unfoldable pub is_negative : List ℕ → Bool
is_negative text = first_or_nul text == b'-'

unfoldable pub unsigned_part : List ℕ → List ℕ
unsigned_part [] = []
unsigned_part (c ∷ cs) = if c == b'-' then cs else c ∷ cs

-- the conversion `f` of the number at the front of `text`, which must have a digit
unfoldable pub converted {ℓ} : {A : Type ℓ} → List ℕ → (ℕ → Outcome A) → Outcome A
converted text f =
    if is_digit (first_or_nul text)
    then f (decimal 0 (leading_digits text).0)
    else failed invalid_argument

-- -n
abbrev pub negative : ℕ → ℤ
negative zero = pos 0
negative (suc n) = negsuc n

unfoldable pub stoll : List ℕ → Outcome ℤ
unfolding is_negative unsigned_part
stoll text = converted (unsigned_part text) λ n.
    if is_negative text
    then if leb n (2 ^ 63) then ok (negative n) else failed out_of_range
    else if ltb n (2 ^ 63)
    then ok (pos n)
    else failed out_of_range

-- A minus sign negates in the unsigned type.
unfoldable pub stoull : List ℕ → Outcome ℕ
unfolding is_negative unsigned_part
stoull text = converted (unsigned_part text) λ n.
    if leb (2 ^ 64) n
    then failed out_of_range
    else ok (if is_negative text then (2 ^ 64 - n) % 2 ^ 64 else n)

abbrev pub is_inexact_tiny : ℕ → ℕ → ℕ → Bool
is_inexact_tiny value scale bits = ltb bits (2 ^ 52) && not (units bits * scale == value)

-- the number `mantissa / 10 ^ decimals`, with its sign
unfoldable pub to_double : Bool → ℕ → ℕ → Outcome Double
unfolding nearest_pattern
to_double is_minus mantissa decimals =
    let value = mantissa * 2 ^ 1074 in
    let scale = 10 ^ decimals in
    let bits = nearest_pattern value scale in
    if leb 0x7ff0000000000000 bits || is_inexact_tiny value scale bits
    then failed out_of_range
    else ok (record { bits = if is_minus then 2 ^ 63 + bits else bits })

unfoldable pub fraction_digits : List ℕ → List ℕ
fraction_digits [] = []
fraction_digits (c ∷ cs) = if c == b'.' then (leading_digits cs).0 else []

unfoldable pub stod : List ℕ → Outcome Double
unfolding to_double fraction_digits
stod text =
    let (whole, behind) = leading_digits (unsigned_part text) in
    let fraction = fraction_digits behind in
    if is_digit (first_or_nul whole)
    then to_double (is_negative text) (decimal 0 (whole ++ fraction)) (length fraction)
    else failed invalid_argument
