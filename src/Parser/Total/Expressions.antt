-- ===== src/Parser/Total/Expressions.antt =====
-- The fuel that the expressions of src/parser/parser.cpp need: five calls for each byte.
use htap_storage_lsm_tree.Common.{
  ℕ, zero, suc, ◌+◌, ◌*◌, ◌≤◌, Bool, true, false, List, refl, arith, none, some, ◌^◌, ◌++◌, length,
  leb, ltb, ◌||◌,
}
use htap_storage_lsm_tree.Parser.Token.{TokenType, type_code}
use htap_storage_lsm_tree.Parser.Ast.{Expression, BinaryOperation}
use htap_storage_lsm_tree.Types.Float64.Arithmetic.{nearest_pattern}
use htap_storage_lsm_tree.Parser.Numbers.{
  converted, stoll, stoull, stod, to_double, is_negative, is_inexact_tiny, leading_digits,
  unsigned_part, fraction_digits, decimal,
}
use htap_storage_lsm_tree.Parser.Lexer.{is_digit, first_or_nul}
use htap_storage_lsm_tree.Parser.Outcome.{
  Outcome, ok, Ensures, holds, rejected, Ensures-bind, Ensures-if,
}
use htap_storage_lsm_tree.Parser.Actions.{Action, is_expected_token, is_column_name_token}
use htap_storage_lsm_tree.Parser.Expressions.{
  convert, is_literal_token, parse_literal_expression, parse_plain_atom, comparison, parse_is_null,
  compared, predicate_rest, joined, parse_or_expression, or_loop, parse_and_expression, and_loop,
  parse_not_expression, parse_predicate_expression, parse_atomic_expression,
}
use htap_storage_lsm_tree.Parser.Total.{
  remaining, Fits, Within, pure-Within, refuse-Within, Within-bind, advance-Within, advance_guarded,
  expect-Within, advance_to-Within,
}

-- The conversion needs no fuel.
abbrev pub Returns {ℓ} : {A : Type ℓ} → Outcome A → Type ℓ
Returns r = Ensures (λ _. Unit {0}) r

converted-Returns {ℓ} :
    {A : Type ℓ} (text : List ℕ) (f : ℕ → Outcome A)
    → ((n : ℕ) → Returns (f n))
    → Returns (converted text f)
unfolding converted
converted-Returns text f h = Ensures-if (is_digit (first_or_nul text)) (λ _. h _) λ _. rejected

stoll-Returns : (text : List ℕ) → Returns (stoll text)
unfolding stoll
stoll-Returns text = converted-Returns _ _ λ n.
    Ensures-if (is_negative text) (λ _. Ensures-if (leb n (2 ^ 63)) (λ _. holds tt) λ _. rejected)
      λ _. Ensures-if (ltb n (2 ^ 63)) (λ _. holds tt) λ _. rejected

pub stoull-Returns : (text : List ℕ) → Returns (stoull text)
unfolding stoull
stoull-Returns text =
    converted-Returns _ _ λ n. Ensures-if (leb (2 ^ 64) n) (λ _. rejected) λ _. holds tt

to_double-Returns :
    (is_minus : Bool) (mantissa decimals : ℕ) → Returns (to_double is_minus mantissa decimals)
unfolding to_double
to_double-Returns is_minus mantissa decimals =
    let value = mantissa * 2 ^ 1074 in
    let scale = 10 ^ decimals in
    let bits = nearest_pattern value scale in
    Ensures-if (leb 0x7ff0000000000000 bits || is_inexact_tiny value scale bits) (λ _. rejected)
      λ _. holds tt

stod-Returns : (text : List ℕ) → Returns (stod text)
unfolding stod
stod-Returns text =
    let (whole, behind) = leading_digits (unsigned_part text) in
    let fraction = fraction_digits behind in
    Ensures-if (is_digit (first_or_nul whole))
      (λ _. to_double-Returns (is_negative text) (decimal 0 (whole ++ fraction)) (length fraction))
      λ _. rejected

pub convert-Within {ℓ} :
    {A : Type ℓ} (n : ℕ) (f : List ℕ → Outcome A)
    → ((text : List ℕ) → Returns (f text))
    → Within n (convert f)
convert-Within n f r p h = Ensures-bind _ (r p.current.text) λ a _. holds (omega arith)

pub literal-Within : (n : ℕ) → Within n parse_literal_expression
unfolding parse_literal_expression
literal-Within n p h =
    Ensures-if (is_expected_token TokenType.string_literal p) (λ _. advance_to-Within n _ p h)
      λ _.
        Ensures-if (is_expected_token TokenType.int_literal p)
          (λ _.
            Within-bind (convert-Within n stoll stoll-Returns)
              (λ v. advance_to-Within n (Expression.int_literal v)) p h)
          λ _.
            Ensures-if (is_expected_token TokenType.double_literal p)
              (λ _.
                Within-bind (convert-Within n stod stod-Returns)
                  (λ v. advance_to-Within n (Expression.double_literal v)) p h)
              λ _.
                Ensures-if (is_expected_token TokenType.null p) (λ _. advance_to-Within n _ p h)
                  λ _. refuse-Within n "Expected literal value" p h

plain_atom-Within : (n : ℕ) → Within n parse_plain_atom
unfolding parse_plain_atom
plain_atom-Within n p h =
    Ensures-if (is_column_name_token p) (λ _. advance_to-Within n _ p h)
      λ _.
        Ensures-if (is_literal_token p) (λ _. literal-Within n p h)
          λ _. refuse-Within n "Expected atomic expression" p h

is_null-Within : (n : ℕ) (left : Expression) → Within n (parse_is_null left)
unfolding parse_is_null
is_null-Within n left =
    let behind = λ (is_not : Bool).
      Within-bind (expect-Within n TokenType.null "Expected NULL after IS or IS NOT")
        λ _. pure-Within n (Expression.is_null left is_not) in
    Within-bind (advance-Within n) λ _ p h.
      Ensures-if _ (λ _. Within-bind (advance-Within n) (λ _. behind true) p h)
        λ _. behind false p h

compared-Within :
    (n : ℕ) (operation : BinaryOperation) (atom : Action Expression) (left : Expression)
    → Within n atom
    → Within n (compared operation atom left)
unfolding compared
compared-Within n operation atom left w =
    Within-bind (advance-Within n) λ _. Within-bind w λ right. pure-Within n _

predicate_rest-Within :
    (n : ℕ) (atom : Action Expression) (left : Expression)
    → Within n atom
    → Within n (predicate_rest atom left)
unfolding predicate_rest
predicate_rest-Within n atom left w p h =
    Ensures-if (is_expected_token TokenType.is p) (λ _. is_null-Within n left p h)
      λ _.
        elim (comparison p)
          as (λ c.
            Fits (remaining p)
              (elim c [ none ↦ ok (left, p) | some operation ↦ compared operation atom left p ])) [
                | none ↦ pure-Within n left p h
                | some operation ↦ compared-Within n operation atom left w p h
              ]

-- What `fuel` is enough for, with at most `n` left.
record Enough (fuel : ℕ) : Type 0 where
  or_enough : (n : ℕ) → 5 * n + 5 ≤ fuel → Within n (parse_or_expression fuel)
  or_loop_enough : (n : ℕ) → 5 * n + 1 ≤ fuel → (e : Expression) → Within n (or_loop fuel e)
  and_enough : (n : ℕ) → 5 * n + 4 ≤ fuel → Within n (parse_and_expression fuel)
  and_loop_enough : (n : ℕ) → 5 * n + 1 ≤ fuel → (e : Expression) → Within n (and_loop fuel e)
  not_enough : (n : ℕ) → 5 * n + 3 ≤ fuel → Within n (parse_not_expression fuel)
  predicate_enough : (n : ℕ) → 5 * n + 2 ≤ fuel → Within n (parse_predicate_expression fuel)
  atomic_enough : (n : ℕ) → 5 * n + 1 ≤ fuel → Within n (parse_atomic_expression fuel)

or_loop-Within :
    (fuel n : ℕ)
    → Enough fuel
    → 5 * n + 1 ≤ suc fuel
    → (left : Expression) → Within n (or_loop (suc fuel) left)
unfolding or_loop joined type_code
or_loop-Within fuel n h b left p le =
    Ensures-if _
      (λ e. advance_guarded TokenType.or p refl e le λ k s.
        Within-bind (h.and_enough k (omega arith)) λ right. h.or_loop_enough k (omega arith) _)
      λ _. holds (omega arith)

and_loop-Within :
    (fuel n : ℕ)
    → Enough fuel
    → 5 * n + 1 ≤ suc fuel
    → (left : Expression) → Within n (and_loop (suc fuel) left)
unfolding and_loop joined type_code
and_loop-Within fuel n h b left p le =
    Ensures-if _
      (λ e. advance_guarded TokenType.and p refl e le λ k s.
        Within-bind (h.not_enough k (omega arith)) λ right. h.and_loop_enough k (omega arith) _)
      λ _. holds (omega arith)

not-Within :
    (fuel n : ℕ) → Enough fuel → 5 * n + 3 ≤ suc fuel → Within n (parse_not_expression (suc fuel))
unfolding parse_not_expression type_code
not-Within fuel n h b p le =
    Ensures-if _
      (λ e.
        advance_guarded TokenType.not p refl e le
          λ k s. Within-bind (h.not_enough k (omega arith)) λ operand. pure-Within k _)
      λ _. h.predicate_enough n (omega arith) p le

atomic-Within :
    (fuel n : ℕ)
    → Enough fuel
    → 5 * n + 1 ≤ suc fuel
    → Within n (parse_atomic_expression (suc fuel))
unfolding parse_atomic_expression type_code
atomic-Within fuel n h b p le =
    Ensures-if _
      (λ e. advance_guarded TokenType.lparen p refl e le λ k s.
        Within-bind (h.or_enough k (omega arith))
          λ inner. Within-bind (expect-Within k TokenType.rparen _) λ _. pure-Within k inner)
      λ _. plain_atom-Within n p le

suc-Enough : (fuel : ℕ) → Enough fuel → Enough (suc fuel)
unfolding parse_or_expression parse_and_expression parse_predicate_expression
suc-Enough fuel h = record {
  or_enough = λ n b.
      Within-bind (h.and_enough n (omega arith)) λ left. h.or_loop_enough n (omega arith) left;
  or_loop_enough = λ n b left. or_loop-Within fuel n h b left;
  and_enough = λ n b.
      Within-bind (h.not_enough n (omega arith)) λ left. h.and_loop_enough n (omega arith) left;
  and_loop_enough = λ n b left. and_loop-Within fuel n h b left;
  not_enough = λ n b. not-Within fuel n h b;
  predicate_enough = λ n b.
      let atom = h.atomic_enough n (omega arith) in
      Within-bind atom λ left. predicate_rest-Within n _ left atom;
  atomic_enough = λ n b. atomic-Within fuel n h b;
}

Enough-all : (fuel : ℕ) → Enough fuel
Enough-all zero = record {
  or_enough = λ n b. absurd (omega arith);
  or_loop_enough = λ n b. absurd (omega arith);
  and_enough = λ n b. absurd (omega arith);
  and_loop_enough = λ n b. absurd (omega arith);
  not_enough = λ n b. absurd (omega arith);
  predicate_enough = λ n b. absurd (omega arith);
  atomic_enough = λ n b. absurd (omega arith);
}
Enough-all (suc fuel) = suc-Enough fuel (Enough-all fuel)

-- Five units of fuel for each byte that is left, and five more, are enough for an expression.
pub or-Within : (fuel n : ℕ) → 5 * n + 5 ≤ fuel → Within n (parse_or_expression fuel)
or-Within fuel n b = (Enough-all fuel).or_enough n b
