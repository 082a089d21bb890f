-- ===== src/Parser/Expressions.antt =====
-- The expressions of src/parser/parser.cpp, by recursive descent. Each call, and each round of a
-- loop, takes one unit of fuel.
use htap_storage_lsm_tree.Common.{
  ℕ, zero, suc, Bool, true, false, List, ◌||◌, Option, none, some, if◌then◌else◌,
}
use htap_storage_lsm_tree.Parser.Token.{TokenType}
use htap_storage_lsm_tree.Parser.Ast.{Expression, BinaryOperation, UnaryOperation}
use htap_storage_lsm_tree.Parser.Numbers.{stoll, stod}
use htap_storage_lsm_tree.Parser.Outcome.{Outcome, ok, out_of_fuel, bind}
use htap_storage_lsm_tree.Parser.Actions.{
  Parser, Action, pure, ◌>>=◌, ◌>>◌, run, is_expected_token, is_column_name_token, advance, refuse,
  expect, advance_to,
}

-- a conversion of the current token's text, which may throw
abbrev pub convert {ℓ} : {A : Type ℓ} → (List ℕ → Outcome A) → Action A
convert f p = bind (f p.current.text) λ a. ok (a, p)

unfoldable pub parse_literal_expression : Action Expression
parse_literal_expression p =
    if is_expected_token TokenType.string_literal p
    then run p (advance_to (Expression.string_literal p.current.text))
    else if is_expected_token TokenType.int_literal p
    then (convert stoll >>= λ value. advance_to (Expression.int_literal value)) p
    else if is_expected_token TokenType.double_literal p
    then (convert stod >>= λ value. advance_to (Expression.double_literal value)) p
    else if is_expected_token TokenType.null p
    then run p (advance_to Expression.null_literal)
    else refuse "Expected literal value" p

unfoldable pub is_literal_token : Parser → Bool
is_literal_token p =
    is_expected_token TokenType.string_literal p
    || is_expected_token TokenType.int_literal p
    || is_expected_token TokenType.double_literal p
    || is_expected_token TokenType.null p

-- `ParseAtomicExpression` behind the case of a parenthesis
unfoldable pub parse_plain_atom : Action Expression
unfolding parse_literal_expression is_literal_token
parse_plain_atom p =
    if is_column_name_token p
    then run p (advance_to (Expression.column p.current.text))
    else if is_literal_token p
    then parse_literal_expression p
    else refuse "Expected atomic expression" p

-- the operator under the cursor, if there is one
unfoldable pub comparison : Parser → Option BinaryOperation
comparison p =
    if is_expected_token TokenType.equal p
    then some BinaryOperation.equal
    else if is_expected_token TokenType.not_equal p
    then some BinaryOperation.not_equal
    else if is_expected_token TokenType.less p
    then some BinaryOperation.less
    else if is_expected_token TokenType.less_equal p
    then some BinaryOperation.less_equal
    else if is_expected_token TokenType.greater p
    then some BinaryOperation.greater
    else if is_expected_token TokenType.greater_equal p
    then some BinaryOperation.greater_equal
    else none

abbrev expect_null : Expression → Bool → Action Expression
expect_null left is_not = do
  expect TokenType.null "Expected NULL after IS or IS NOT"
  pure (Expression.is_null left is_not)

-- behind `IS`
abbrev is_null_rest : Expression → Action Expression
is_null_rest left p =
    if is_expected_token TokenType.not p
    then (advance >> expect_null left true) p
    else expect_null left false p

-- `IS [NOT] NULL` behind its operand
unfoldable pub parse_is_null : Expression → Action Expression
parse_is_null left = advance >> is_null_rest left

unfoldable pub compared : BinaryOperation → Action Expression → Expression → Action Expression
compared operation atom left = do
  advance
  right ← atom
  pure (Expression.binary operation left right)

-- `ParsePredicateExpression` behind its first operand; `atom` parses the second
unfoldable pub predicate_rest : Action Expression → Expression → Action Expression
unfolding comparison parse_is_null compared
predicate_rest atom left p =
    if is_expected_token TokenType.is p then parse_is_null left p else elim (comparison p) [
      | none ↦ ok (left, p)
      | some operation ↦ compared operation atom left p
    ]

-- one round of the loop of an operator: the right operand, and the rounds behind it
unfoldable pub joined :
    BinaryOperation
    → Action Expression
    → (Expression → Action Expression)
    → Expression
    → Action Expression
joined operation operand loop left = do
  advance
  right ← operand
  loop (Expression.binary operation left right)

unfoldable mutual
  pub parse_or_expression : ℕ → Action Expression
  parse_or_expression zero p = out_of_fuel
  parse_or_expression (suc fuel) p = run p do left ← parse_and_expression fuel; or_loop fuel left

  pub or_loop : ℕ → Expression → Action Expression
  or_loop zero left p = out_of_fuel
  or_loop (suc fuel) left p =
      let round = joined BinaryOperation.or (parse_and_expression fuel) (or_loop fuel) left p in
      if is_expected_token TokenType.or p then round else ok (left, p)

  pub parse_and_expression : ℕ → Action Expression
  parse_and_expression zero p = out_of_fuel
  parse_and_expression (suc fuel) p = run p do left ← parse_not_expression fuel; and_loop fuel left

  pub and_loop : ℕ → Expression → Action Expression
  and_loop zero left p = out_of_fuel
  and_loop (suc fuel) left p =
      let round = joined BinaryOperation.and (parse_not_expression fuel) (and_loop fuel) left p in
      if is_expected_token TokenType.and p then round else ok (left, p)

  pub parse_not_expression : ℕ → Action Expression
  parse_not_expression zero p = out_of_fuel
  parse_not_expression (suc fuel) p =
      let negated = run p do
        advance
        operand ← parse_not_expression fuel
        pure (Expression.unary UnaryOperation.not operand)
      in let plain = parse_predicate_expression fuel p in
        if is_expected_token TokenType.not p then negated else plain

  pub parse_predicate_expression : ℕ → Action Expression
  parse_predicate_expression zero p = out_of_fuel
  parse_predicate_expression (suc fuel) p =
      run p
        do left ← parse_atomic_expression fuel; predicate_rest (parse_atomic_expression fuel) left

  pub parse_atomic_expression : ℕ → Action Expression
  parse_atomic_expression zero p = out_of_fuel
  parse_atomic_expression (suc fuel) p =
      let inner = run p do
        advance
        expression ← parse_or_expression fuel
        expect TokenType.rparen "Expected ')' after expression"
        pure expression
      in if is_expected_token TokenType.lparen p then inner else parse_plain_atom p
