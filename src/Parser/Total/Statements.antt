-- ===== src/Parser/Total/Statements.antt =====
-- The fuel that the statements of src/parser/parser.cpp need.
use htap_storage_lsm_tree.Common.{ℕ, ◌+◌, ◌*◌, ◌≤◌, List, [], arith, none, some, String, length}
use htap_storage_lsm_tree.Parser.Token.{TokenType}
use htap_storage_lsm_tree.Parser.Ast.{DataType, AggregateKind, Statement}
use htap_storage_lsm_tree.Parser.Numbers.{stoull}
use htap_storage_lsm_tree.Parser.Outcome.{Ensures, holds, rejected, Ensures-bind, Ensures-if}
use htap_storage_lsm_tree.Parser.Lexer.{make_lexer}
use htap_storage_lsm_tree.Parser.Lexer.Tokens.{next_token-ReadsNext}
use htap_storage_lsm_tree.Parser.Actions.{
  Action, ◌>>◌, is_expected_token, is_column_name_token, expect,
}
use htap_storage_lsm_tree.Parser.Expressions.{parse_literal_expression, parse_or_expression}
use htap_storage_lsm_tree.Parser.Statements.{
  parse_data_type, parse_column_constraint, column_name, parse_column_definition,
  parse_create_table_statement, next_column_name, column_names, parse_insert_statement,
  aggregate_kind, parse_aggregate, parse_expression_item, parse_select_item, parse_direction,
  parse_order_by_item, optional, limit_number, expect_end, parse_select_statement, parse_statement,
  make_parser, parse,
}
use htap_storage_lsm_tree.Parser.Total.{
  remaining, Fits, Within, Fits-mono, pure-Within, refuse-Within, Within-bind, advance-Within,
  expect-Within, expect_text-Within, advance_to-Within, items-Within, more_items-Within,
  ReadsNext-left_over,
}
use htap_storage_lsm_tree.Parser.Total.Expressions.{
  or-Within, literal-Within, convert-Within, stoull-Returns,
}

module _ (n : ℕ) where
  -- an expected token, and what comes behind it
  expect_then {ℓ} :
      {A : Type ℓ} (type : TokenType) (message : String) {m : Action A}
      → Within n m
      → Within n (expect type message >> m)
  expect_then type message w = Within-bind (expect-Within n type message) λ _. w

  data_type-Within : Within n parse_data_type
  unfolding parse_data_type
  data_type-Within p h =
      Ensures-if (is_expected_token TokenType.string_type p) (λ _. advance_to-Within n _ p h)
        λ _.
          Ensures-if (is_expected_token TokenType.int64_type p) (λ _. advance_to-Within n _ p h)
            λ _.
              Ensures-if (is_expected_token TokenType.double_type p)
                (λ _. advance_to-Within n _ p h) λ _. refuse-Within n "Expected column type" p h

  constraint-Within :
      (name : List ℕ) (type : DataType) → Within n (parse_column_constraint name type)
  unfolding parse_column_constraint
  constraint-Within name type p h =
      Ensures-if (is_expected_token TokenType.key p) (λ _. advance_to-Within n _ p h)
        λ _.
          Ensures-if (is_expected_token TokenType.null p) (λ _. advance_to-Within n _ p h)
            λ _.
              Ensures-if (is_expected_token TokenType.not p)
                (λ _.
                  Within-bind (advance-Within n)
                    (λ _. expect_then TokenType.null "Expected NULL after NOT" (pure-Within n _)) p
                    h)
                λ _. pure-Within n _ p h

  column_name-Within : Within n column_name
  unfolding column_name
  column_name-Within p h =
      Ensures-if (is_column_name_token p) (λ _. advance_to-Within n _ p h)
        λ _. refuse-Within n "Expected column name" p h

  next_column_name-Within : Within n next_column_name
  unfolding next_column_name
  next_column_name-Within p h =
      Ensures-if (is_column_name_token p) (λ _. advance_to-Within n _ p h)
        λ _. refuse-Within n "Expected column name after ','" p h

  column_definition-Within : Within n parse_column_definition
  unfolding parse_column_definition
  column_definition-Within =
      Within-bind column_name-Within
        λ name. Within-bind data_type-Within λ type. constraint-Within name type

  module _ (fuel : ℕ) (enough : 5 * n + 5 ≤ fuel) where
    create_table-Within : Within n (parse_create_table_statement fuel)
    unfolding parse_create_table_statement
    create_table-Within = expect_then TokenType.create "Expected CREATE" (
        expect_then TokenType.table "Expected TABLE after CREATE" (
          Within-bind (expect_text-Within n TokenType.identifier "Expected table name") λ name.
            expect_then TokenType.lparen "Expected '(' after table name" (
              Within-bind
                (items-Within parse_column_definition fuel n (omega arith) column_definition-Within)
                λ columns. expect_then TokenType.rparen "Expected ')' after column definitions" (
                  expect_then TokenType.semicolon "Expected ';' after CREATE TABLE statement"
                    (pure-Within n _)))))

    column_names-Within : Within n (column_names fuel)
    unfolding column_names
    column_names-Within = Within-bind column_name-Within λ name.
        Within-bind
          (more_items-Within next_column_name fuel n (omega arith) next_column_name-Within)
          λ later. pure-Within n _

    insert-Within : Within n (parse_insert_statement fuel)
    unfolding parse_insert_statement
    insert-Within = expect_then TokenType.insert "Expected INSERT" (
        expect_then TokenType.into "Expected INTO after INSERT" (
          Within-bind (expect_text-Within n TokenType.identifier "Expected table name after INTO")
            λ name. expect_then TokenType.lparen "Expected '(' before column list" (
              Within-bind column_names-Within λ columns.
                expect_then TokenType.rparen "Expected ')' after column list" (
                  expect_then TokenType.values "Expected VALUES after column list" (
                    expect_then TokenType.lparen "Expected '(' before values list" (
                      Within-bind
                        (items-Within parse_literal_expression fuel n (omega arith)
                          (literal-Within n))
                        λ values. expect_then TokenType.rparen "Expected ')' after values list" (
                          expect_then TokenType.semicolon "Expected ';' after INSERT statement"
                            (pure-Within n _))))))))

    or-here : Within n (parse_or_expression fuel)
    or-here = or-Within fuel n enough

    aggregate-Within : (kind : AggregateKind) → Within n (parse_aggregate fuel kind)
    unfolding parse_aggregate
    aggregate-Within kind = Within-bind (advance-Within n) λ _.
        expect_then TokenType.lparen "Expected '(' after aggregate function" (
          Within-bind or-here λ expression.
            expect_then TokenType.rparen "Expected ')' after aggregate argument" (pure-Within n _))

    expression_item-Within : Within n (parse_expression_item fuel)
    unfolding parse_expression_item
    expression_item-Within = Within-bind or-here λ expression. pure-Within n _

    select_item-Within : Within n (parse_select_item fuel)
    unfolding parse_select_item
    select_item-Within p h =
        Ensures-if (is_expected_token TokenType.star p) (λ _. advance_to-Within n _ p h)
          λ _.
            elim (aggregate_kind p)
              as (λ k. Fits (remaining p) (elim k [
                | some kind ↦ parse_aggregate fuel kind p
                | none ↦ parse_expression_item fuel p
              ])) [ some kind ↦ aggregate-Within kind p h | none ↦ expression_item-Within p h ]

    direction-Within : Within n parse_direction
    unfolding parse_direction
    direction-Within p h =
        Ensures-if (is_expected_token TokenType.asc p) (λ _. advance_to-Within n _ p h)
          λ _.
            Ensures-if (is_expected_token TokenType.desc p) (λ _. advance_to-Within n _ p h)
              λ _. pure-Within n _ p h

    order_by_item-Within : Within n (parse_order_by_item fuel)
    unfolding parse_order_by_item
    order_by_item-Within =
        Within-bind or-here λ expression. Within-bind direction-Within λ direction. pure-Within n _

    optional-Within {ℓ} :
        {A : Type ℓ} (type : TokenType) (absent : A) {m : Action A}
        → Within n m
        → Within n (optional type absent m)
    unfolding optional
    optional-Within type absent {m} w p h =
        Ensures-if (is_expected_token type p) (λ _. Within-bind (advance-Within n) (λ _. w) p h)
          λ _. holds (omega arith)

    limit_number-Within : Within n limit_number
    unfolding limit_number
    limit_number-Within p h =
        Ensures-if (is_expected_token TokenType.int_literal p)
          (λ _.
            Within-bind (convert-Within n stoull stoull-Returns) (λ k. advance_to-Within n (some k))
              p h)
          λ _. refuse-Within n "Expected integer literal after LIMIT" p h

    expect_end-Within : Within n expect_end
    unfolding expect_end
    expect_end-Within p h =
        Ensures-if (is_expected_token TokenType.semicolon p) (λ _. advance-Within n p h)
          λ _. rejected

    select-Within : Within n (parse_select_statement fuel)
    unfolding parse_select_statement
    select-Within = expect_then TokenType.select "Expected SELECT" (
        Within-bind (items-Within (parse_select_item fuel) fuel n (omega arith) select_item-Within)
          λ select_items. expect_then TokenType.from "Expected FROM after SELECT items" (
            Within-bind (expect_text-Within n TokenType.identifier "Expected table name after FROM")
              λ name.
                Within-bind
                  (optional-Within TokenType.where_ none
                    (Within-bind or-here λ e. pure-Within n (some e)))
                  λ where_expression.
                    Within-bind
                      (optional-Within TokenType.group [] (
                        expect_then TokenType.by "Expected BY after GROUP"
                          (items-Within (parse_or_expression fuel) fuel n (omega arith) or-here)))
                      λ group_by_items.
                        Within-bind
                          (optional-Within TokenType.order [] (
                            expect_then TokenType.by "Expected BY after ORDER" (
                              items-Within (parse_order_by_item fuel) fuel n (omega arith)
                                order_by_item-Within)))
                          λ order_by_items.
                            Within-bind (optional-Within TokenType.limit none limit_number-Within)
                              λ limit. Within-bind expect_end-Within λ _. pure-Within n _))

    statement-Within : Within n (parse_statement fuel)
    unfolding parse_statement
    statement-Within p h =
        Ensures-if (is_expected_token TokenType.create p)
          (λ _. Within-bind create_table-Within (λ s. pure-Within n (Statement.create_table s)) p h)
          λ _.
            Ensures-if (is_expected_token TokenType.insert p)
              (λ _. Within-bind insert-Within (λ s. pure-Within n (Statement.insert s)) p h)
              λ _.
                Ensures-if (is_expected_token TokenType.select p)
                  (λ _. Within-bind select-Within (λ s. pure-Within n (Statement.select s)) p h)
                  λ _. refuse-Within n "Expected CREATE, INSERT or SELECT statement" p h

make_parser-remaining :
    (input : List ℕ) → Ensures (λ p. remaining p ≤ length input) (make_parser (make_lexer input))
unfolding make_parser
make_parser-remaining input =
    Ensures-bind _ (next_token-ReadsNext (make_lexer input))
      λ (t, after) h. holds (ReadsNext-left_over _ _ h)

-- Whatever the input is, the fuel is enough: the parser returns a statement and leaves no more than
-- the input, or it throws.
pub parse-Ensures : (input : List ℕ) → Ensures (λ x. remaining x.1 ≤ length input) (parse input)
unfolding parse
parse-Ensures input = Ensures-bind _ (make_parser-remaining input) λ p le.
    Fits-mono le (statement-Within (length input) (6 * length input + 12) (omega arith) p le)
