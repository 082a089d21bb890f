-- ===== src/Parser/Statements.antt =====
-- The statements of src/parser/parser.cpp, and the constructor of `Parser`.
use htap_storage_lsm_tree.Common.{
  ℕ, ◌+◌, ◌*◌, true, false, List, [], ◌∷◌, ◌++◌, Option, none, some, if◌then◌else◌, length,
}
use htap_storage_lsm_tree.Parser.Token.{TokenType}
use htap_storage_lsm_tree.Parser.Ast.{
  Expression, ColumnDefinition, DataType, AggregateKind, SelectItem, OrderByItem, OrderDirection,
  CreateTableStatement, InsertStatement, SelectStatement, Statement,
}
use htap_storage_lsm_tree.Parser.Numbers.{stoull}
use htap_storage_lsm_tree.Parser.Outcome.{Outcome, ok, bind, fail, codes}
use htap_storage_lsm_tree.Parser.Lexer.{Lexer, make_lexer, next_token}
use htap_storage_lsm_tree.Parser.Actions.{
  Parser, Action, pure, ◌>>=◌, ◌>>◌, is_expected_token, is_column_name_token, advance, refuse,
  expect, expect_text, advance_to, items, more_items,
}
use htap_storage_lsm_tree.Parser.Expressions.{
  convert, parse_literal_expression, parse_or_expression,
}

unfoldable pub parse_data_type : Action DataType
parse_data_type p =
    if is_expected_token TokenType.string_type p
    then advance_to DataType.string p
    else if is_expected_token TokenType.int64_type p
    then advance_to DataType.int64 p
    else if is_expected_token TokenType.double_type p
    then advance_to DataType.double p
    else refuse "Expected column type" p

abbrev plain_column : List ℕ → DataType → ColumnDefinition
plain_column name type = record { name = name; type = type; nullable = false; is_key = false }

-- `KEY`, `NULL`, `NOT NULL` or nothing behind the type
unfoldable pub parse_column_constraint : List ℕ → DataType → Action ColumnDefinition
parse_column_constraint name type p =
    if is_expected_token TokenType.key p
    then advance_to (record (plain_column name type) { is_key = true }) p
    else if is_expected_token TokenType.null p
    then advance_to (record (plain_column name type) { nullable = true }) p
    else if is_expected_token TokenType.not p
    then (advance
          >> (expect TokenType.null "Expected NULL after NOT" >> pure (plain_column name type)))
        p
    else pure (plain_column name type) p

-- `if (!IsColumnNameToken()) throw …; name = current_.text; Advance();`
unfoldable pub column_name : Action (List ℕ)
column_name p =
    if is_column_name_token p then advance_to p.current.text p else refuse "Expected column name" p

unfoldable pub parse_column_definition : Action ColumnDefinition
unfolding column_name parse_data_type parse_column_constraint
parse_column_definition = do
  name ← column_name
  type ← parse_data_type
  parse_column_constraint name type

unfoldable pub parse_create_table_statement : ℕ → Action CreateTableStatement
parse_create_table_statement fuel = do
  expect TokenType.create "Expected CREATE"
  expect TokenType.table "Expected TABLE after CREATE"
  name ← expect_text TokenType.identifier "Expected table name"
  expect TokenType.lparen "Expected '(' after table name"
  columns ← items parse_column_definition fuel
  expect TokenType.rparen "Expected ')' after column definitions"
  expect TokenType.semicolon "Expected ';' after CREATE TABLE statement"
  pure (record { table_name = name; columns = columns })

-- the name behind a comma, with another message
unfoldable pub next_column_name : Action (List ℕ)
next_column_name p =
    if is_column_name_token p
    then advance_to p.current.text p
    else refuse "Expected column name after ','" p

unfoldable pub column_names : ℕ → Action (List (List ℕ))
unfolding column_name next_column_name
column_names fuel = do
  name ← column_name
  later ← more_items next_column_name fuel
  pure (name ∷ later)

unfoldable pub parse_insert_statement : ℕ → Action InsertStatement
unfolding column_names
parse_insert_statement fuel = do
  expect TokenType.insert "Expected INSERT"
  expect TokenType.into "Expected INTO after INSERT"
  name ← expect_text TokenType.identifier "Expected table name after INTO"
  expect TokenType.lparen "Expected '(' before column list"
  columns ← column_names fuel
  expect TokenType.rparen "Expected ')' after column list"
  expect TokenType.values "Expected VALUES after column list"
  expect TokenType.lparen "Expected '(' before values list"
  values ← items parse_literal_expression fuel
  expect TokenType.rparen "Expected ')' after values list"
  expect TokenType.semicolon "Expected ';' after INSERT statement"
  pure (record { table_name = name; column_names = columns; values = values })

-- the aggregate function under the cursor, if there is one
unfoldable pub aggregate_kind : Parser → Option AggregateKind
aggregate_kind p =
    if is_expected_token TokenType.count p
    then some AggregateKind.count
    else if is_expected_token TokenType.sum p
    then some AggregateKind.sum
    else if is_expected_token TokenType.avg p
    then some AggregateKind.avg
    else if is_expected_token TokenType.min p
    then some AggregateKind.min
    else if is_expected_token TokenType.max p
    then some AggregateKind.max
    else none

unfoldable pub parse_aggregate : ℕ → AggregateKind → Action SelectItem
parse_aggregate fuel kind = do
  advance
  expect TokenType.lparen "Expected '(' after aggregate function"
  expression ← parse_or_expression fuel
  expect TokenType.rparen "Expected ')' after aggregate argument"
  pure (SelectItem.aggregate kind expression)

unfoldable pub parse_expression_item : ℕ → Action SelectItem
parse_expression_item fuel = do
  expression ← parse_or_expression fuel
  pure (SelectItem.expression expression)

unfoldable pub parse_select_item : ℕ → Action SelectItem
unfolding aggregate_kind parse_aggregate parse_expression_item
parse_select_item fuel p =
    if is_expected_token TokenType.star p
    then advance_to SelectItem.star p
    else elim (aggregate_kind p) [
      | some kind ↦ parse_aggregate fuel kind p
      | none ↦ parse_expression_item fuel p
    ]

-- `ASC`, `DESC` or nothing behind the expression
unfoldable pub parse_direction : Action OrderDirection
parse_direction p =
    if is_expected_token TokenType.asc p
    then advance_to OrderDirection.asc p
    else if is_expected_token TokenType.desc p
    then advance_to OrderDirection.desc p
    else pure OrderDirection.asc p

unfoldable pub parse_order_by_item : ℕ → Action OrderByItem
unfolding parse_direction
parse_order_by_item fuel = do
  expression ← parse_or_expression fuel
  direction ← parse_direction
  pure (record { expression = expression; direction = direction })

-- a clause that starts with the token `type`: `clause` behind that token, or `absent`
unfoldable pub optional {ℓ} : {A : Type ℓ} → TokenType → A → Action A → Action A
optional type absent clause p =
    if is_expected_token type p then (advance >> clause) p else ok (absent, p)

abbrev pub where_clause : ℕ → Action (Option Expression)
where_clause fuel =
    optional TokenType.where_ none do expression ← parse_or_expression fuel; pure (some expression)

abbrev pub group_by_clause : ℕ → Action (List Expression)
group_by_clause fuel =
    optional TokenType.group []
      do expect TokenType.by "Expected BY after GROUP"; items (parse_or_expression fuel) fuel

abbrev pub order_by_clause : ℕ → Action (List OrderByItem)
order_by_clause fuel =
    optional TokenType.order []
      do expect TokenType.by "Expected BY after ORDER"; items (parse_order_by_item fuel) fuel

-- the number behind `LIMIT`
unfoldable pub limit_number : Action (Option ℕ)
limit_number p =
    if is_expected_token TokenType.int_literal p
    then (convert stoull >>= λ n. advance_to (some n)) p
    else refuse "Expected integer literal after LIMIT" p

abbrev pub limit_clause : Action (Option ℕ)
limit_clause = optional TokenType.limit none limit_number

-- The message names the token that stands in place of the semicolon.
unfoldable pub expect_end : Action (Unit {0})
expect_end p =
    if is_expected_token TokenType.semicolon p
    then advance p
    else fail (codes "Expected ';' after SELECT statement, got token: " ++ p.current.text)
        p.current.position

unfoldable pub parse_select_statement : ℕ → Action SelectStatement
unfolding parse_select_item parse_order_by_item optional limit_number expect_end
parse_select_statement fuel = do
  expect TokenType.select "Expected SELECT"
  select_items ← items (parse_select_item fuel) fuel
  expect TokenType.from "Expected FROM after SELECT items"
  name ← expect_text TokenType.identifier "Expected table name after FROM"
  where_expression ← where_clause fuel
  group_by_items ← group_by_clause fuel
  order_by_items ← order_by_clause fuel
  limit ← limit_clause
  expect_end
  pure (record {
    table_name = name;
    select_items = select_items;
    where_expression = where_expression;
    group_by_items = group_by_items;
    order_by_items = order_by_items;
    limit = limit;
  })

unfoldable pub parse_statement : ℕ → Action Statement
unfolding parse_create_table_statement parse_insert_statement parse_select_statement
parse_statement fuel p =
    if is_expected_token TokenType.create p
    then (parse_create_table_statement fuel >>= λ s. pure (Statement.create_table s)) p
    else if is_expected_token TokenType.insert p
    then (parse_insert_statement fuel >>= λ s. pure (Statement.insert s)) p
    else if is_expected_token TokenType.select p
    then (parse_select_statement fuel >>= λ s. pure (Statement.select s)) p
    else refuse "Expected CREATE, INSERT or SELECT statement" p

-- the constructor of `Parser`, which reads the first token
unfoldable pub make_parser : Lexer → Outcome Parser
make_parser lexer = bind (next_token lexer) λ (t, after). ok (record { lexer = after; current = t })

-- A statement from a text. The fuel is enough for any statement: six units for each byte.
unfoldable pub parse : List ℕ → Outcome (Statement × Parser)
unfolding make_parser parse_statement
parse input = bind (make_parser (make_lexer input)) λ p. parse_statement (6 * length input + 12) p
