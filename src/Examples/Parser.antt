-- ===== src/Examples/Parser.antt =====
-- Inputs for src/parser/: tests of the lexer and the parser, and the theorems on them.
use htap_storage_lsm_tree.Common.{
  ℕ, List, [], ◌∷◌, ◌++◌, ◌≡◌, refl, some, pos, negsuc, false, length, ◌≤◌,
}
use htap_storage_lsm_tree.Parser.Token.{SourcePosition, TokenType, type_code}
use htap_storage_lsm_tree.Parser.Outcome.{Outcome, Failure, ok, failed, bind, codes, Ensures}
use htap_storage_lsm_tree.Parser.Ast.{
  Statement, Expression, BinaryOperation, UnaryOperation, SelectItem, AggregateKind,
}
use htap_storage_lsm_tree.Parser.Lexer.{
  make_lexer, make_token, next_token, skip_whitespace, moved, advance_from, read_while, is_blank,
  is_digit, is_identifier_start, is_identifier_part, find_keyword, read_identifier_or_keyword,
  read_fraction, read_whole, read_number, read_quoted, read_string, read_symbol, read_token,
}
use htap_storage_lsm_tree.Parser.Lexer.Reads.{after, quoted}
use htap_storage_lsm_tree.Parser.Lexer.Tokens.{ReadsNext, next_token-ReadsNext}
use htap_storage_lsm_tree.Parser.Lexer.Literals.{
  lexer_at, next_token-quoted, next_token-word, words, HasType,
}
use htap_storage_lsm_tree.Parser.Lexer.Errors.{ThrowsAt, next_token-ThrowsAt}
use htap_storage_lsm_tree.Types.Float64.Arithmetic.{units, pattern_below, nearest_pattern}
use htap_storage_lsm_tree.Parser.Numbers.{
  stoll, stoull, stod, leading_digits, decimal, is_negative, unsigned_part, converted, to_double,
  fraction_digits,
}
use htap_storage_lsm_tree.Parser.Actions.{
  Parser, is_expected_token, is_column_name_token, advance, expect, expect_text, more_items, items,
}
use htap_storage_lsm_tree.Parser.Expressions.{
  parse_or_expression, parse_literal_expression, is_literal_token, parse_plain_atom, comparison,
  parse_is_null, compared, predicate_rest, joined,
}
use htap_storage_lsm_tree.Parser.Statements.{
  parse, parse_data_type, parse_column_constraint, column_name, parse_column_definition,
  parse_create_table_statement, next_column_name, column_names, parse_insert_statement,
  aggregate_kind, parse_aggregate, parse_expression_item, parse_select_item, parse_direction,
  parse_order_by_item, optional, limit_number, expect_end, parse_select_statement, parse_statement,
  make_parser,
}
use htap_storage_lsm_tree.Parser.Total.{remaining}
use htap_storage_lsm_tree.Parser.Total.Statements.{parse-Ensures}
use htap_storage_lsm_tree.Parser.Grammar.{or_level, Derives}
use htap_storage_lsm_tree.Parser.Grammar.Taken.{OnOk, Taken}
use htap_storage_lsm_tree.Parser.Grammar.Sound.{parse_or_expression-Derives}

abbrev select_text : List ℕ
select_text =
    codes "SELECT a, count(b) FROM t WHERE NOT a < 3 AND (b IS NULL OR c = 'it''s') LIMIT -5;"

-- a column
abbrev name : List ℕ → Expression
name = Expression.column

abbrev the_statement : Outcome Statement
the_statement = bind (parse select_text) λ (s, _). ok s

-- Precedence, keywords in any case, the doubled quote, and the limit that a minus sign makes.
select_text_read :
    the_statement
    ≡ ok (
        Statement.select (record {
          table_name = codes "t";
          select_items =
              SelectItem.expression (name (codes "a"))
              ∷ SelectItem.aggregate AggregateKind.count (name (codes "b"))
              ∷ [];
          where_expression = some (
              Expression.binary BinaryOperation.and
                (Expression.unary UnaryOperation.not (
                  Expression.binary BinaryOperation.less
                    (name (codes "a"))
                    (Expression.int_literal (pos 3))))
                (Expression.binary BinaryOperation.or
                  (Expression.is_null (name (codes "b")) false)
                  (Expression.binary BinaryOperation.equal
                    (name (codes "c"))
                    (Expression.string_literal (codes "it's")))));
          group_by_items = [];
          order_by_items = [];
          limit = some 18446744073709551611;
        }))
unfolding type_code moved advance_from read_while is_blank is_digit is_identifier_start
    is_identifier_part find_keyword read_identifier_or_keyword read_fraction read_whole read_number
    read_quoted read_string read_symbol read_token next_token is_expected_token is_column_name_token
    advance expect expect_text more_items items parse_literal_expression is_literal_token
    parse_plain_atom comparison parse_is_null compared predicate_rest joined parse_or_expression
    parse_data_type parse_column_constraint column_name parse_column_definition
    parse_create_table_statement next_column_name column_names parse_insert_statement aggregate_kind
    parse_aggregate parse_expression_item parse_select_item parse_direction parse_order_by_item
    optional limit_number expect_end parse_select_statement parse_statement make_parser parse
    leading_digits decimal is_negative unsigned_part converted stoll stoull
select_text_read = refl

-- The closest double to 0.1, and an exact number.
stod_tests :
    (stod (codes "0.1") ≡ ok (record { bits = 0x3fb999999999999a }))
    × (stod (codes "-2.5") ≡ ok (record { bits = 0xc004000000000000 }))
unfolding leading_digits decimal is_negative unsigned_part converted stoll stoull units
    pattern_below nearest_pattern to_double fraction_digits stod is_digit
stod_tests = (refl, refl)

stoll_tests :
    (stoll (codes "-9223372036854775808") ≡ ok (negsuc 9223372036854775807))
    × (stoll (codes "9223372036854775808") ≡ failed Failure.out_of_range)
unfolding stoll converted is_negative unsigned_part leading_digits decimal is_digit
stoll_tests = (refl, refl)

abbrev start : SourcePosition
start = record { pos = 0; line = 1; position_in_line = 1 }

parse-Ensures_example : Ensures (λ x. remaining x.1 ≤ length select_text) (parse select_text)
parse-Ensures_example = parse-Ensures select_text

next_token-ReadsNext_example :
    Ensures (ReadsNext (make_lexer select_text)) (next_token (make_lexer select_text))
next_token-ReadsNext_example = next_token-ReadsNext (make_lexer select_text)

next_token-quoted_example :
    next_token (lexer_at (codes " " ++ b'\'' ∷ (quoted (codes "it's") ++ codes ")")) start)
    ≡ ok (
      make_token TokenType.string_literal (after (codes " ") start) (codes "it's"),
      lexer_at (codes ")") (after (codes " " ++ b'\'' ∷ quoted (codes "it's")) start),
    )
unfolding is_blank
next_token-quoted_example =
    next_token-quoted (codes " ") (codes "it's") (codes ")") start (refl, tt) refl

next_token-word_example :
    (type : TokenType) × HasType (codes "seLect") words type
    × (next_token (lexer_at (codes " " ++ b's' ∷ (codes "eLect" ++ codes " *")) start)
        ≡ ok (
          make_token type (after (codes " ") start) (codes "seLect"),
          lexer_at (codes " *") (after (codes " seLect") start),
        ))
unfolding is_blank is_identifier_start is_identifier_part
next_token-word_example =
    next_token-word (codes " ") b's' (codes "eLect") (codes " *") start (refl, tt) refl
      (refl, (refl, (refl, (refl, (refl, tt))))) refl

next_token-ThrowsAt_example :
    ThrowsAt
      (skip_whitespace (make_lexer (codes " 'ab"))).at
      (next_token (make_lexer (codes " 'ab")))
next_token-ThrowsAt_example = next_token-ThrowsAt (make_lexer (codes " 'ab"))

-- `a OR b`, with the first token read
abbrev at_expression : Parser
at_expression = record {
  lexer = lexer_at (codes " OR b AND c;") (after (codes "a") start);
  current = make_token TokenType.identifier start (codes "a");
}

parse_or_expression-Derives_example :
    OnOk (Taken (Derives or_level) at_expression) (parse_or_expression 100 at_expression)
parse_or_expression-Derives_example = parse_or_expression-Derives 100 at_expression
