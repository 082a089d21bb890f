-- ===== src/Parser/Token.antt =====
-- include/parser/token.hpp: source positions, token types and tokens. A text is its bytes.
use htap_storage_lsm_tree.Common.{ℕ, List}

pub record SourcePosition : Type 0 where
  pub pos : ℕ
  pub line : ℕ
  pub position_in_line : ℕ

pub data TokenType : Type 0 where
  end_of_file invalid : TokenType
  identifier string_literal int_literal double_literal : TokenType
  create table insert into values select from where_ key primary null not and or is : TokenType
  group by order limit asc desc : TokenType
  string_type int64_type double_type : TokenType
  count sum avg min max : TokenType
  lparen rparen comma semicolon star : TokenType
  equal not_equal less less_equal greater greater_equal : TokenType

pub record Token : Type 0 where
  pub type : TokenType
  pub position : SourcePosition
  pub text : List ℕ

-- The number of the enumerator.
unfoldable pub type_code : TokenType → ℕ
type_code end_of_file = 0
type_code invalid = 1
type_code identifier = 2
type_code string_literal = 3
type_code int_literal = 4
type_code double_literal = 5
type_code create = 6
type_code table = 7
type_code insert = 8
type_code into = 9
type_code values = 10
type_code select = 11
type_code from = 12
type_code where_ = 13
type_code key = 14
type_code primary = 15
type_code null = 16
type_code not = 17
type_code and = 18
type_code or = 19
type_code is = 20
type_code group = 21
type_code by = 22
type_code order = 23
type_code limit = 24
type_code asc = 25
type_code desc = 26
type_code string_type = 27
type_code int64_type = 28
type_code double_type = 29
type_code count = 30
type_code sum = 31
type_code avg = 32
type_code min = 33
type_code max = 34
type_code lparen = 35
type_code rparen = 36
type_code comma = 37
type_code semicolon = 38
type_code star = 39
type_code equal = 40
type_code not_equal = 41
type_code less = 42
type_code less_equal = 43
type_code greater = 44
type_code greater_equal = 45
