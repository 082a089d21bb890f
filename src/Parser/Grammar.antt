-- ===== src/Parser/Grammar.antt =====
-- The grammar of expressions that docs/query_language.md gives, with its five levels of precedence,
-- over the tokens of src/parser/lexer.cpp. OR and AND associate to the left.
pub mod Taken
pub mod Sound
use htap_storage_lsm_tree.Common.{
  ℕ, ℤ, Bool, true, false, List, [], ◌∷◌, ◌++◌, ◌==◌, ◌≡◌, ◌⊎◌, Option, some,
}
use htap_storage_lsm_tree.Types.Float64.{Double}
use htap_storage_lsm_tree.Parser.Token.{TokenType, Token, type_code}
use htap_storage_lsm_tree.Parser.Outcome.{ok}
use htap_storage_lsm_tree.Parser.Ast.{Expression, BinaryOperation, UnaryOperation}
use htap_storage_lsm_tree.Parser.Numbers.{stoll, stod}

abbrev pub Is : TokenType → Token → Type 0
Is type t = (type_code t.type == type_code type) ≡ true

-- the token of a comparison
abbrev pub operator_type : BinaryOperation → Option TokenType
operator_type BinaryOperation.equal = some TokenType.equal
operator_type BinaryOperation.not_equal = some TokenType.not_equal
operator_type BinaryOperation.less = some TokenType.less
operator_type BinaryOperation.less_equal = some TokenType.less_equal
operator_type BinaryOperation.greater = some TokenType.greater
operator_type BinaryOperation.greater_equal = some TokenType.greater_equal
operator_type _ = Option.none

pub data IsLiteral : Expression → Token → Type 0 where
  string :
      (t : Token) → Is TokenType.string_literal t → IsLiteral (Expression.string_literal t.text) t
  int :
      (t : Token) {value : ℤ}
      → Is TokenType.int_literal t
      → stoll t.text ≡ ok value
      → IsLiteral (Expression.int_literal value) t
  double :
      (t : Token) {value : Double}
      → Is TokenType.double_literal t
      → stod t.text ≡ ok value
      → IsLiteral (Expression.double_literal value) t
  null : (t : Token) → Is TokenType.null t → IsLiteral Expression.null_literal t

pub data Level : Type 0 where
  or_level and_level not_level predicate_level atom_level : Level

-- `Derives level e ts`: at that level the tokens `ts` are the expression `e`.
pub data Derives : Level → Expression → List Token → Type 0 where
  or_and : {e : Expression} {ts : List Token} → Derives and_level e ts → Derives or_level e ts
  or_or :
      {a b : Expression} {ts us : List Token} (t : Token)
      → Derives or_level a ts
      → Is TokenType.or t
      → Derives and_level b us
      → Derives or_level (Expression.binary BinaryOperation.or a b) (ts ++ t ∷ us)
  and_not : {e : Expression} {ts : List Token} → Derives not_level e ts → Derives and_level e ts
  and_and :
      {a b : Expression} {ts us : List Token} (t : Token)
      → Derives and_level a ts
      → Is TokenType.and t
      → Derives not_level b us
      → Derives and_level (Expression.binary BinaryOperation.and a b) (ts ++ t ∷ us)
  not_predicate :
      {e : Expression} {ts : List Token} → Derives predicate_level e ts → Derives not_level e ts
  not_not :
      {e : Expression} {ts : List Token} (t : Token)
      → Is TokenType.not t
      → Derives not_level e ts
      → Derives not_level (Expression.unary UnaryOperation.not e) (t ∷ ts)
  predicate_atom :
      {e : Expression} {ts : List Token} → Derives atom_level e ts → Derives predicate_level e ts
  predicate_comparison :
      {operation : BinaryOperation} (type : TokenType) {a b : Expression} {ts us : List Token}
      (t : Token)
      → Derives atom_level a ts
      → operator_type operation ≡ some type
      → Is type t
      → Derives atom_level b us
      → Derives predicate_level (Expression.binary operation a b) (ts ++ t ∷ us)
  predicate_null :
      {e : Expression} {ts : List Token} (t u : Token)
      → Derives atom_level e ts
      → Is TokenType.is t
      → Is TokenType.null u
      → Derives predicate_level (Expression.is_null e false) (ts ++ t ∷ u ∷ [])
  predicate_not_null :
      {e : Expression} {ts : List Token} (t n u : Token)
      → Derives atom_level e ts
      → Is TokenType.is t
      → Is TokenType.not n
      → Is TokenType.null u
      → Derives predicate_level (Expression.is_null e true) (ts ++ t ∷ n ∷ u ∷ [])
  atom_group :
      {e : Expression} {ts : List Token} (t u : Token)
      → Is TokenType.lparen t
      → Derives or_level e ts
      → Is TokenType.rparen u
      → Derives atom_level e (t ∷ (ts ++ u ∷ []))
  atom_column :
      (t : Token)
      → Is TokenType.identifier t ⊎ Is TokenType.key t
      → Derives atom_level (Expression.column t.text) (t ∷ [])
  atom_literal : {e : Expression} (t : Token) → IsLiteral e t → Derives atom_level e (t ∷ [])
