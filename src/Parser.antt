-- ===== src/Parser.antt =====
-- The SQL front end, src/parser/ with include/parser/: tokens, the lexer, the syntax trees and the
-- recursive descent parser.
pub mod Token
pub mod Outcome
pub mod Lexer
pub mod Ast
pub mod Numbers
pub mod Actions
pub mod Expressions
pub mod Statements
pub mod Total
pub mod Grammar
