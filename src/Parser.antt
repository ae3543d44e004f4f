-- ===== src/Parser.antt =====
-- The front end of src/parser: tokens, the lexer and the expressions that the parser builds.
pub mod Token
pub mod Ast
pub mod Lexer
pub mod Stream
pub mod Expressions
pub mod Statements
mod Tests
