-- ===== src/Expression.antt =====
-- The expressions of core/expression, as they stand in ${fn:...}: tokens, syntax and the parser.
pub mod Syntax
pub mod Lexer
pub mod Parser
pub mod Evaluator
mod Tests
