-- ===== src/Query.antt =====
-- crates/pkdump-core/src/query: the search query language, from text to syntax tree.
pub mod Ast
pub mod Outcome
pub mod Registry
pub mod Lexer
pub mod Parser
pub mod Correct
