-- ===== src/Search.antt =====
-- crates/pkdump-db/src/search.rs: the search compiler, from the syntax tree to SQL text with bound
-- values, and the keyset walk over its pages.
pub mod Value
pub mod Sql
pub mod Fragment
pub mod Flag
pub mod Keyword
pub mod Compile
pub mod Order
pub mod Seek
pub mod Statement
pub mod Fits
pub mod Meaning
pub mod Cursor
pub mod Row
pub mod Page
pub mod Alike
