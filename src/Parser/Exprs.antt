-- ===== src/Parser/Exprs.antt =====
-- src/app/parser.cxx: expressions.
pub mod Suffixes
pub mod Operators
