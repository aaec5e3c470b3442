-- ===== src/Parser/Stmts.antt =====
-- src/app/parser.cxx: statements.
pub mod Definitions
pub mod Control
