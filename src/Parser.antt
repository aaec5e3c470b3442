-- ===== src/Parser.antt =====
-- src/app/parser.h, src/app/parser.cxx: the recursive descent parser, over any token source.
pub mod Nodes
pub mod Source
pub mod Monad
pub mod Checks
pub mod Loops
pub mod Types
pub mod Literals
pub mod Functions
pub mod Exprs
pub mod Stmts
pub mod Modules
pub mod Yields
pub mod Imports
pub mod Structs
pub mod Crash
pub mod Bounded
