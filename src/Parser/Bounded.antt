-- ===== src/Parser/Bounded.antt =====
-- The methods of src/app/parser.cxx end: the depth of their calls and the rounds of their loops are
-- bounded by the tokens that are left.
pub mod Rules
pub mod Checks
pub mod Literals
pub mod Opers
pub mod Loops
pub mod Types
pub mod Suffixes
pub mod Operators
pub mod Definitions
pub mod Stmts
pub mod Modules
