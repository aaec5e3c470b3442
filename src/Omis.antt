-- ===== src/Omis.antt =====
-- src/omis: the model of modules, scopes, types and values that code is generated with.
pub mod Bridge
pub mod State
pub mod Scopes
pub mod Objects
pub mod Instructions
pub mod Control
pub mod Steady
pub mod Interned
pub mod Symbols
pub mod Structs
pub mod Cstd
pub mod Core
pub mod Answers
pub mod Declared
pub mod Quiet
pub mod CoreMembers
pub mod Listing
pub mod Names
pub mod Members
pub mod Indices
mod Tests
