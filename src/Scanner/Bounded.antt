-- ===== src/Scanner/Bounded.antt =====
-- The primitive operations and the lexemes of the scanner stay inside the source: each read is of
-- a byte that is there, and each loop ends by its own test.
pub mod Reads
pub mod Lexemes
pub mod Strings
pub mod Tokens
