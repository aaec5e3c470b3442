-- ===== src/Scanner.antt =====
-- src/app/scanner.h, src/app/scanner.cxx: the scanner, its state and its operations.
pub mod State
pub mod Lexeme
pub mod Scan
pub mod Bounded
pub mod Names
pub mod Strings
pub mod Runs
pub mod Words
mod Tests
