-- ===== src/Omis/Steady.antt =====
-- What every method of src/omis/model.cpp leaves of the scopes and of the tables, where it succeeds.
pub mod Objects
pub mod Instructions
pub mod Control
pub mod Rules
pub mod Scoped
