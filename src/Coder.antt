-- ===== src/Coder.antt =====
-- src/omis/x-module-coder.cpp: the code generator.
pub mod Nodes
pub mod Encode
pub mod Steady
pub mod Demands
pub mod Parts
pub mod Loops
pub mod Encodable
pub mod NodeLimits
pub mod Limits
pub mod Constants
pub mod Numbers
pub mod Typing
pub mod Tables
pub mod Counter
pub mod Tests
