-- ===== src/Llvm.antt =====
-- src/omis/llvm/llvm.cxx: the backend that writes the code of a module with the library LLVM.
pub mod Api
pub mod Monad
pub mod Types
pub mod Values
pub mod Operators
pub mod Pointers
pub mod Backend
pub mod Laws
pub mod Giving
pub mod Following
pub mod Combining
pub mod Refusing
pub mod Coding
pub mod Answering
pub mod Xor
pub mod Masks
pub mod Flipping
pub mod Typing
mod Sample
mod Tests
