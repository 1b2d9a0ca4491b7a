-- ===== src/Instrs.antt =====
-- src/x86_64/instrs: the instructions, encoded through `InstrEncoder` into a view of the code.
pub mod Linker
pub mod Encoder
pub mod Data
pub mod Stack
pub mod Arithmetic
pub mod Products
pub mod Control
pub mod Lists
pub mod Operand
pub mod Writing
pub mod Written
pub mod Prefixes
pub mod Sized
pub mod Single
pub mod Linking
pub mod Patches
pub mod Jumps
mod Tests
