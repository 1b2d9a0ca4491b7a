-- ===== src/X86.antt =====
-- src/x86_64: operands and instructions of the machine code, as bytes.
pub mod Bits
pub mod Ops
pub mod Encode
pub mod Address
pub mod Addressing
pub mod MemOperands
pub mod Registers
pub mod Equality
mod Tests
