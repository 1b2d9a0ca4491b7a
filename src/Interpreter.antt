-- ===== src/Interpreter.antt =====
-- src/ir/interpreter: the memory of interpreted programs.
pub mod Heap
pub mod Ranges
pub mod Freeing
pub mod RawBytes
pub mod Storing
mod Tests
