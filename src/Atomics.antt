-- ===== src/Atomics.antt =====
-- src/common/atomics: the integer and boolean values of Katara and its IR.
pub mod IntType
pub mod Ops
pub mod Cpp
pub mod Int
pub mod Compute
pub mod CastLaws
pub mod Conversions
pub mod Arithmetic
pub mod Comparison
pub mod Overflow
pub mod Shifts
pub mod Names
mod Tests
