-- ===== src/Ir.antt =====
-- The intermediate representation of src/ir/representation with its types, the checks of src/ir/check and the
-- interpreter of src/ir/interpreter.
pub mod Types
pub mod Instrs
pub mod Issues
pub mod Checks
pub mod Calls
pub mod Blocks
pub mod Execution
pub mod Memory
pub mod Machine
pub mod Steps
pub mod Evaluation
pub mod Soundness
pub mod HeapSoundness
pub mod Reports
pub mod Checked
pub mod CallSoundness
pub mod Shape
pub mod Loading
pub mod Phis
mod Tests
