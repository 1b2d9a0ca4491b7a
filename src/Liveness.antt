-- ===== src/Liveness.antt =====
-- From the code of a function to registers that do not clash: src/ir/info, src/ir/analyzers and the part of
-- src/ir/representation that they read.
pub mod Code
pub mod Ranges
pub mod Analyzer
pub mod Builder
pub mod Live
pub mod Walks
pub mod Apart
pub mod Registers
pub mod Operands
pub mod Edges
pub mod Updates
pub mod Operations
pub mod Growth
pub mod Flow
pub mod Visit
pub mod Queue
pub mod Drain
pub mod Known
pub mod Uses
pub mod Backwards
pub mod Phis
pub mod Start
pub mod Lookup
pub mod Complete
pub mod Allocation
mod Tests
