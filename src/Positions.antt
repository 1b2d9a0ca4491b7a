-- ===== src/Positions.antt =====
-- src/common/positions: files, lines and the positions that the compiler refers to.
pub mod File
pub mod Lines
pub mod FileSet
mod Tests
