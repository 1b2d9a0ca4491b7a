-- ===== src/Interference.antt =====
-- src/ir/info/interference_graph.cc and src/ir/analyzers/interference_graph_colorer.cc: which values of
-- a function live at the same time, and the colours that keep them apart.
pub mod Sets
pub mod Graph
pub mod Refines
pub mod Built
pub mod Colors
pub mod Pigeons
pub mod Proper
mod Tests
