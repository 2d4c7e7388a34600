-- ===== src/Scheduler.antt =====
-- src/quantum_entanglement/scheduler.py: the deterministic task graph.
pub mod Task
pub mod Graph
pub mod Moves
pub mod Refresh
pub mod Ready
