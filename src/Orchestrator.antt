-- ===== src/Orchestrator.antt =====
-- infra/orchestrator.py: how a submission is built, scored, run in its sandbox and cleaned up.
pub mod Language
pub mod Effects
pub mod Trace
pub mod Cluster
pub mod Exchange
pub mod Lifecycle
