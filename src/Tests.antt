-- ===== src/Tests.antt =====
-- The theorems at concrete inputs, and runs of the definitions.
pub mod Fixed
mod Scoring
mod Wire
mod Fleet
mod Orchestrator
mod Bench
mod Gateway
mod Engine
