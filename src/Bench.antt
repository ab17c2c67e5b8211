-- ===== src/Bench.antt =====
-- bench/run_loadtest.py: the stack is restarted, each run is summarized and the runs are collapsed.
pub mod Statistics
pub mod Summary
pub mod Parsing
pub mod Stack
pub mod Campaign
