-- ===== src/Scoring.antt =====
-- telemetry/scoring_engine.py: the worker that validates and scores one contestant's trades.
pub mod Event
pub mod State
pub mod Percentile
pub mod Metrics
pub mod Feed
pub mod Worker
