-- ===== src/Gateway.antt =====
-- telemetry/api.py: the upload of a submission, the leaderboard and its stream.
pub mod Upload
pub mod Stream
pub mod Leaderboard
