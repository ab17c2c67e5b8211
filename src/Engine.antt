-- ===== src/Engine.antt =====
-- matching-engine: the order book and the matching of orders.
pub mod Book
pub mod Matching
pub mod Priority
pub mod Stream
