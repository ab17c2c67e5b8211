-- ===== src/Fleet.antt =====
-- bot-fleet/main.py and sample_bot/: the load generators and the sample contestant.
pub mod Bot
pub mod Orders
pub mod Connect
pub mod Delivery
pub mod Roster
pub mod Report
pub mod Sample
pub mod Strategy
