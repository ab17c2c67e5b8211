-- ===== src/Wire.antt =====
-- The byte formats between the programs: order frames of the bots, the WebSocket frames around
-- them, and the trade frames of the engine.
pub mod Bytes
pub mod Order
pub mod Frame
pub mod Trade
