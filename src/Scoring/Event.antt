-- ===== src/Scoring/Event.antt =====
-- telemetry/scoring_engine.py: `TradeEvent` and `unpack_trade_events`, the 60-byte frames of the
-- trade topic.
use trade_plat.Common.{
  ℕ, zero, suc, ◌-◌, ◌%◌, List, [], ◌∷◌, Option, none, some, length, drop, ◌==◌, if◌then◌else◌, ◌/◌,
}
use trade_plat.Common.Floats.{Floats}
use trade_plat.Wire.Bytes.{from_bytes, slice}

pub record TradeEvent (F : Type 0) : Type 0 where
  pub match_id : ℕ
  pub buy_order_id : ℕ
  pub sell_order_id : ℕ
  pub t0_ns : ℕ
  pub t1_ns : ℕ
  pub t2_ns : ℕ
  pub price : F
  pub qty : ℕ

-- `max(0, t2 - t1)`: subtraction on ℕ stops at 0.
abbrev pub engine_latency_ns : {F : Type 0} → TradeEvent F → ℕ
engine_latency_ns e = e.t2_ns - e.t1_ns

-- `struct.calcsize("<QQQQQQdI")`
abbrev pub trade_event_size : ℕ
trade_event_size = 60

module _ (fl : Floats) where
  open fl use {F, of_bytes}

  -- `struct.unpack_from` at the head of the bytes.
  unfoldable pub unpack_event : List ℕ → TradeEvent F
  unpack_event bs = record {
    match_id = from_bytes (slice 0 8 bs);
    buy_order_id = from_bytes (slice 8 8 bs);
    sell_order_id = from_bytes (slice 16 8 bs);
    t0_ns = from_bytes (slice 24 8 bs);
    t1_ns = from_bytes (slice 32 8 bs);
    t2_ns = from_bytes (slice 40 8 bs);
    price = of_bytes (slice 48 8 bs);
    qty = from_bytes (slice 56 4 bs);
  }

  -- The `for` over the offsets: the bytes that are left hold `n` frames.
  unfoldable pub unpack_frames : ℕ → List ℕ → List (TradeEvent F)
  unfolding unpack_event
  unpack_frames zero bs = []
  unpack_frames (suc n) bs = unpack_event bs ∷ unpack_frames n (drop trade_event_size bs)

  -- `none` is the ValueError, which is raised before any event is yielded.
  unfoldable pub unpack_trade_events : List ℕ → Option (List (TradeEvent F))
  unfolding unpack_frames
  unpack_trade_events payload =
      if length payload % trade_event_size == 0
      then some (unpack_frames (length payload / trade_event_size) payload)
      else none
