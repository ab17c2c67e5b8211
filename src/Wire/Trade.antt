-- ===== src/Wire/Trade.antt =====
-- The 60-byte trade frame: the packed struct `TradeEvent` of matching-engine/MarketEvents.h, which
-- the engine publishes and telemetry/scoring_engine.py unpacks.
pub mod RoundTrip
use trade_plat.Common.{List, [], ◌∷◌, ◌++◌, ℕ}
use trade_plat.Common.Floats.{Floats}
use trade_plat.Wire.Bytes.{to_bytes}
use trade_plat.Scoring.Event.{TradeEvent}

module _ (fl : Floats) where
  open fl use {F}

  -- The memory of the struct: six `uint64_t`, a `double` and a `uint32_t`.
  unfoldable pub trade_bytes : TradeEvent F → List ℕ
  trade_bytes e =
      to_bytes 8 e.match_id
      ++ (to_bytes 8 e.buy_order_id
          ++ (to_bytes 8 e.sell_order_id
              ++ (to_bytes 8 e.t0_ns
                  ++ (to_bytes 8 e.t1_ns
                      ++ (to_bytes 8 e.t2_ns ++ (fl.to_bytes e.price ++ to_bytes 4 e.qty))))))
