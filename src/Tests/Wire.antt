-- ===== src/Tests/Wire.antt =====
-- The byte formats on small frames.
use trade_plat.Common.{◌≡◌, refl, [], ◌∷◌, ◌++◌, some, arith, length}
use trade_plat.Scoring.Event.{TradeEvent, unpack_trade_events}
use trade_plat.Wire.Order.{OrderMessage, message_size, packable, layout, pack, unpack}
use trade_plat.Wire.Order.RoundTrip.{unpack-pack}
use trade_plat.Wire.Frame.{Mask, websocket_binary_frame, parse_frame, binary}
use trade_plat.Wire.Frame.RoundTrip.{parse_frame-websocket_binary_frame}
use trade_plat.Wire.Trade.RoundTrip.{stream_bytes, unpack_trade_events-stream_bytes}
use trade_plat.Tests.Fixed.{Tick, hundred, hundred_half, ticks, ticks_codec}

abbrev order : OrderMessage Tick
order = record { order_id = 1000001; timestamp_ns = 99; price = hundred_half; qty = 25; side = 2 }

unpack-pack_example :
    (unpack ticks (layout ticks order ++ 7 ∷ []) ≡ order)
    × (length (layout ticks order) ≡ message_size)
unfolding pack packable
unpack-pack_example = unpack-pack ticks ticks_codec order (layout ticks order) (7 ∷ []) refl

abbrev mask : Mask
mask = record { m0 = 0x12; m1 = 0x34; m2 = 0x56; m3 = 0x78 }

parse_frame-websocket_binary_frame_example :
    parse_frame (websocket_binary_frame mask (1 ∷ 2 ∷ 3 ∷ 4 ∷ 5 ∷ []) ++ 9 ∷ [])
    ≡ binary (1 ∷ 2 ∷ 3 ∷ 4 ∷ 5 ∷ []) (9 ∷ [])
parse_frame-websocket_binary_frame_example =
    parse_frame-websocket_binary_frame mask (1 ∷ 2 ∷ 3 ∷ 4 ∷ 5 ∷ []) (9 ∷ []) (omega arith)
      (omega arith) (omega arith)

abbrev trade : TradeEvent Tick
trade = record {
  match_id = 1;
  buy_order_id = 100;
  sell_order_id = 200;
  t0_ns = 5;
  t1_ns = 6;
  t2_ns = 7;
  price = hundred;
  qty = 5;
}

unpack_trade_events-stream_bytes_example :
    unpack_trade_events ticks (stream_bytes ticks (trade ∷ trade ∷ [])) ≡ some (trade ∷ trade ∷ [])
unpack_trade_events-stream_bytes_example =
    unpack_trade_events-stream_bytes ticks ticks_codec (trade ∷ trade ∷ []) (omega arith)
