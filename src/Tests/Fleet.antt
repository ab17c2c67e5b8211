-- ===== src/Tests/Fleet.antt =====
-- bot-fleet/ and sample_bot/ on a small fleet.
use trade_plat.Common.{
  ℕ, ◌+◌, ◌^◌, ◌≡◌, refl, List, [], ◌∷◌, ◌++◌, true, false, arith, length, All, ◌==◌,
}
use Prim.Native.Nat.{min}
use trade_plat.Wire.Order.{packable, layout, pack, unpack, is_buy}
use trade_plat.Wire.Frame.{Mask, websocket_binary_frame, parse_frame, binary}
use trade_plat.Fleet.Bot.{
  Bot, init, unreachable, answered, Try, meets, escapes, connect_loop, connect, upgraded,
  send_order,
}
use trade_plat.Fleet.Connect.{connect-sleeps}
use trade_plat.Fleet.Delivery.{Counted, send_order-Counted}
use trade_plat.Fleet.Orders.{
  generate_order_id, side_code, order_message, format_order, ids_of, format_order_delivered,
}
use trade_plat.Fleet.Roster.{noise, spawn, build_fleet, build_fleet-ids_unique}
use trade_plat.Fleet.Sample.{run_sandbox_harness}
use trade_plat.Fleet.Sample.Bids.{IsBid, run_sandbox_harness-bids}
use trade_plat.Fleet.Strategy.{
  pos, negsuc, Leg, MakerRound, NoiseRound, MomentumRound, market_maker, noise_maker,
  momentum_maker,
}
use trade_plat.Fleet.Strategy.Sendable.{Sendable, strategies-Sendable}
use trade_plat.Tests.Fixed.{Tick, hundred, ticks, ticks_codec}

-- Two refused attempts, then one that the gateway upgrades.
abbrev tries : List Try
tries = meets unreachable ∷ meets (answered true false) ∷ meets (answered true true) ∷ []

connect-sleeps_example : 2 ≡ min (2 ^ 1) 10
unfolding connect connect_loop upgraded escapes
connect-sleeps_example = connect-sleeps (init 1) tries 1 2 refl

send_order-Counted_example :
    Counted (send_order tries false (init 1)).1 (init 1) (send_order tries false (init 1)).0
send_order-Counted_example = send_order-Counted tries false (init 1)

abbrev mask : Mask
mask = record { m0 = 1; m1 = 2; m2 = 3; m3 = 4 }

abbrev bid : List ℕ
bid = layout ticks (order_message ticks 1000001 b'B' 25 hundred 77)

abbrev after_bid : Bot
after_bid = (generate_order_id (init 1)).0

format_order_delivered_example :
    (parse_frame (websocket_binary_frame mask bid ++ []) ≡ binary bid [])
    × (unpack ticks bid ≡ order_message ticks ((init 1).order_id_counter + 1) b'B' 25 hundred 77)
    × (is_buy (unpack ticks bid).side ≡ (b'B' == b'B'))
    × (after_bid.order_id_counter ≡ (init 1).order_id_counter + 1)
unfolding format_order pack packable order_message generate_order_id init side_code
format_order_delivered_example =
    format_order_delivered ticks ticks_codec b'B' 25 hundred 77 (init 1) after_bid mask bid []
      (omega arith) refl

-- The second bot of a fleet of three formats its first order.
build_fleet-ids_unique_example :
    (length (build_fleet 1 1 1) ≡ 1 + 1 + 1) × (◌≡◌ {A = ℕ} 1 1) × (◌≡◌ {A = ℕ} 0 0)
unfolding build_fleet spawn ids_of generate_order_id init
build_fleet-ids_unique_example =
    build_fleet-ids_unique 1 1 1 1 1 5 7 0 0 2000001 (noise, init 2) (noise, init 2) (omega arith)
      (omega arith) refl refl refl refl

run_sandbox_harness-bids_example :
    let r = run_sandbox_harness ticks ((100, 7) ∷ (160, 8) ∷ []) (record { order_sequence = 0 }) in
    All (IsBid ticks) r.1 × (r.0.order_sequence ≡ 0 + length r.1)
run_sandbox_harness-bids_example =
    run_sandbox_harness-bids ticks ticks_codec ((100, 7) ∷ (160, 8) ∷ [])
      (record { order_sequence = 0 }) (omega arith) (omega arith)

abbrev leg : Leg
leg = record { time_ns = 77; tries = tries; written = true }

abbrev maker_rounds : List (MakerRound Tick)
maker_rounds =
    record {
      running = true;
      qty = 10;
      buy = leg;
      sell = leg;
      inventory_drift = negsuc 4;
      price_drift = hundred;
    }
    ∷ []

abbrev noise_rounds : List (NoiseRound Tick)
noise_rounds = record { running = true; side = b'S'; qty = 50; offset = hundred; leg = leg } ∷ []

abbrev momentum_rounds : List (MomentumRound Tick)
momentum_rounds =
    record { running = true; qty = 80; leg = leg; turns = true; step = hundred }
    ∷ record { running = false; qty = 20; leg = leg; turns = false; step = hundred }
    ∷ []

strategies-Sendable_example :
    Sendable ticks ticks_codec 1000000 (market_maker ticks maker_rounds (pos 0) hundred (init 1))
    × Sendable ticks ticks_codec 1000000 (noise_maker ticks noise_rounds (init 1))
    × Sendable ticks ticks_codec 1000000
        (momentum_maker ticks momentum_rounds true hundred (init 1))
unfolding init
strategies-Sendable_example =
    strategies-Sendable ticks ticks_codec maker_rounds noise_rounds momentum_rounds (pos 0) hundred
      true (init 1) (omega arith) (omega arith) (omega arith) (omega arith)
