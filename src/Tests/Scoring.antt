-- ===== src/Tests/Scoring.antt =====
-- telemetry/scoring_engine.py on the trades of its self-test.
use trade_plat.Common.{ℕ, ◌+◌, ◌*◌, ◌≡◌, ◌↔◌, refl, List, [], ◌∷◌, ◌++◌, none, some, arith, length}
use trade_plat.Scoring.Event.{TradeEvent, unpack_trade_events}
use trade_plat.Scoring.State.{
  match_sequence, buy_priority, sell_priority, init, filled, validate, accept,
}
use trade_plat.Scoring.State.Legal.{Legal, validate-eq-none_iff}
use trade_plat.Scoring.Feed.{feed}
use trade_plat.Scoring.Feed.Stream.{IsStream, feed-eq-none_iff, feed_consecutive}
use trade_plat.Scoring.Feed.Ledger.{traded, volume, total_filled, filled-feed, total_filled-feed}
use trade_plat.Scoring.Feed.History.{Monotonic, history, samples-feed}
use trade_plat.Wire.Bytes.{to_bytes, from_bytes}
use trade_plat.Scoring.State.Window.{fresh}
use trade_plat.Scoring.Percentile.{insert, sorted, rank_index, percentile}
use trade_plat.Scoring.Worker.{Reply, all_taken, Poll, nothing, payload, run, start}
use trade_plat.Scoring.Worker.Latch.{Verdict, run-Verdict}
use trade_plat.Scoring.Worker.Batches.{Agrees, decoded, run-feed}
use trade_plat.Tests.Fixed.{Fixed, units, billion, fixed, fixed_order, fixed_scaling}

-- `ev` of the self-test, with a price in halves.
abbrev ev : ℕ → ℕ → ℕ → ℕ → TradeEvent Fixed
ev match_id buy_id sell_id halves = record {
  match_id = match_id;
  buy_order_id = buy_id;
  sell_order_id = sell_id;
  t0_ns = 1_000_000;
  t1_ns = 1_003_000;
  t2_ns = 1_005_000 + match_id * 1000;
  price = units (halves * 500_000_000);
  qty = 5;
}

-- A buy taker sweeping asks.
abbrev sweep : List (TradeEvent Fixed)
sweep = ev 1 100 200 20 ∷ ev 2 100 201 21 ∷ ev 3 100 202 22 ∷ []

-- A reading each half second, and a window of one second.
abbrev clock : ℕ → Fixed
clock k = units (k * 500_000_000)

abbrev second : Fixed
second = units billion

sweep_accepted : (feed fixed clock 0 (init second) sweep).1 ≡ none
unfolding feed validate accept init
sweep_accepted = refl

-- The same buy order trading cheaper.
cheaper_refused :
    (feed fixed clock 0 (init second) (ev 1 100 200 21 ∷ ev 2 100 201 20 ∷ [])).1
    ≡ some (buy_priority 100 (units (21 * 500_000_000)) (units (20 * 500_000_000)))
unfolding feed validate accept init
cheaper_refused = refl

-- The same sell order trading higher.
higher_refused :
    (feed fixed clock 0 (init second) (ev 1 200 100 20 ∷ ev 2 201 100 21 ∷ [])).1
    ≡ some (sell_priority 100 (units (20 * 500_000_000)) (units (21 * 500_000_000)))
unfolding feed validate accept init
higher_refused = refl

-- A gap in the match numbers.
gap_refused :
    (feed fixed clock 0 (init second) (ev 1 100 200 20 ∷ ev 3 100 201 20 ∷ [])).1
    ≡ some (match_sequence 2 3)
unfolding feed validate accept init
gap_refused = refl

validate-eq-none_iff_example :
    (validate fixed (init second) (ev 1 100 200 20) ≡ none)
    ↔ Legal fixed (init second) (ev 1 100 200 20)
validate-eq-none_iff_example = validate-eq-none_iff fixed (init second) (ev 1 100 200 20)

feed-eq-none_iff_example :
    ((feed fixed clock 0 (init second) sweep).1 ≡ none) ↔ IsStream fixed none sweep
feed-eq-none_iff_example = feed-eq-none_iff fixed clock 0 second sweep

feed_consecutive_example : (ev 3 100 202 22).match_id ≡ (ev 1 100 200 20).match_id + 2
feed_consecutive_example =
    feed_consecutive fixed clock 0 second (ev 1 100 200 20) (ev 2 100 201 21 ∷ ev 3 100 202 22 ∷ [])
      2 (ev 3 100 202 22) sweep_accepted refl

filled-feed_example :
    filled 100 (feed fixed clock 0 (init second) sweep).0.order_fills ≡ traded 100 sweep
filled-feed_example = filled-feed fixed clock 0 second sweep 100 sweep_accepted

total_filled-feed_example :
    (total_filled (feed fixed clock 0 (init second) sweep).0.order_fills ≡ 2 * volume sweep)
    × ((feed fixed clock 0 (init second) sweep).0.total_events ≡ length sweep)
total_filled-feed_example = total_filled-feed fixed clock 0 second sweep sweep_accepted

ticking : Monotonic fixed clock second
ticking = record {
  reading_finite = λ i. refl;
  reading_mono = λ i j h. ground arith;
  cutoff_finite = λ i. refl;
  cutoff_mono = λ i j h. ground arith;
}

samples-feed_example :
    (feed fixed clock 0 (init second) sweep).0.samples
    ≡ fresh fixed (fixed.sub (clock (0 + 2)) second) (history fixed clock 0 sweep)
samples-feed_example =
    samples-feed fixed clock fixed_order second ticking 0 (ev 1 100 200 20)
      (ev 2 100 201 21 ∷ ev 3 100 202 22 ∷ []) sweep_accepted

-- The middle of five latencies.
median_run : percentile fixed (7 ∷ 3 ∷ 9 ∷ 1 ∷ 5 ∷ []) (fixed.decimal 50 2) ≡ some 5
unfolding percentile sorted insert rank_index
median_run = refl

median_of_three : percentile fixed (7 ∷ 3 ∷ 9 ∷ []) (fixed.decimal 50 2) ≡ some 7
unfolding percentile sorted insert rank_index
median_of_three = refl

p99_of_three : percentile fixed (7 ∷ 3 ∷ 9 ∷ []) (fixed.decimal 99 2) ≡ some 7
unfolding percentile sorted insert rank_index
p99_of_three = refl

abbrev wall : ℕ → ℕ
wall k = k

abbrev taking : ℕ → Reply
taking k = all_taken

-- The 60 bytes of a trade at 10.0, the price that `fixed` reads from every eight bytes.
abbrev trade_frame : ℕ → ℕ → ℕ → List ℕ
trade_frame match_id buy_id sell_id =
    to_bytes 8 match_id
    ++ to_bytes 8 buy_id
    ++ to_bytes 8 sell_id
    ++ to_bytes 8 1_000_000
    ++ to_bytes 8 1_003_000
    ++ to_bytes 8 (1_005_000 + match_id * 1000)
    ++ to_bytes 8 0
    ++ to_bytes 4 5

-- Two trades in one message, a quiet poll, and a trade behind a gap.
abbrev polls : List Poll
polls =
    payload (trade_frame 1 100 200 ++ trade_frame 2 100 201)
    ∷ nothing
    ∷ payload (trade_frame 4 100 202)
    ∷ []

abbrev trades : List (TradeEvent Fixed)
trades = ev 1 100 200 20 ∷ ev 2 100 201 20 ∷ ev 4 100 202 20 ∷ []

polls-decoded : decoded fixed fixed_scaling polls ≡ some trades
unfolding decoded unpack_trade_events from_bytes to_bytes
polls-decoded = refl

run-Verdict_example :
    Verdict fixed fixed_scaling
      (run fixed clock wall taking second (start fixed clock wall taking second second) polls)
run-Verdict_example = run-Verdict fixed fixed_scaling clock wall taking second second polls

run-feed_example :
    Agrees fixed fixed_scaling
      (run fixed clock wall taking second (start fixed clock wall taking second second) polls)
      (feed fixed clock 0 (init second) trades)
run-feed_example =
    run-feed fixed fixed_scaling clock wall taking (λ k. refl) second second polls trades
      polls-decoded
