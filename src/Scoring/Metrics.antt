-- ===== src/Scoring/Metrics.antt =====
-- telemetry/scoring_engine.py: `ContestantState.metrics`, the published figures.
pub mod Total
use trade_plat.Common.{ℕ, List, [], ◌∷◌, map, Option, none, some, length, if◌then◌else◌, ◌>>=◌}
use trade_plat.Common.Floats.{Floats}
use trade_plat.Scoring.State.{ContestantState, Correctness, passed, violated, prune}
use trade_plat.Scoring.Percentile.{percentile}

pub record Metrics (F : Type 0) : Type 0 where
  pub tps : F
  pub p50_lat_us : F
  pub p90_lat_us : F
  pub p99_lat_us : F
  pub score : F
  pub correctness : Correctness F
  pub total_events : ℕ
  pub tracked_orders : ℕ
  pub last_match_id : ℕ

abbrev pub latencies {ℓ} : {F : Type ℓ} → List (F × ℕ) → List ℕ
latencies = map (λ sample. sample.1)

module _ (fl : Floats) where
  open fl use {F, lt, div, ratio, of_int, decimal, round}

  -- `max(x, y)`, which keeps `x` on a tie
  unfoldable pub fmax : F → F → F
  fmax x y = if lt x y then y else x

  -- `percentile(latencies, p) / 1000 if latencies else 0`
  unfoldable pub latency_us : List ℕ → F → Option F
  unfolding percentile
  latency_us [] p = some (of_int 0)
  latency_us (x ∷ xs) p = do v ← percentile fl (x ∷ xs) p; some (ratio v 1000)

  -- `len(samples) / window if window > 0 else 0`
  unfoldable pub throughput : ℕ → F → F
  throughput n window = if lt (of_int 0) window then div (of_int n) window else of_int 0

  -- `0 if correctness != "PASSED" else tps / max(p99, 0.1)`
  unfoldable pub score_of : Correctness F → F → F → F
  unfolding fmax
  score_of passed tps p99 = div tps (fmax p99 (decimal 1 1))
  score_of (violated v) tps p99 = of_int 0

  -- `last_match_id or 0`
  unfoldable pub or_zero : Option ℕ → ℕ
  or_zero none = 0
  or_zero (some m) = m

  -- The dictionary that `metrics` returns, of a state that it has pruned.
  unfoldable pub figures : ContestantState F → Option (Metrics F)
  unfolding latency_us throughput score_of or_zero
  figures s = do
    p50 ← latency_us (latencies s.samples) (decimal 50 2)
    p90 ← latency_us (latencies s.samples) (decimal 90 2)
    p99 ← latency_us (latencies s.samples) (decimal 99 2)
    let tps = throughput (length s.samples) s.window_seconds
    some (record {
      tps = round tps 2;
      p50_lat_us = round p50 2;
      p90_lat_us = round p90 2;
      p99_lat_us = round p99 2;
      score = round (score_of s.correctness tps p99) 4;
      correctness = s.correctness;
      total_events = s.total_events;
      tracked_orders = length s.order_fills;
      last_match_id = or_zero s.last_match_id;
    })

  -- `metrics()`: the figures, and the state with the stale samples gone.
  unfoldable pub metrics : F → ContestantState F → Option (Metrics F × ContestantState F)
  unfolding prune figures
  metrics now s = do m ← figures (prune fl now s); some (m, prune fl now s)
