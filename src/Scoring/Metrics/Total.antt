-- ===== src/Scoring/Metrics/Total.antt =====
-- `metrics` always has figures to return.
use trade_plat.Common.{ℕ, ◌<◌, ◌≡◌, refl, List, [], ◌∷◌, some, arith, length}
use trade_plat.Common.Floats.{Floats, Scaling}
use trade_plat.Scoring.State.{ContestantState, prune}
use trade_plat.Scoring.Percentile.Rank.{percentile-total}
use trade_plat.Scoring.Metrics.{
  Metrics, latencies, latency_us, throughput, score_of, or_zero, figures, metrics,
}

module _ (fl : Floats) (scaling : Scaling fl) where
  open fl use {F, ratio, of_int, decimal, round}

  latency_us-total :
      (xs : List ℕ) (digits : ℕ)
      → digits < 100
      → (x : F) × (latency_us fl xs (decimal digits 2) ≡ some x)
  unfolding latency_us
  latency_us-total [] digits h = (of_int 0, refl)
  latency_us-total (x ∷ xs) digits h =
      let (v, found) = percentile-total fl scaling x xs digits h in (ratio v 1000, rw found)

  -- What the figures of a state say, up to the rounding of the latencies.
  pub record Reports (s : ContestantState F) (m : Metrics F) : Type 0 where
    pub rate : m.tps ≡ round (throughput fl (length s.samples) s.window_seconds) 2
    pub verdict : m.correctness ≡ s.correctness
    pub events : m.total_events ≡ s.total_events
    pub orders : m.tracked_orders ≡ length s.order_fills
    pub last : m.last_match_id ≡ or_zero fl s.last_match_id

  pub figures-total :
      (s : ContestantState F) → (m : Metrics F) × (figures fl s ≡ some m) × Reports s m
  unfolding figures
  figures-total s =
      let (p50, e50) = latency_us-total (latencies s.samples) 50 (omega arith) in
      let (p90, e90) = latency_us-total (latencies s.samples) 90 (omega arith) in
      let (p99, e99) = latency_us-total (latencies s.samples) 99 (omega arith) in
      let m : Metrics F = record {
        tps = round (throughput fl (length s.samples) s.window_seconds) 2;
        p50_lat_us = round p50 2;
        p90_lat_us = round p90 2;
        p99_lat_us = round p99 2;
        score =
            round
              (score_of fl s.correctness (throughput fl (length s.samples) s.window_seconds) p99) 4;
        correctness = s.correctness;
        total_events = s.total_events;
        tracked_orders = length s.order_fills;
        last_match_id = or_zero fl s.last_match_id;
      } in
      (
        m,
        rw (e50, e90, e99),
        record { rate = refl; verdict = refl; events = refl; orders = refl; last = refl },
      )

  -- `metrics` never raises. Its figures are those of the pruned state.
  pub metrics-total :
      (now : F) (s : ContestantState F)
      → (m : Metrics F) × (metrics fl now s ≡ some (m, prune fl now s)) × Reports (prune fl now s) m
  unfolding metrics
  metrics-total now s = let (m, e, r) = figures-total (prune fl now s) in (m, rw e, r)
