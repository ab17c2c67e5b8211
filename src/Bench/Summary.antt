-- ===== src/Bench/Summary.antt =====
-- bench/run_loadtest.py: `summarize` and `aggregate`.
pub mod Verdict
use trade_plat.Common.{
  ℕ, ◌+◌, ◌-◌, List, [], ◌∷◌, map, Option, none, some, Bool, true, false, ◌||◌, if◌then◌else◌,
  length, drop,
}
use trade_plat.Common.Floats.{Floats}
use trade_plat.Common.Text.{Name, codes, same}
use trade_plat.Bench.Statistics.{lowest, highest, least, least_value, greatest_value, median, peak}

-- A line of the scoring engine. `none` is a key that is missing or null, or a latency that is no
-- number; `total_events` is 0 if it is missing.
pub record Sample (F : Type 0) : Type 0 where
  pub tps : F
  pub p50_lat_us : Option F
  pub p90_lat_us : Option F
  pub p99_lat_us : Option F
  pub correctness : Option Name
  pub total_events : ℕ

-- `fleet_totals`, with 0 for a missing key.
pub record FleetTotals : Type 0 where
  pub sent : ℕ
  pub drops : ℕ
  pub fails : ℕ

pub record Figures (F : Type 0) : Type 0 where
  pub sample_count : ℕ
  pub under_load_sample_count : ℕ
  pub idle_samples_excluded : ℕ
  pub steady_state_sample_count : ℕ
  pub scoring_backlog_at_start : ℕ
  pub engine_tps_median : F
  pub engine_tps_peak : F
  pub p50_lat_us : F
  pub p90_lat_us : F
  pub p99_lat_us : F
  pub p99_worst_us : F
  pub correctness : Name
  pub trade_events_this_run : ℕ
  pub steady_state_score : F
  pub fleet_send_ops_median : F
  pub fleet_orders_sent : ℕ
  pub fleet_drops : ℕ
  pub fleet_fails : ℕ

-- The texts under the key `error`.
pub data Failure : Type 0 where
  no_samples : Failure
  no_throughput : (sample_count : ℕ) → Failure
  stack_not_ready stack_failed : Failure

pub data Summary (F : Type 0) : Type 0 where
  error : Failure → Summary F
  figures_of : Figures F → Summary F

-- `PASSED`
abbrev pub passed_text : Name
passed_text = codes "PASSED"

-- `{...} - {"PASSED", None}`
unfoldable pub violations : List (Option Name) → List Name
violations [] = []
violations (none ∷ verdicts) = violations verdicts
violations (some text ∷ verdicts) =
    let rest = violations verdicts in if same text passed_text then rest else text ∷ rest

-- `violations[0] if violations else "PASSED"`
unfoldable pub overall : List (Option Name) → Name
unfolding violations
overall verdicts = elim (least (violations verdicts)) [ none ↦ passed_text | some text ↦ text ]

-- The values of a key that are there.
unfoldable pub present : {F : Type 0} → List (Option F) → List F
present [] = []
present (none ∷ xs) = present xs
present (some x ∷ xs) = x ∷ present xs

module _ (fl : Floats) where
  open fl use {F, lt, mul, div, of_int, decimal, trunc, round}

  -- `s.get("tps", 0) > 0`
  unfoldable pub under_load : List (Sample F) → List (Sample F)
  under_load [] = []
  under_load (s ∷ ss) = let rest = under_load ss in if lt (of_int 0) s.tps then s ∷ rest else rest

  -- `int(len(under_load) * WARMUP_FRACTION)`
  unfoldable pub warmup : ℕ → ℕ
  warmup n = trunc (mul (of_int n) (decimal 25 2))

  -- `under_load[warmup:] or under_load`
  unfoldable pub steady_part : List (Sample F) → List (Sample F)
  unfolding warmup
  steady_part loaded = elim (drop (warmup (length loaded)) loaded) [ [] ↦ loaded | s ∷ ss ↦ s ∷ ss ]

  -- `med_tps / max(med_p99, 0.1) if med_tps else 0`
  unfoldable pub steady_score : F → F → F
  steady_score med_tps med_p99 =
      if lt (of_int 0) med_tps || lt med_tps (of_int 0)
      then div med_tps (if lt med_p99 (decimal 1 1) then decimal 1 1 else med_p99)
      else of_int 0

  -- The dictionary at the end, of the samples and those under load.
  unfoldable pub reduce :
      Sample F → List (Sample F) → List (Sample F) → List F → FleetTotals → Figures F
  reduce s ss loaded fleet_ops fleet =
      let steady = steady_part loaded in
      let totals = map (λ t. t.total_events) ss in
      let tps = map (λ t. t.tps) steady in
      let p99 = present (map (λ t. t.p99_lat_us) steady) in
      record {
        sample_count = length (s ∷ ss);
        under_load_sample_count = length loaded;
        idle_samples_excluded = length (s ∷ ss) - length loaded;
        steady_state_sample_count = length steady;
        scoring_backlog_at_start = lowest s.total_events totals;
        engine_tps_median = round (median fl tps) 2;
        engine_tps_peak = round (peak fl tps) 2;
        p50_lat_us = round (median fl (present (map (λ t. t.p50_lat_us) steady))) 2;
        p90_lat_us = round (median fl (present (map (λ t. t.p90_lat_us) steady))) 2;
        p99_lat_us = round (median fl p99) 2;
        p99_worst_us = round (peak fl p99) 2;
        correctness = overall (map (λ t. t.correctness) (s ∷ ss));
        trade_events_this_run = highest s.total_events totals - lowest s.total_events totals;
        steady_state_score = round (steady_score (median fl tps) (median fl p99)) 4;
        fleet_send_ops_median = round (median fl fleet_ops) 2;
        fleet_orders_sent = fleet.sent;
        fleet_drops = fleet.drops;
        fleet_fails = fleet.fails;
      }

  unfoldable pub summarize : List (Sample F) → List F → FleetTotals → Summary F
  unfolding reduce
  summarize [] fleet_ops fleet = error no_samples
  summarize (s ∷ ss) fleet_ops fleet = elim (under_load (s ∷ ss)) [
    | [] ↦ error (no_throughput (length (s ∷ ss)))
    | t ∷ ts ↦ figures_of (reduce s ss (t ∷ ts) fleet_ops fleet)
  ]

  pub record Spread : Type 0 where
    pub low : F
    pub middle : F
    pub high : F
    pub spread_ratio : Option F

  -- The statistics of one key.
  unfoldable pub spread : F → List F → Spread
  spread x xs =
      let low = least_value fl x xs in
      let high = greatest_value fl x xs in
      record {
        low = round low 2;
        middle = round (median fl (x ∷ xs)) 2;
        high = round high 2;
        spread_ratio = if lt (of_int 0) low then some (round (div high low) 2) else none;
      }

  -- `AGGREGATED`, as the values of its keys.
  abbrev pub aggregated : List (Figures F → F)
  aggregated =
      (λ f. f.engine_tps_median)
      ∷ (λ f. f.engine_tps_peak)
      ∷ (λ f. f.p50_lat_us)
      ∷ (λ f. f.p90_lat_us)
      ∷ (λ f. f.p99_lat_us)
      ∷ (λ f. f.p99_worst_us)
      ∷ (λ f. f.fleet_send_ops_median)
      ∷ (λ f. of_int f.trade_events_this_run)
      ∷ []

  -- `[r for r in run_summaries if "error" not in r]`
  unfoldable pub completed : List (Summary F) → List (Figures F)
  completed [] = []
  completed (error e ∷ rs) = completed rs
  completed (figures_of f ∷ rs) = f ∷ completed rs

  unfoldable pub sum_of : (Figures F → ℕ) → List (Figures F) → ℕ
  sum_of key [] = 0
  sum_of key (f ∷ fs) = key f + sum_of key fs

  pub record Report : Type 0 where
    pub runs_completed : ℕ
    pub runs_attempted : ℕ
    pub correctness : Name
    pub total_fleet_drops : ℕ
    pub total_fleet_fails : ℕ
    pub metrics : List Spread

  -- `none` is the dictionary with the error `every run failed`.
  unfoldable pub aggregate : List (Summary F) → Option Report
  aggregate summaries = elim (completed summaries) [
    | [] ↦ none
    | f ∷ fs ↦ some (record {
      runs_completed = length (f ∷ fs);
      runs_attempted = length summaries;
      correctness = overall (map (λ g. some g.correctness) (f ∷ fs));
      total_fleet_drops = sum_of (λ g. g.fleet_drops) (f ∷ fs);
      total_fleet_fails = sum_of (λ g. g.fleet_fails) (f ∷ fs);
      metrics = map (λ key. spread (key f) (map key fs)) aggregated;
    })
  ]
