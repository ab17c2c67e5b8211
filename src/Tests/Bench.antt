-- ===== src/Tests/Bench.antt =====
-- bench/run_loadtest.py on two samples.
use trade_plat.Common.{
  Option, ℕ, ◌+◌, ◌*◌, ◌≡◌, ◌↔◌, refl, List, [], ◌∷◌, map, none, some, true, false,
}
use trade_plat.Common.Text.{Name, codes, starts_with, occurs_in}
use trade_plat.Bench.Summary.{
  Sample, FleetTotals, Report, summarize, under_load, completed, aggregate, passed_text,
}
use trade_plat.Bench.Campaign.Verdict.{Unblemished, correctness_iff}
use trade_plat.Bench.Stack.{service_ok, Look, wait_until_ready}
use trade_plat.Bench.Stack.Health.{service_ok-unhealthy}
use trade_plat.Bench.Stack.Ready.{Told, wait_until_ready-Told}
use trade_plat.Bench.Campaign.{Trial, restarted, run_trial, exit_status, campaign}
use trade_plat.Bench.Campaign.Exit.{AnyProductive, exit_status_iff}
use trade_plat.Fleet.Report.{Line}
use trade_plat.Bench.Parsing.{parse_fleet_ops, parse_fleet_totals, fleet_totals_of}
use trade_plat.Bench.Parsing.RoundTrip.Output.{
  Printed, reporter, other, text_of, rates, last_totals, parse-line_text,
}
use trade_plat.Common.Decimal.{read_number, digits}
use trade_plat.Common.Decimal.RoundTrip.{read_number-digits}
use trade_plat.Tests.Fixed.{Fixed, units, billion, fixed}

abbrev sample : ℕ → ℕ → Sample Fixed
sample rate events = record {
  tps = units (rate * billion);
  p50_lat_us = some (units billion);
  p90_lat_us = some (units billion);
  p99_lat_us = none;
  correctness = some passed_text;
  total_events = events;
}

abbrev samples : List (Sample Fixed)
samples = sample 0 4 ∷ sample 7 9 ∷ []

abbrev no_fleet : FleetTotals
no_fleet = record { sent = 0; drops = 0; fails = 0 }

abbrev trial : Trial Fixed
trial = record {
  returncode = 0;
  ready = true;
  samples = samples;
  fleet_ops = [];
  fleet_totals = no_fleet;
}

abbrev no_report : Report fixed
no_report = record {
  runs_completed = 0;
  runs_attempted = 0;
  correctness = [];
  total_fleet_drops = 0;
  total_fleet_fails = 0;
  metrics = [];
}

-- The report on one run under load.
abbrev report : Report fixed
report = elim (campaign fixed false (trial ∷ [])) [ none ↦ no_report | some r ↦ r ]

correctness_iff_example : (report.correctness ≡ passed_text) ↔ Unblemished fixed false (trial ∷ [])
unfolding campaign aggregate run_trial restarted summarize under_load completed
correctness_iff_example = correctness_iff fixed false (trial ∷ []) report refl

service_ok-unhealthy_example : service_ok (codes "kafka") (codes "Up 5 minutes (unhealthy)") ≡ true
unfolding starts_with occurs_in
service_ok-unhealthy_example =
    service_ok-unhealthy (codes "kafka") (codes "Up 5 minutes (unhealthy)") refl refl

abbrev looks : List Look
looks = record { now = 1; states = [] } ∷ record { now = 200_000_000_000; states = [] } ∷ []

wait_until_ready-Told_example : Told (0 + 180 * 1_000_000_000) looks (wait_until_ready 0 180 looks)
wait_until_ready-Told_example = wait_until_ready-Told 0 180 looks

exit_status_iff_example :
    (exit_status (campaign fixed false (trial ∷ [])) ≡ 0) ↔ AnyProductive fixed false (trial ∷ [])
exit_status_iff_example = exit_status_iff fixed false (trial ∷ [])

abbrev report_line : Line
report_line = record {
  totals = record { sent = 1_234_567; drops = 40; fails = 1_000 };
  ops = 98_765;
}

abbrev output : List Printed
output =
    other (codes "Starting Bot Fleet...")
    ∷ reporter report_line
    ∷ other (codes "")
    ∷ other (codes "Bot Fleet shut down.")
    ∷ []

-- Reads numerals only.
abbrev float_of : Name → Option Fixed
float_of text = elim (read_number text) [ none ↦ none | some n ↦ some (units (n * billion)) ]

float_of-digits : (n : ℕ) → float_of (digits n) ≡ some (units (n * billion))
float_of-digits n = rw (float_of, read_number-digits n) refl

parse-line_text_example :
    (parse_fleet_ops float_of (map text_of output) ≡ map (λ n. units (n * billion)) (rates output))
    × (fleet_totals_of (parse_fleet_totals (map text_of output)) ≡ last_totals no_fleet output)
unfolding occurs_in starts_with
parse-line_text_example =
    parse-line_text fixed float_of float_of-digits output (refl, (tt, (refl, (refl, tt))))
