-- ===== src/Bench/Campaign.antt =====
-- bench/run_loadtest.py: the loop of `main` over the runs, and its exit status.
pub mod Exit
pub mod Verdict
use trade_plat.Common.{
  ℕ, List, [], ◌∷◌, map, Option, none, some, Bool, true, false, not, ◌==◌, if◌then◌else◌,
}
use trade_plat.Common.Floats.{Floats}
use trade_plat.Bench.Summary.{
  Sample, FleetTotals, Summary, Report, error, stack_not_ready, stack_failed, summarize, aggregate,
}

-- What a run meets: the returncode of `docker compose up`, whether the wait for the stack returns
-- True, and what the fleet and the scoring engine have printed.
pub record Trial (F : Type 0) : Type 0 where
  pub returncode : ℕ
  pub ready : Bool
  pub samples : List (Sample F)
  pub fleet_ops : List F
  pub fleet_totals : FleetTotals

-- `restart_stack(args)`
unfoldable pub restarted : {F : Type 0} → Trial F → Bool
restarted t = if not (t.returncode == 0) then false else t.ready

-- The body of the loop: what it appends to `runs`.
unfoldable pub run_trial : (fl : Floats) → (no_restart : Bool) → Trial fl.F → Summary fl.F
run_trial fl true t =
    if not t.ready then error stack_not_ready else summarize fl t.samples t.fleet_ops t.fleet_totals
run_trial fl false t =
    if not (restarted t)
    then error stack_failed
    else summarize fl t.samples t.fleet_ops t.fleet_totals

-- `0 if agg.get("runs_completed") else 1`
unfoldable pub exit_status : {fl : Floats} → Option (Report fl) → ℕ
exit_status none = 1
exit_status (some r) = if r.runs_completed == 0 then 1 else 0

unfoldable pub campaign :
    (fl : Floats) → (no_restart : Bool) → List (Trial fl.F) → Option (Report fl)
campaign fl no_restart trials = aggregate fl (map (run_trial fl no_restart) trials)
