-- ===== src/Tests/Orchestrator.antt =====
-- infra/orchestrator.py in a small cluster.
use trade_plat.Common.{◌+◌, ◌*◌, ◌≡◌, refl, inl, inr, List, [], ◌∷◌, none, some, map, false, arith}
use trade_plat.Common.Text.{Name, codes, same, ends_with}
use trade_plat.Orchestrator.Language.{Directory, entry_point}
use trade_plat.Orchestrator.Language.Entry.{FirstAt, entry_point-FirstAt}
use trade_plat.Orchestrator.Trace.{Closes, Ended}
use trade_plat.Orchestrator.Effects.{read_pod, api_exception, waiting}
use trade_plat.Orchestrator.Cluster.{
  Turn, phase, unfinished, succeeded, await_deletion, wait_for_agent_completion,
}
use trade_plat.Orchestrator.Cluster.Deadline.{await_deletion-refused}
use trade_plat.Orchestrator.Cluster.Polling.{Polled, wait_for_agent_completion-Polled}
use trade_plat.Orchestrator.Lifecycle.{World, run}
use trade_plat.Orchestrator.Lifecycle.Cleanup.{Left, run-Tidy}
use trade_plat.Orchestrator.Lifecycle.Isolation.{Jailed, run-Jailed}
use trade_plat.Orchestrator.Lifecycle.Ends.{run-Ended}

-- A submission in two directories.
abbrev nested : List Directory
nested =
    record { root = []; filenames = codes "main.rs" ∷ [] }
    ∷ record { root = codes "bot" ∷ []; filenames = codes "sandbox_sdk.py" ∷ [] }
    ∷ []

-- And one in Python only.
abbrev scripts : List Directory
scripts =
    record { root = []; filenames = codes "notes.md" ∷ [] }
    ∷ record { root = codes "bot" ∷ []; filenames = codes "sandbox_sdk.py" ∷ [] }
    ∷ []

entry_point-FirstAt_example :
    (path : List Name) × (entry_point scripts ≡ some path) × FirstAt scripts path
unfolding same ends_with
entry_point-FirstAt_example =
    entry_point-FirstAt scripts (λ h. ground arith) (λ h. ground arith) (inr (inl (inl refl)))

-- The pod is unfinished until the clock is past the deadline of 31 seconds.
abbrev late_turns : List Turn
late_turns =
    record { now = 5; answer = phase unfinished }
    ∷ record { now = 40_000_000_000; answer = phase succeeded }
    ∷ []

wait_for_agent_completion-Polled_example :
    Polled (0 + 31 * 1_000_000_000) none late_turns (wait_for_agent_completion 0 31 none late_turns)
wait_for_agent_completion-Polled_example = wait_for_agent_completion-Polled 0 31 none late_turns

abbrev world : World
world = record {
  connect_answer = none;
  namespace_answer = some (api_exception 409);
  policy_answer = none;
  build_answer = none;
  popen_answer = none;
  old_pod_answer = none;
  old_pod_reads = none ∷ some (api_exception 500) ∷ some (api_exception 404) ∷ [];
  create_answer = none;
  clock = 0;
  turns = late_turns;
  log_answer = none;
  exits = false;
  cleanup_answer = some (api_exception 404);
}

run-Tidy_example : Closes (Left none false) (run false 1 world).effects (run false 1 world).ending
run-Tidy_example = run-Tidy false 1 world

run-Jailed_example : Jailed (run false 1 world).effects
run-Jailed_example = run-Jailed false 1 world

run-Ended_example : Ended (run false 1 world)
run-Ended_example = run-Ended false 1 world (inr (inr (inl refl))) (inr (inl (omega arith)))

-- An API server that answers 500 and then 403.
await_deletion-refused_example :
    ((await_deletion (map (λ s. some (api_exception s)) (500 ∷ 403 ∷ []))).effects
      ≡ read_pod ∷ read_pod ∷ [])
    × ((await_deletion (map (λ s. some (api_exception s)) (500 ∷ 403 ∷ []))).ending ≡ waiting)
await_deletion-refused_example = await_deletion-refused (500 ∷ 403 ∷ []) (refl, (refl, tt))
