-- ===== src/Orchestrator/Lifecycle.antt =====
-- infra/orchestrator.py: `run`, over the answers of the environment to its calls.
pub mod Cleanup
pub mod Isolation
pub mod Ends
use trade_plat.Common.{
  ℕ, ◌+◌, List, [], ◌∷◌, ◌++◌, Option, none, some, Bool, true, false, if◌then◌else◌,
}
use trade_plat.Orchestrator.Effects.{
  Effect, start_scoring, terminate_scoring, wait_scoring, kill_scoring, Raised, Ending, done,
  raised, waiting, Run, pure, raise, emit, ◌>>◌, try_finally,
}
use trade_plat.Orchestrator.Cluster.{
  ensure_namespace, ensure_network_policy, demand, build, spawn_contestant_sandbox_pod, Turn,
  wait_for_agent_completion, cleanup,
}

-- The answers: none where a call returns. `exits` tells whether the scoring process ends within
-- the ten seconds of `wait`.
pub record World : Type 0 where
  pub connect_answer : Option Raised
  pub namespace_answer : Option Raised
  pub policy_answer : Option Raised
  pub build_answer : Option Raised
  pub popen_answer : Option Raised
  pub old_pod_answer : Option Raised
  pub old_pod_reads : List (Option Raised)
  pub create_answer : Option Raised
  pub clock : ℕ
  pub turns : List Turn
  pub log_answer : Option Raised
  pub exits : Bool
  pub cleanup_answer : Option Raised

-- `start_scoring_engine`: a process that Popen cannot start is none.
unfoldable pub start_scoring_engine : Option Raised → Run Unit
start_scoring_engine none = emit start_scoring
start_scoring_engine (some x) = raise x

-- The statements of the `try` before the assignment of `scoring_proc`, with that call.
unfoldable pub prepare : World → Run Unit
prepare w =
    ensure_namespace w.namespace_answer
    >> ensure_network_policy w.policy_answer
    >> build w.build_answer
    >> start_scoring_engine w.popen_answer

-- The statements behind it.
unfoldable pub evaluate : (duration : ℕ) → World → Run Unit
evaluate duration w =
    spawn_contestant_sandbox_pod w.old_pod_answer w.old_pod_reads w.create_answer
    >> wait_for_agent_completion w.clock (duration + 30) w.log_answer w.turns

-- `scoring_proc is not None` once the statements of `prepare` have ended so.
unfoldable pub has_scoring : Ending Unit → Bool
has_scoring (done x) = true
has_scoring _ = false

unfoldable pub stop_scoring : (scoring exits : Bool) → Run Unit
stop_scoring false exits = pure tt
stop_scoring true exits =
    emit terminate_scoring >> emit wait_scoring >> (if exits then pure tt else emit kill_scoring)

-- The `finally` block.
unfoldable pub finalise : (keep_resources scoring : Bool) → World → Run Unit
finalise keep_resources scoring w =
    stop_scoring scoring w.exits >> (if keep_resources then pure tt else cleanup w.cleanup_answer)

-- The statements of `run` from the `try` on.
unfoldable pub session : (keep_resources : Bool) (duration : ℕ) → World → Run Unit
session keep_resources duration w =
    try_finally (prepare w >> evaluate duration w)
      (finalise keep_resources (has_scoring (prepare w).ending) w)

-- `connect` stands before the `try`.
unfoldable pub run : (keep_resources : Bool) (duration : ℕ) → World → Run Unit
run keep_resources duration w = demand w.connect_answer >> session keep_resources duration w
