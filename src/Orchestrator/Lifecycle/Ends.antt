-- ===== src/Orchestrator/Lifecycle/Ends.antt =====
-- When a run of the orchestrator comes to its end.
use trade_plat.Common.{ℕ, ◌+◌, ◌*◌, refl, Option, none, some, Bool, true, false}
use trade_plat.Orchestrator.Effects.{Raised, pure, ◌>>◌}
use trade_plat.Orchestrator.Trace.{Ended, Ended->>, finish-Ended}
use trade_plat.Orchestrator.Cluster.{
  demand, tolerate, ensure_namespace, ensure_network_policy, build, spawn_contestant_sandbox_pod,
  wait_for_agent_completion, cleanup, delete_old_sandbox_pod,
}
use trade_plat.Orchestrator.Cluster.Quiet.{tolerate-Ended, demand-Ended}
use trade_plat.Orchestrator.Cluster.Deadline.{Late, Gone, spawn-Ended, poll_agent-Ended}
use trade_plat.Orchestrator.Lifecycle.{
  World, start_scoring_engine, prepare, evaluate, has_scoring, stop_scoring, finalise, session, run,
}

start-Ended : (o : Option Raised) → Ended (start_scoring_engine o)
unfolding start_scoring_engine
start-Ended none = refl
start-Ended (some x) = refl

evaluate-Ended :
    (duration : ℕ) (w : World)
    → Gone w.old_pod_reads
    → Late (w.clock + (duration + 30) * 1_000_000_000) w.turns
    → Ended (evaluate duration w)
unfolding evaluate wait_for_agent_completion
evaluate-Ended duration w gone late =
    Ended->> (spawn_contestant_sandbox_pod w.old_pod_answer w.old_pod_reads w.create_answer) _
      (spawn-Ended w.old_pod_answer w.old_pod_reads w.create_answer gone)
      (poll_agent-Ended (w.clock + (duration + 30) * 1_000_000_000) w.log_answer w.turns late)

stop_scoring-Ended : (scoring exits : Bool) → Ended (stop_scoring scoring exits)
unfolding stop_scoring
stop_scoring-Ended false exits = refl
stop_scoring-Ended true true = refl
stop_scoring-Ended true false = refl

cleanup-Ended : (o : Option Raised) → Ended (cleanup o)
unfolding cleanup delete_old_sandbox_pod
cleanup-Ended o = Ended->> (tolerate 404 o) (pure tt) (tolerate-Ended 404 o) refl

finalise-Ended :
    (keep_resources scoring : Bool) (w : World) → Ended (finalise keep_resources scoring w)
unfolding finalise
finalise-Ended true scoring w =
    Ended->> (stop_scoring scoring w.exits) (pure tt) (stop_scoring-Ended scoring w.exits) refl
finalise-Ended false scoring w =
    Ended->> (stop_scoring scoring w.exits) (cleanup w.cleanup_answer)
      (stop_scoring-Ended scoring w.exits) (cleanup-Ended w.cleanup_answer)

prepare-Ended : (w : World) → Ended (prepare w)
unfolding prepare ensure_namespace ensure_network_policy build
prepare-Ended w =
    Ended->> (ensure_namespace w.namespace_answer) _ (tolerate-Ended 409 w.namespace_answer) (
      Ended->> (ensure_network_policy w.policy_answer) _ (tolerate-Ended 409 w.policy_answer) (
        Ended->> (build w.build_answer) (start_scoring_engine w.popen_answer)
          (demand-Ended w.build_answer) (start-Ended w.popen_answer)))

session-Ended :
    (keep_resources : Bool) (duration : ℕ) (w : World)
    → Gone w.old_pod_reads
    → Late (w.clock + (duration + 30) * 1_000_000_000) w.turns
    → Ended (session keep_resources duration w)
unfolding session
session-Ended keep_resources duration w gone late =
    let body = prepare w >> evaluate duration w in
    let last_run = finalise keep_resources (has_scoring (prepare w).ending) w in
    finish-Ended body.effects body.ending last_run.effects last_run.ending
      (Ended->> (prepare w) (evaluate duration w) (prepare-Ended w)
        (evaluate-Ended duration w gone late))
      (finalise-Ended keep_resources (has_scoring (prepare w).ending) w)

-- A run returns or raises, once the reads of the old pod come to a 404 and the clock of a turn
-- of the wait passes the deadline of the duration and 30 seconds.
pub run-Ended :
    (keep_resources : Bool) (duration : ℕ) (w : World)
    → Gone w.old_pod_reads
    → Late (w.clock + (duration + 30) * 1_000_000_000) w.turns
    → Ended (run keep_resources duration w)
unfolding run
run-Ended keep_resources duration w gone late =
    Ended->> (demand w.connect_answer) (session keep_resources duration w)
      (demand-Ended w.connect_answer) (session-Ended keep_resources duration w gone late)
