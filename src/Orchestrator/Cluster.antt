-- ===== src/Orchestrator/Cluster.antt =====
-- infra/orchestrator.py: the calls of the cluster, with the answers of the environment as arguments.
pub mod Quiet
pub mod Deadline
pub mod Polling
-- An answer to a call is none, or the exception that it raises.
use trade_plat.Common.{
  ℕ, ◌+◌, ◌*◌, List, [], ◌∷◌, Option, none, some, Bool, ◌==◌, ltb, if◌then◌else◌,
}
use trade_plat.Orchestrator.Effects.{
  Effect, create_namespace, create_network_policy, build_image, delete_pod, read_pod, create_pod,
  read_phase, read_log, sleep_second, Raised, api_exception, timeout_error, Ending, Run, pure,
  raise, wait, emit, ◌>>◌,
}

-- An ApiException with the status.
abbrev pub has_status : ℕ → Raised → Bool
has_status n (api_exception status) = status == n
has_status n _ = Bool.false

-- `except ApiException as exc: if exc.status != tolerated: raise`
unfoldable pub tolerate : (tolerated : ℕ) → Option Raised → Run Unit
tolerate tolerated none = pure tt
tolerate tolerated (some x) = if has_status tolerated x then pure tt else raise x

unfoldable pub ensure_namespace : Option Raised → Run Unit
ensure_namespace answer = emit create_namespace >> tolerate 409 answer

unfoldable pub ensure_network_policy : Option Raised → Run Unit
ensure_network_policy answer = emit create_network_policy >> tolerate 409 answer

-- A call that raises what it is answered with.
unfoldable pub demand : Option Raised → Run Unit
demand none = pure tt
demand (some x) = raise x

-- `docker build` of `auto_detect_and_build`, with `check=True`.
unfoldable pub build : Option Raised → Run Unit
build answer = emit build_image >> demand answer

-- The `while True` of `delete_old_sandbox_pod`: a read that finds the pod sleeps, a 404 ends the
-- loop, any other ApiException reads again, and another exception is raised.
unfoldable pub reread : Raised → (rest : Run Unit) → Run Unit
reread (api_exception status) rest = if status == 404 then pure tt else rest
reread x rest = raise x

unfoldable pub await_deletion : List (Option Raised) → Run Unit
unfolding reread
await_deletion [] = wait
await_deletion (none ∷ answers) = emit read_pod >> emit sleep_second >> await_deletion answers
await_deletion (some x ∷ answers) = emit read_pod >> reread x (await_deletion answers)

unfoldable pub delete_old_sandbox_pod :
    (waits : Bool) (answer : Option Raised) (answers : List (Option Raised)) → Run Unit
delete_old_sandbox_pod waits answer answers =
    emit delete_pod >> tolerate 404 answer >> (if waits then await_deletion answers else pure tt)

-- `delete_old_sandbox_pod(wait=True)`, then the pod.
unfoldable pub spawn_contestant_sandbox_pod :
    (deleted : Option Raised) (answers : List (Option Raised)) (created : Option Raised) → Run Unit
spawn_contestant_sandbox_pod deleted answers created =
    delete_old_sandbox_pod Bool.true deleted answers >> emit create_pod >> demand created

-- `pod.status.phase`, and the phases that the loop tells apart.
pub data Phase : Type 0 where
  succeeded failed unfinished : Phase

-- What `read_namespaced_pod_status` answers.
pub data Answer : Type 0 where
  phase : Phase → Answer
  refused : Raised → Answer

-- A turn of the loop: the clock that its test reads, in nanoseconds, and the answer to its call.
pub record Turn : Type 0 where
  pub now : ℕ
  pub answer : Answer

-- The log of a finished pod: an ApiException is passed over, others are not.
unfoldable pub print_log : Option Raised → Run Unit
print_log none = emit read_log
print_log (some (api_exception status)) = emit read_log
print_log (some x) = emit read_log >> raise x

-- The body of the loop, before the loop goes on as `rest`.
unfoldable pub inspect : (log : Option Raised) → Answer → (rest : Run Unit) → Run Unit
inspect log (refused x) rest = emit read_phase >> raise x
inspect log (phase succeeded) rest = emit read_phase >> print_log log
inspect log (phase failed) rest = emit read_phase >> print_log log
inspect log (phase unfinished) rest = emit read_phase >> emit sleep_second >> rest

-- `while time.time() < deadline`, and the TimeoutError behind it.
unfoldable pub poll_agent : (deadline : ℕ) (log : Option Raised) → List Turn → Run Unit
poll_agent deadline log [] = wait
poll_agent deadline log (t ∷ ts) =
    let rest = poll_agent deadline log ts in
    if ltb t.now deadline then inspect log t.answer rest else emit read_log >> raise timeout_error

-- `start` is the clock when the deadline is set, `timeout` is in seconds.
unfoldable pub wait_for_agent_completion :
    (start timeout : ℕ) (log : Option Raised) → List Turn → Run Unit
wait_for_agent_completion start timeout log turns =
    poll_agent (start + timeout * 1_000_000_000) log turns

unfoldable pub cleanup : Option Raised → Run Unit
cleanup answer = delete_old_sandbox_pod Bool.false answer []
