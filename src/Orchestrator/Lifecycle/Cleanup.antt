-- ===== src/Orchestrator/Lifecycle/Cleanup.antt =====
-- What a run of the orchestrator leaves behind, and that it comes to its end.
use mathlib.Core.List.{append_assoc}
use trade_plat.Common.{
  ℕ, ◌+◌, ◌≡◌, ◌∙◌, refl, sym, ap, inl, inr, List, [], ◌∷◌, ◌++◌, Option, none, some, Bool, true,
  false, arith, if◌then◌else◌, Bool-cases,
}
use trade_plat.Orchestrator.Effects.{
  Effect, delete_pod, create_pod, Raised, Ending, done, raised, waiting, Run, after, ◌>>◌,
}
use trade_plat.Orchestrator.Trace.{
  count, last, is_start, is_terminate, count-append, last-append, Silent, count-Silent, Silent->>,
  Closes, finish-Closes,
}
use trade_plat.Orchestrator.Cluster.{
  demand, has_status, tolerate, ensure_namespace, ensure_network_policy, build,
  delete_old_sandbox_pod, spawn_contestant_sandbox_pod, cleanup,
}
use trade_plat.Orchestrator.Cluster.Quiet.{
  Outside, ensure_namespace-Silent, ensure_network_policy-Silent, build-Silent, spawn-Silent,
  wait_for_agent_completion-Silent,
}
use trade_plat.Orchestrator.Lifecycle.{
  World, start_scoring_engine, prepare, evaluate, has_scoring, stop_scoring, finalise, session, run,
}

-- A process was started exactly if the statements of `prepare` have ended well.
abbrev Started : Run Unit → Type 0
Started m =
    (count is_start m.effects ≡ (if has_scoring m.ending then 1 else 0))
    × (count is_terminate m.effects ≡ 0)

after-Started :
    (es : List Effect) (o : Ending Unit) (k : Run Unit)
    → count is_start es ≡ 0
    → count is_terminate es ≡ 0
    → Started k
    → Started (after es o (λ _. k))
unfolding has_scoring
after-Started es (done x) k a b (h, g) = (
  rw (count-append is_start es k.effects) (omega (arith, a, h)),
  rw (count-append is_terminate es k.effects) (omega (arith, b, g)),
)
after-Started es (raised x) k a b h = (a, b)
after-Started es waiting k a b h = (a, b)

Started->> :
    (m k : Run Unit) → Silent is_start m → Silent is_terminate m → Started k → Started (m >> k)
Started->> m k a b h =
    after-Started m.effects m.ending k (count-Silent is_start m.effects a)
      (count-Silent is_terminate m.effects b) h

start_scoring_engine-Started : (o : Option Raised) → Started (start_scoring_engine o)
unfolding start_scoring_engine has_scoring
start_scoring_engine-Started none = (refl, refl)
start_scoring_engine-Started (some x) = (refl, refl)

prepare-Started : (w : World) → Started (prepare w)
unfolding prepare
prepare-Started w =
    Started->> (ensure_namespace w.namespace_answer) _
      (ensure_namespace-Silent is_start refl w.namespace_answer)
      (ensure_namespace-Silent is_terminate refl w.namespace_answer)
      (Started->> (ensure_network_policy w.policy_answer) _
        (ensure_network_policy-Silent is_start refl w.policy_answer)
        (ensure_network_policy-Silent is_terminate refl w.policy_answer)
        (Started->> (build w.build_answer) _ (build-Silent is_start refl w.build_answer)
          (build-Silent is_terminate refl w.build_answer)
          (start_scoring_engine-Started w.popen_answer)))

evaluate-Silent :
    (p : Effect → Bool)
    → Outside p
    → p create_pod ≡ false
    → (duration : ℕ) (w : World) → Silent p (evaluate duration w)
unfolding evaluate
evaluate-Silent p out c duration w =
    Silent->> p (spawn_contestant_sandbox_pod w.old_pod_answer w.old_pod_reads w.create_answer) _
      (spawn-Silent p out c w.old_pod_answer w.old_pod_reads w.create_answer)
      (wait_for_agent_completion-Silent p out w.clock (duration + 30) w.log_answer w.turns)

stop_scoring-count :
    (scoring exits : Bool)
    → (count is_start (stop_scoring scoring exits).effects ≡ 0)
      × (count is_terminate (stop_scoring scoring exits).effects ≡ (if scoring then 1 else 0))
unfolding stop_scoring
stop_scoring-count false exits = (refl, refl)
stop_scoring-count true true = (refl, refl)
stop_scoring-count true false = (refl, refl)

stop_scoring-ending : (scoring exits : Bool) → (stop_scoring scoring exits).ending ≡ done tt
unfolding stop_scoring
stop_scoring-ending false exits = refl
stop_scoring-ending true true = refl
stop_scoring-ending true false = refl

cleanup-effects : (o : Option Raised) → (cleanup o).effects ≡ delete_pod ∷ []
unfolding cleanup delete_old_sandbox_pod tolerate
cleanup-effects none = refl
cleanup-effects (some x) = elim (Bool-cases (has_status 404 x)) [
  | inl h ↦ rw (h, tolerate) refl
  | inr h ↦ rw (h, tolerate) refl
]

finalise-effects :
    (keep_resources scoring : Bool) (w : World)
    → (finalise keep_resources scoring w).effects
      ≡ (stop_scoring scoring w.exits).effects ++ (if keep_resources then [] else delete_pod ∷ [])
unfolding finalise
finalise-effects true scoring w = rw (stop_scoring-ending scoring w.exits) refl
finalise-effects false scoring w =
    rw (stop_scoring-ending scoring w.exits, cleanup-effects w.cleanup_answer) refl

after-count :
    (p : Effect → Bool) (es : List Effect) (o : Ending Unit) (k : Run Unit)
    → Silent p k
    → count p (after es o (λ _. k)).effects ≡ count p es
after-count p es (done x) k h =
    rw (count-append p es k.effects, count-Silent p k.effects h) (omega arith)
after-count p es (raised x) k h = refl
after-count p es waiting k h = refl

body-Started :
    (duration : ℕ) (w : World)
    → (count is_start (prepare w >> evaluate duration w).effects
        ≡ (if has_scoring (prepare w).ending then 1 else 0))
      × (count is_terminate (prepare w >> evaluate duration w).effects ≡ 0)
body-Started duration w =
    let (a, b) = prepare-Started w in
    let outside : Outside is_start =
      (refl, (refl, (refl, (refl, (refl, (refl, (refl, (refl, tt)))))))) in
    let outside' : Outside is_terminate =
      (refl, (refl, (refl, (refl, (refl, (refl, (refl, (refl, tt)))))))) in
    (
      after-count is_start (prepare w).effects (prepare w).ending (evaluate duration w)
            (evaluate-Silent is_start outside refl duration w)
          ∙ a,
      after-count is_terminate (prepare w).effects (prepare w).ending (evaluate duration w)
            (evaluate-Silent is_terminate outside' refl duration w)
          ∙ b,
    )

-- As many processes were stopped as started, and without `keep_resources` the last call deletes
-- the pod.
abbrev pub Tidy : (keep_resources : Bool) → List Effect → Type 0
Tidy true es = count is_terminate es ≡ count is_start es
Tidy false es = (count is_terminate es ≡ count is_start es) × (last es ≡ some delete_pod)

tidy :
    (keep_resources : Bool) (es stop : List Effect)
    → ((fs : List Effect)
        → count is_start fs ≡ 0
        → count is_terminate fs ≡ 0
        → count is_terminate (es ++ (stop ++ fs)) ≡ count is_start (es ++ (stop ++ fs)))
    → Tidy keep_resources (es ++ (stop ++ (if keep_resources then [] else delete_pod ∷ [])))
tidy true es stop h = h [] refl refl
tidy false es stop h = (
  h (delete_pod ∷ []) refl refl,
  ap last (sym (append_assoc es stop (delete_pod ∷ []))) ∙ last-append (es ++ stop) delete_pod,
)

closing-Tidy :
    (keep_resources scoring exits : Bool) (es : List Effect)
    → count is_start es ≡ (if scoring then 1 else 0)
    → count is_terminate es ≡ 0
    → Tidy keep_resources (
        es
        ++ ((stop_scoring scoring exits).effects
            ++ (if keep_resources then [] else delete_pod ∷ [])))
closing-Tidy keep_resources scoring exits es a b =
    let (c, d) = stop_scoring-count scoring exits in
    let stop = (stop_scoring scoring exits).effects in
    let starts : (fs : List Effect)
        → count is_start fs ≡ 0
        → count is_start (es ++ (stop ++ fs)) ≡ (if scoring then 1 else 0) =
      λ fs h.
        rw (count-append is_start es (stop ++ fs), count-append is_start stop fs)
          (omega (arith, a, c, h)) in
    let ends : (fs : List Effect)
        → count is_terminate fs ≡ 0
        → count is_terminate (es ++ (stop ++ fs)) ≡ (if scoring then 1 else 0) =
      λ fs h.
        rw (count-append is_terminate es (stop ++ fs), count-append is_terminate stop fs)
          (omega (arith, b, d, h)) in
    tidy keep_resources es stop (λ fs h g. ends fs g ∙ sym (starts fs h))

session-Tidy :
    (keep_resources : Bool) (duration : ℕ) (w : World)
    → Closes
        (Tidy keep_resources)
        (session keep_resources duration w).effects
        (session keep_resources duration w).ending
unfolding session
session-Tidy keep_resources duration w =
    let (a, b) = body-Started duration w in
    let scoring = has_scoring (prepare w).ending in
    let last_run = finalise keep_resources scoring w in
    finish-Closes (Tidy keep_resources) (prepare w >> evaluate duration w).effects last_run.effects
      (prepare w >> evaluate duration w).ending last_run.ending
      (rw (finalise-effects keep_resources scoring w) (
        closing-Tidy keep_resources scoring w.exits (prepare w >> evaluate duration w).effects a b))

-- What is left behind, by how `connect` has ended.
abbrev pub Left : Option Raised → (keep_resources : Bool) → List Effect → Type 0
Left none keep_resources es = Tidy keep_resources es
Left (some x) keep_resources es = es ≡ []

demand-Left :
    (o : Option Raised) (keep_resources : Bool) (m : Run Unit)
    → Closes (Tidy keep_resources) m.effects m.ending
    → Closes (Left o keep_resources) (demand o >> m).effects (demand o >> m).ending
unfolding demand
demand-Left none keep_resources m h = h
demand-Left (some x) keep_resources m h = refl

-- A run whose `connect` raises has made no other call. Any other run that is over, with a value or
-- an exception of one of the calls behind `connect`, has stopped the scoring process exactly if it
-- has started one; without `keep_resources` its last call deletes the pod.
pub run-Tidy :
    (keep_resources : Bool) (duration : ℕ) (w : World)
    → Closes
        (Left w.connect_answer keep_resources)
        (run keep_resources duration w).effects
        (run keep_resources duration w).ending
unfolding run
run-Tidy keep_resources duration w =
    demand-Left w.connect_answer keep_resources (session keep_resources duration w)
      (session-Tidy keep_resources duration w)
