-- ===== src/Orchestrator/Lifecycle/Isolation.antt =====
-- What comes before the sandbox of a contestant.
use trade_plat.Common.{
  ℕ, ap₂, ◌≡◌, refl, inl, inr, ◌⊎◌, List, [], ◌∷◌, ◌++◌, Option, none, some, Bool, true, false,
  arith, Bool-cases, All,
}
use trade_plat.Orchestrator.Effects.{
  Effect, create_namespace, create_network_policy, build_image, start_scoring, Raised, Ending, done,
  raised, waiting, Run, pure, after, ◌>>◌, finish,
}
use trade_plat.Orchestrator.Trace.{
  count, is_create, count-append, Silent, count-Silent, Silent->>, finish-effects,
}
use trade_plat.Orchestrator.Cluster.{
  has_status, tolerate, ensure_namespace, ensure_network_policy, demand, build, cleanup,
}
use trade_plat.Orchestrator.Cluster.Quiet.{delete_old_sandbox_pod-Silent}
use trade_plat.Orchestrator.Lifecycle.{
  World, start_scoring_engine, prepare, evaluate, has_scoring, stop_scoring, finalise, session, run,
}

-- The calls that prepare the sandbox.
abbrev pub preparations : List Effect
preparations = create_namespace ∷ create_network_policy ∷ build_image ∷ start_scoring ∷ []

-- A run that creates the pod has begun with `preparations`, each of them once and in this order.
abbrev pub Jailed : List Effect → Type 0
Jailed es = (count is_create es ≡ 0) ⊎ ((later : List Effect) × (es ≡ preparations ++ later))

-- A run that returns has made exactly `calls`, and otherwise it has created no pod.
abbrev Leads : (calls es : List Effect) → Ending Unit → Type 0
Leads calls es (done x) = es ≡ calls
Leads calls es _ = count is_create es ≡ 0

Leads-append :
    (calls later es fs : List Effect) (q : Ending Unit)
    → count is_create calls ≡ 0
    → es ≡ calls
    → Leads later fs q
    → Leads (calls ++ later) (es ++ fs) q
Leads-append calls later es fs (done x) c h g = ap₂ ◌++◌ h g
Leads-append calls later es fs (raised x) c h g =
    rw (count-append is_create es fs, h) (omega (arith, c, g))
Leads-append calls later es fs waiting c h g =
    rw (count-append is_create es fs, h) (omega (arith, c, g))

after-Leads :
    (calls later es : List Effect) (o : Ending Unit) (k : Run Unit)
    → count is_create calls ≡ 0
    → Leads calls es o
    → Leads later k.effects k.ending
    → Leads (calls ++ later) (after es o (λ _. k)).effects (after es o (λ _. k)).ending
after-Leads calls later es (raised x) k c h g = h
after-Leads calls later es waiting k c h g = h
after-Leads calls later es (done x) k c h g = Leads-append calls later es k.effects k.ending c h g

tolerate-Leads : (n : ℕ) (o : Option Raised) → Leads [] (tolerate n o).effects (tolerate n o).ending
unfolding tolerate
tolerate-Leads n none = refl
tolerate-Leads n (some x) = elim (Bool-cases (has_status n x)) [
  | inl h ↦ rw (h, tolerate) refl
  | inr h ↦ rw (h, tolerate) refl
]

demand-Leads : (o : Option Raised) → Leads [] (demand o).effects (demand o).ending
unfolding demand
demand-Leads none = refl
demand-Leads (some x) = refl

start-Leads :
    (o : Option Raised)
    → Leads (start_scoring ∷ []) (start_scoring_engine o).effects (start_scoring_engine o).ending
unfolding start_scoring_engine
start-Leads none = refl
start-Leads (some x) = refl

namespace-Leads :
    (o : Option Raised)
    → Leads (create_namespace ∷ []) (ensure_namespace o).effects (ensure_namespace o).ending
unfolding ensure_namespace
namespace-Leads o =
    after-Leads (create_namespace ∷ []) [] (create_namespace ∷ []) (done tt) (tolerate 409 o) refl
      refl (tolerate-Leads 409 o)

policy-Leads :
    (o : Option Raised)
    → Leads
        (create_network_policy ∷ [])
        (ensure_network_policy o).effects
        (ensure_network_policy o).ending
unfolding ensure_network_policy
policy-Leads o =
    after-Leads (create_network_policy ∷ []) [] (create_network_policy ∷ []) (done tt)
      (tolerate 409 o) refl refl (tolerate-Leads 409 o)

build-Leads : (o : Option Raised) → Leads (build_image ∷ []) (build o).effects (build o).ending
unfolding build
build-Leads o =
    after-Leads (build_image ∷ []) [] (build_image ∷ []) (done tt) (demand o) refl refl
      (demand-Leads o)

prepare-Leads : (w : World) → Leads preparations (prepare w).effects (prepare w).ending
unfolding prepare
prepare-Leads w =
    let namespace = ensure_namespace w.namespace_answer in
    let policy = ensure_network_policy w.policy_answer in
    let image = build w.build_answer in
    let start = start_scoring_engine w.popen_answer in
    after-Leads (create_namespace ∷ []) (create_network_policy ∷ build_image ∷ start_scoring ∷ [])
      namespace.effects namespace.ending (policy >> image >> start) refl
      (namespace-Leads w.namespace_answer)
      (after-Leads (create_network_policy ∷ []) (build_image ∷ start_scoring ∷ []) policy.effects
        policy.ending (image >> start) refl (policy-Leads w.policy_answer)
        (after-Leads (build_image ∷ []) (start_scoring ∷ []) image.effects image.ending start refl
          (build-Leads w.build_answer) (start-Leads w.popen_answer)))

stop_scoring-Silent : (scoring exits : Bool) → Silent is_create (stop_scoring scoring exits)
unfolding stop_scoring
stop_scoring-Silent false exits = tt
stop_scoring-Silent true true = (refl, (refl, tt))
stop_scoring-Silent true false = (refl, (refl, (refl, tt)))

cleanup-Silent : (o : Option Raised) → Silent is_create (cleanup o)
unfolding cleanup
cleanup-Silent o =
    delete_old_sandbox_pod-Silent is_create
      (refl, (refl, (refl, (refl, (refl, (refl, (refl, (refl, tt)))))))) false o []

finalise-Silent :
    (keep_resources scoring : Bool) (w : World)
    → Silent is_create (finalise keep_resources scoring w)
unfolding finalise
finalise-Silent true scoring w =
    Silent->> is_create (stop_scoring scoring w.exits) (pure tt)
      (stop_scoring-Silent scoring w.exits) tt
finalise-Silent false scoring w =
    Silent->> is_create (stop_scoring scoring w.exits) (cleanup w.cleanup_answer)
      (stop_scoring-Silent scoring w.exits) (cleanup-Silent w.cleanup_answer)

after-Jailed :
    (es : List Effect) (o : Ending Unit) (k : Run Unit)
    → Leads preparations es o
    → Jailed (after es o (λ _. k)).effects
after-Jailed es (done x) k h = inr (k.effects, rw h refl)
after-Jailed es (raised x) k h = inl h
after-Jailed es waiting k h = inl h

append-Jailed :
    (es fs : List Effect) → Jailed es → All (λ e. is_create e ≡ false) fs → Jailed (es ++ fs)
append-Jailed es fs (inl h) g =
    inl (rw (count-append is_create es fs, h, count-Silent is_create fs g) refl)
append-Jailed es fs (inr (later, h)) g = inr (later ++ fs, rw h refl)

finish-Jailed :
    (es : List Effect) (o : Ending Unit) (fs : List Effect) (q : Ending Unit)
    → Jailed es
    → All (λ e. is_create e ≡ false) fs
    → Jailed (finish es o (record { effects = fs; ending = q })).effects
finish-Jailed es o fs q h g = finish-effects Jailed es fs o q h (append-Jailed es fs h g)

session-Jailed :
    (keep_resources : Bool) (duration : ℕ) (w : World)
    → Jailed (session keep_resources duration w).effects
unfolding session
session-Jailed keep_resources duration w =
    let body = prepare w >> evaluate duration w in
    let last_run = finalise keep_resources (has_scoring (prepare w).ending) w in
    finish-Jailed body.effects body.ending last_run.effects last_run.ending
      (after-Jailed (prepare w).effects (prepare w).ending (evaluate duration w) (prepare-Leads w))
      (finalise-Silent keep_resources (has_scoring (prepare w).ending) w)

demand-Jailed :
    (o : Option Raised) (m : Run Unit) → Jailed m.effects → Jailed (demand o >> m).effects
unfolding demand
demand-Jailed none m h = h
demand-Jailed (some x) m h = inl refl

-- Whatever the cluster answers, a run that tries to create the sandbox of a contestant has begun
-- with the namespace, the network policy, the image and the scoring process, in this order.
pub run-Jailed :
    (keep_resources : Bool) (duration : ℕ) (w : World)
    → Jailed (run keep_resources duration w).effects
unfolding run
run-Jailed keep_resources duration w =
    demand-Jailed w.connect_answer (session keep_resources duration w)
      (session-Jailed keep_resources duration w)
