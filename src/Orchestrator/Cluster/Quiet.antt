-- ===== src/Orchestrator/Cluster/Quiet.antt =====
-- The effects that the calls of the cluster do not have, and when their loops end.
use trade_plat.Common.{
  ℕ, ◌+◌, ◌*◌, ◌≡◌, refl, inl, inr, List, [], ◌∷◌, Option, none, some, Bool, true, false,
  Bool-cases, ◌==◌, ltb, All,
}
use trade_plat.Orchestrator.Effects.{
  Effect, create_namespace, create_network_policy, build_image, delete_pod, read_pod, create_pod,
  read_phase, read_log, sleep_second, Raised, api_exception, called_process_error, timeout_error,
  os_error, runtime_error, other_error, Run, pure, emit, ◌>>◌,
}
use trade_plat.Orchestrator.Trace.{Silent, Silent->>, Ended}
use trade_plat.Orchestrator.Cluster.{
  has_status, reread, tolerate, ensure_namespace, ensure_network_policy, demand, build,
  await_deletion, delete_old_sandbox_pod, spawn_contestant_sandbox_pod, Turn, Answer, phase,
  refused, succeeded, failed, unfinished, print_log, inspect, poll_agent, wait_for_agent_completion,
}

-- `p` picks out no call of the cluster.
abbrev pub Outside : (Effect → Bool) → Type 0
Outside p =
    All (λ e. p e ≡ false)
      (create_namespace ∷ create_network_policy ∷ build_image ∷ delete_pod ∷ read_pod ∷ read_phase
        ∷ read_log ∷ sleep_second ∷ [])

pub tolerate-effects : (n : ℕ) (o : Option Raised) → (tolerate n o).effects ≡ []
unfolding tolerate
tolerate-effects n none = refl
tolerate-effects n (some x) = elim (Bool-cases (has_status n x)) [
  | inl h ↦ rw (h, tolerate) refl
  | inr h ↦ rw (h, tolerate) refl
]

pub tolerate-Ended : (n : ℕ) (o : Option Raised) → Ended (tolerate n o)
unfolding tolerate
tolerate-Ended n none = refl
tolerate-Ended n (some x) = elim (Bool-cases (has_status n x)) [
  | inl h ↦ rw (h, tolerate) refl
  | inr h ↦ rw (h, tolerate) refl
]

tolerate-Silent : (p : Effect → Bool) (n : ℕ) (o : Option Raised) → Silent p (tolerate n o)
tolerate-Silent p n o = rw (tolerate-effects n o) tt

demand-Silent : (p : Effect → Bool) (o : Option Raised) → Silent p (demand o)
unfolding demand
demand-Silent p none = tt
demand-Silent p (some x) = tt

pub demand-Ended : (o : Option Raised) → Ended (demand o)
unfolding demand
demand-Ended none = refl
demand-Ended (some x) = refl

emit-Silent : (p : Effect → Bool) (e : Effect) → p e ≡ false → Silent p (emit e)
emit-Silent p e h = (h, tt)

pub ensure_namespace-Silent :
    (p : Effect → Bool)
    → p create_namespace ≡ false
    → (o : Option Raised) → Silent p (ensure_namespace o)
unfolding ensure_namespace
ensure_namespace-Silent p h o =
    Silent->> p (emit create_namespace) (tolerate 409 o) (h, tt) (tolerate-Silent p 409 o)

pub ensure_network_policy-Silent :
    (p : Effect → Bool)
    → p create_network_policy ≡ false
    → (o : Option Raised) → Silent p (ensure_network_policy o)
unfolding ensure_network_policy
ensure_network_policy-Silent p h o =
    Silent->> p (emit create_network_policy) (tolerate 409 o) (h, tt) (tolerate-Silent p 409 o)

pub build-Silent :
    (p : Effect → Bool) → p build_image ≡ false → (o : Option Raised) → Silent p (build o)
unfolding build
build-Silent p h o = Silent->> p (emit build_image) (demand o) (h, tt) (demand-Silent p o)

reread-Silent :
    (p : Effect → Bool) (x : Raised) (rest : Run Unit) → Silent p rest → Silent p (reread x rest)
unfolding reread
reread-Silent p (api_exception status) rest h = elim (Bool-cases (status == 404)) [
  | inl e ↦ rw (e, reread) tt
  | inr e ↦ rw (e, reread) h
]
reread-Silent p called_process_error rest h = tt
reread-Silent p timeout_error rest h = tt
reread-Silent p os_error rest h = tt
reread-Silent p runtime_error rest h = tt
reread-Silent p other_error rest h = tt

await_deletion-Silent :
    (p : Effect → Bool)
    → p read_pod ≡ false
    → p sleep_second ≡ false
    → (os : List (Option Raised)) → Silent p (await_deletion os)
unfolding await_deletion
await_deletion-Silent p h g [] = tt
await_deletion-Silent p h g (none ∷ os) = (h, (g, await_deletion-Silent p h g os))
await_deletion-Silent p h g (some x ∷ os) =
    (h, reread-Silent p x (await_deletion os) (await_deletion-Silent p h g os))

pub delete_old_sandbox_pod-Silent :
    (p : Effect → Bool)
    → Outside p
    → (waits : Bool) (o : Option Raised) (os : List (Option Raised))
    → Silent p (delete_old_sandbox_pod waits o os)
unfolding delete_old_sandbox_pod
delete_old_sandbox_pod-Silent p (a, (b, (c, (d, (e, (f, (g, (h, _)))))))) true o os =
    Silent->> p (emit delete_pod) (tolerate 404 o >> await_deletion os) (d, tt)
      (Silent->> p (tolerate 404 o) (await_deletion os) (tolerate-Silent p 404 o)
        (await_deletion-Silent p e h os))
delete_old_sandbox_pod-Silent p (a, (b, (c, (d, (e, (f, (g, (h, _)))))))) false o os =
    Silent->> p (emit delete_pod) (tolerate 404 o >> pure tt) (d, tt)
      (Silent->> p (tolerate 404 o) (pure tt) (tolerate-Silent p 404 o) tt)

pub spawn-Silent :
    (p : Effect → Bool)
    → Outside p
    → p create_pod ≡ false
    → (o : Option Raised) (os : List (Option Raised)) (created : Option Raised)
    → Silent p (spawn_contestant_sandbox_pod o os created)
unfolding spawn_contestant_sandbox_pod
spawn-Silent p out c o os created =
    Silent->> p (delete_old_sandbox_pod true o os) (emit create_pod >> demand created)
      (delete_old_sandbox_pod-Silent p out true o os)
      (Silent->> p (emit create_pod) (demand created) (c, tt) (demand-Silent p created))

print_log-Silent :
    (p : Effect → Bool) → p read_log ≡ false → (log : Option Raised) → Silent p (print_log log)
unfolding print_log
print_log-Silent p h none = (h, tt)
print_log-Silent p h (some (api_exception status)) = (h, tt)
print_log-Silent p h (some called_process_error) = (h, tt)
print_log-Silent p h (some timeout_error) = (h, tt)
print_log-Silent p h (some os_error) = (h, tt)
print_log-Silent p h (some runtime_error) = (h, tt)
print_log-Silent p h (some other_error) = (h, tt)

inspect-Silent :
    (p : Effect → Bool)
    → Outside p
    → (log : Option Raised) (a : Answer) (rest : Run Unit) → Silent p rest
    → Silent p (inspect log a rest)
unfolding inspect
inspect-Silent p (a, (b, (c, (d, (e, (f, (g, (h, _)))))))) log (refused x) rest r = (f, tt)
inspect-Silent p (a, (b, (c, (d, (e, (f, (g, (h, _)))))))) log (phase succeeded) rest r =
    (f, print_log-Silent p g log)
inspect-Silent p (a, (b, (c, (d, (e, (f, (g, (h, _)))))))) log (phase failed) rest r =
    (f, print_log-Silent p g log)
inspect-Silent p (a, (b, (c, (d, (e, (f, (g, (h, _)))))))) log (phase unfinished) rest r =
    (f, (h, r))

poll_agent-Silent :
    (p : Effect → Bool)
    → Outside p
    → (deadline : ℕ) (log : Option Raised) (ts : List Turn) → Silent p (poll_agent deadline log ts)
unfolding poll_agent
poll_agent-Silent p out deadline log [] = tt
poll_agent-Silent p out deadline log (t ∷ ts) = elim (Bool-cases (ltb t.now deadline)) [
  | inl e ↦
      rw (e, poll_agent)
        (inspect-Silent p out log t.answer _ (poll_agent-Silent p out deadline log ts))
  | inr e ↦ rw (e, poll_agent) (out.1.1.1.1.1.1.0, tt)
]

pub wait_for_agent_completion-Silent :
    (p : Effect → Bool)
    → Outside p
    → (start timeout : ℕ) (log : Option Raised) (ts : List Turn)
    → Silent p (wait_for_agent_completion start timeout log ts)
unfolding wait_for_agent_completion
wait_for_agent_completion-Silent p out start timeout log ts =
    poll_agent-Silent p out (start + timeout * 1_000_000_000) log ts
