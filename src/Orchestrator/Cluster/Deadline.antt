-- ===== src/Orchestrator/Cluster/Deadline.antt =====
-- When the loops of `wait_for_agent_completion` and of the wait for a deleted pod end.
use mathlib.Core.Bool.{false≢true}
use mathlib.Core.Option.{some-injective}
use trade_plat.Common.{
  ℕ, ◌≤◌, ◌≡◌, ◌⊎◌, refl, inl, inr, List, [], ◌∷◌, Option, none, some, true, false, arith,
  Bool-cases, ◌==◌, ltb, All, map, ap, sym, ◌∙◌,
}
use trade_plat.Orchestrator.Effects.{
  read_pod, waiting, create_pod, Raised, api_exception, called_process_error, timeout_error,
  os_error, runtime_error, other_error, Run, emit, ◌>>◌,
}
use trade_plat.Orchestrator.Trace.{Ended, Ended->>}
use trade_plat.Orchestrator.Cluster.{
  tolerate, demand, await_deletion, delete_old_sandbox_pod, reread, spawn_contestant_sandbox_pod,
  Turn, Answer, phase, refused, succeeded, failed, unfinished, print_log, inspect, poll_agent,
}
use trade_plat.Orchestrator.Cluster.Quiet.{tolerate-Ended, demand-Ended}

-- Some turn is late.
abbrev pub Late : (deadline : ℕ) → List Turn → Type 0
Late deadline [] = ⊥
Late deadline (t ∷ ts) = (deadline ≤ t.now) ⊎ Late deadline ts

print_log-Ended : (log : Option Raised) → Ended (print_log log)
unfolding print_log
print_log-Ended none = refl
print_log-Ended (some (api_exception status)) = refl
print_log-Ended (some called_process_error) = refl
print_log-Ended (some timeout_error) = refl
print_log-Ended (some os_error) = refl
print_log-Ended (some runtime_error) = refl
print_log-Ended (some other_error) = refl

inspect-Ended :
    (log : Option Raised) (a : Answer) (rest : Run Unit) → Ended rest → Ended (inspect log a rest)
unfolding inspect
inspect-Ended log (phase unfinished) rest h = h
inspect-Ended log (phase succeeded) rest h = print_log-Ended log
inspect-Ended log (phase failed) rest h = print_log-Ended log
inspect-Ended log (refused x) rest h = refl

pub poll_agent-Ended :
    (deadline : ℕ) (log : Option Raised) (ts : List Turn)
    → Late deadline ts
    → Ended (poll_agent deadline log ts)
unfolding poll_agent
poll_agent-Ended deadline log [] h = elim h [ ]
poll_agent-Ended deadline log (t ∷ ts) (inl late) =
    let test : ltb t.now deadline ≡ false = ground arith in rw (test, poll_agent) refl
poll_agent-Ended deadline log (t ∷ ts) (inr later) = elim (Bool-cases (ltb t.now deadline)) [
  | inl h ↦
      rw (h, poll_agent) (inspect-Ended log t.answer _ (poll_agent-Ended deadline log ts later))
  | inr h ↦ rw (h, poll_agent) refl
]

-- Some read answers 404.
abbrev pub Gone : List (Option Raised) → Type 0
Gone [] = ⊥
Gone (o ∷ os) = (o ≡ some (api_exception 404)) ⊎ Gone os

reread-Ended :
    (x : Raised) (rest : Run Unit) → (x ≡ api_exception 404) ⊎ Ended rest → Ended (reread x rest)
unfolding reread
reread-Ended (api_exception status) rest h = elim (Bool-cases (status == 404)) [
  | inl e ↦ rw (e, reread) refl
  | inr e ↦ elim h [
    | inl gone ↦
        let found : status ≡ 404 = cc in
        let test : (status == 404) ≡ true = ground arith in elim (false≢true (sym e ∙ test)) [ ]
    | inr over ↦ rw (e, reread) over
  ]
]
reread-Ended called_process_error rest h = refl
reread-Ended timeout_error rest h = refl
reread-Ended os_error rest h = refl
reread-Ended runtime_error rest h = refl
reread-Ended other_error rest h = refl

await_deletion-Ended : (os : List (Option Raised)) → Gone os → Ended (await_deletion os)
unfolding await_deletion
await_deletion-Ended [] h = elim h [ ]
await_deletion-Ended (none ∷ os) (inl h) = cc
await_deletion-Ended (none ∷ os) (inr h) = await_deletion-Ended os h
await_deletion-Ended (some x ∷ os) (inl h) =
    reread-Ended x (await_deletion os) (inl (some-injective x (api_exception 404) h))
await_deletion-Ended (some x ∷ os) (inr h) =
    reread-Ended x (await_deletion os) (inr (await_deletion-Ended os h))

pub delete_old_sandbox_pod-Ended :
    (o : Option Raised) (os : List (Option Raised))
    → Gone os
    → Ended (delete_old_sandbox_pod true o os)
unfolding delete_old_sandbox_pod
delete_old_sandbox_pod-Ended o os h =
    Ended->> (tolerate 404 o) (await_deletion os) (tolerate-Ended 404 o) (await_deletion-Ended os h)

pub spawn-Ended :
    (o : Option Raised) (os : List (Option Raised)) (created : Option Raised)
    → Gone os
    → Ended (spawn_contestant_sandbox_pod o os created)
unfolding spawn_contestant_sandbox_pod
spawn-Ended o os created h =
    Ended->> (delete_old_sandbox_pod true o os) (emit create_pod >> demand created)
      (delete_old_sandbox_pod-Ended o os h) (demand-Ended created)

-- While the reads of a deleted pod are refused with other statuses than 404, the wait for its end
-- goes on: it reads once for each refusal, sleeps not at all and raises nothing.
pub await_deletion-refused :
    (statuses : List ℕ)
    → All (λ s. (s == 404) ≡ false) statuses
    → ((await_deletion (map (λ s. some (api_exception s)) statuses)).effects
        ≡ map (λ s. read_pod) statuses)
      × ((await_deletion (map (λ s. some (api_exception s)) statuses)).ending ≡ waiting)
unfolding await_deletion reread
await_deletion-refused [] h = (refl, refl)
await_deletion-refused (s ∷ statuses) (h, hs) =
    let (reads, goes_on) = await_deletion-refused statuses hs in
    rw (h, reread) (ap (λ es. read_pod ∷ es) reads, goes_on)
