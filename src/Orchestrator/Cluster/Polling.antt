-- ===== src/Orchestrator/Cluster/Polling.antt =====
-- All that `wait_for_agent_completion` does: its calls, its sleeps and its end.
use trade_plat.Common.{
  ℕ, ◌+◌, ◌*◌, ◌≤◌, ◌<◌, ◌≡◌, ◌⊎◌, refl, ap, inl, inr, List, [], ◌∷◌, ◌++◌, Option, none, some,
  arith, Bool-cases, ltb, All,
}
use trade_plat.Orchestrator.Effects.{
  Effect, read_phase, read_log, sleep_second, Raised, api_exception, called_process_error,
  timeout_error, os_error, runtime_error, other_error, Ending, done, raised, waiting, Run, emit,
  ◌>>◌,
}
use trade_plat.Orchestrator.Cluster.{
  Turn, Answer, phase, refused, succeeded, failed, unfinished, print_log, inspect, poll_agent,
  wait_for_agent_completion,
}

-- A turn in time that finds the pod unfinished, and the calls of such turns.
abbrev pub IsUnfinished : (deadline : ℕ) → Turn → Type 0
IsUnfinished deadline t = (t.now < deadline) × (t.answer ≡ phase unfinished)

abbrev pub reads : List Turn → List Effect
reads [] = []
reads (t ∷ ts) = read_phase ∷ sleep_second ∷ reads ts

-- An ApiException of the log is passed over, others are raised.
abbrev pub LogRead : Option Raised → Ending Unit → Type 0
LogRead none o = o ≡ done tt
LogRead (some (api_exception status)) o = o ≡ done tt
LogRead (some x) o = o ≡ raised x

-- The turn that ends the loop is late, is refused, or finds the pod finished.
abbrev pub Stops :
    (deadline : ℕ) (log : Option Raised) → List Turn → List Effect → Ending Unit → Type 0
Stops deadline log [] es o = (es ≡ []) × (o ≡ waiting)
Stops deadline log (t ∷ ts) es o =
    ((deadline ≤ t.now) × (es ≡ read_log ∷ []) × (o ≡ raised timeout_error))
    ⊎ (((t.now < deadline)
          × ((x : Raised) × (t.answer ≡ refused x) × (es ≡ read_phase ∷ []) × (o ≡ raised x)))
        ⊎ ((t.now < deadline)
            × ((t.answer ≡ phase succeeded) ⊎ (t.answer ≡ phase failed))
            × (es ≡ read_phase ∷ read_log ∷ [])
            × LogRead log o))

pub record Polled (deadline : ℕ) (log : Option Raised) (ts : List Turn) (m : Run Unit)
    : Type 0 where
  pub before : List Turn
  pub rest : List Turn
  pub split : ts ≡ before ++ rest
  pub unfinished_before : All (IsUnfinished deadline) before
  pub last_calls : List Effect
  pub calls : m.effects ≡ reads before ++ last_calls
  pub stopped : Stops deadline log rest last_calls m.ending

print_log-LogRead :
    (log : Option Raised)
    → ((print_log log).effects ≡ read_log ∷ []) × LogRead log (print_log log).ending
unfolding print_log
print_log-LogRead none = (refl, refl)
print_log-LogRead (some (api_exception status)) = (refl, refl)
print_log-LogRead (some called_process_error) = (refl, refl)
print_log-LogRead (some timeout_error) = (refl, refl)
print_log-LogRead (some os_error) = (refl, refl)
print_log-LogRead (some runtime_error) = (refl, refl)
print_log-LogRead (some other_error) = (refl, refl)

-- A run that the first turn ends.
at_once :
    (deadline : ℕ) (log : Option Raised) (t : Turn) (ts : List Turn) (m : Run Unit)
    → Stops deadline log (t ∷ ts) m.effects m.ending
    → Polled deadline log (t ∷ ts) m
at_once deadline log t ts m h = record {
  before = [];
  rest = t ∷ ts;
  split = refl;
  unfinished_before = tt;
  last_calls = m.effects;
  calls = refl;
  stopped = h;
}

goes_on :
    (deadline : ℕ) (log : Option Raised) (t : Turn) (ts : List Turn) (m : Run Unit)
    → IsUnfinished deadline t
    → Polled deadline log ts m
    → Polled deadline log (t ∷ ts) (emit read_phase >> emit sleep_second >> m)
goes_on deadline log t ts m h p = record {
  before = t ∷ p.before;
  rest = p.rest;
  split = ap (λ xs. t ∷ xs) p.split;
  unfinished_before = (h, p.unfinished_before);
  last_calls = p.last_calls;
  calls = ap (λ es. read_phase ∷ sleep_second ∷ es) p.calls;
  stopped = p.stopped;
}

inspect-Polled :
    (deadline : ℕ) (log : Option Raised) (t : Turn) (ts : List Turn) (m : Run Unit) (a : Answer)
    → t.now < deadline
    → t.answer ≡ a
    → Polled deadline log ts m
    → Polled deadline log (t ∷ ts) (inspect log a m)
unfolding inspect
inspect-Polled deadline log t ts m (phase unfinished) h e p = goes_on deadline log t ts m (h, e) p
inspect-Polled deadline log t ts m (phase succeeded) h e p =
    let (es, o) = print_log-LogRead log in
    at_once deadline log t ts _ (inr (inr (h, inl e, ap (λ xs. read_phase ∷ xs) es, o)))
inspect-Polled deadline log t ts m (phase failed) h e p =
    let (es, o) = print_log-LogRead log in
    at_once deadline log t ts _ (inr (inr (h, inr e, ap (λ xs. read_phase ∷ xs) es, o)))
inspect-Polled deadline log t ts m (refused x) h e p =
    at_once deadline log t ts _ (inr (inl (h, (x, e, refl, refl))))

poll_agent-Polled :
    (deadline : ℕ) (log : Option Raised) (ts : List Turn)
    → Polled deadline log ts (poll_agent deadline log ts)
unfolding poll_agent
poll_agent-Polled deadline log [] = record {
  before = [];
  rest = [];
  split = refl;
  unfinished_before = tt;
  last_calls = [];
  calls = refl;
  stopped = (refl, refl);
}
poll_agent-Polled deadline log (t ∷ ts) = elim (Bool-cases (ltb t.now deadline)) [
  | inl h ↦
      let in_time : t.now < deadline = ground arith in
      rw (h, poll_agent)
        (inspect-Polled deadline log t ts (poll_agent deadline log ts) t.answer in_time refl
          (poll_agent-Polled deadline log ts))
  | inr h ↦
      let late : deadline ≤ t.now = ground arith in
      rw (h, poll_agent) (at_once deadline log t ts _ (inl (late, refl, refl)))
]

-- The wait for the pod reads its phase and sleeps once in each turn that is in time and finds the
-- pod unfinished, and ends at the first turn that is not so. At or past the deadline it asks for
-- the log and raises TimeoutError; a read that is refused raises that exception; a pod that has
-- succeeded or failed has its log read, and the wait returns, unless reading the log raises
-- another exception than an ApiException, which it passes on.
pub wait_for_agent_completion-Polled :
    (start timeout : ℕ) (log : Option Raised) (ts : List Turn)
    → Polled
        (start + timeout * 1_000_000_000)
        log
        ts
        (wait_for_agent_completion start timeout log ts)
unfolding wait_for_agent_completion
wait_for_agent_completion-Polled start timeout log ts =
    poll_agent-Polled (start + timeout * 1_000_000_000) log ts
