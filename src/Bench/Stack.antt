-- ===== src/Bench/Stack.antt =====
-- bench/run_loadtest.py: `wait_until_ready` and `restart_stack`. The states of the services are
-- pairs of a name and a status.
pub mod Health
pub mod Ready
use trade_plat.Common.{
  ℕ, ◌+◌, ◌*◌, List, [], ◌∷◌, Option, none, some, Bool, true, false, not, ◌&&◌, ◌||◌, ◌==◌, ltb,
  if◌then◌else◌,
}
use trade_plat.Common.Text.{
  Name, codes, same, starts_with, occurs_in, before_first, after_first, strip,
}

abbrev pub States : Type 0
States = List (Name × Name)

-- `states[name] = status`
unfoldable pub set_status : Name → Name → States → States
set_status name status [] = (name, status) ∷ []
set_status name status ((n, s) ∷ states) =
    let rest = set_status name status states in
    if same name n then (n, status) ∷ states else (n, s) ∷ rest

-- The loop of `service_states`, over the lines of `docker compose ps`. The code splits at the
-- first tab.
unfoldable pub service_states : List Name → States → States
service_states [] states = states
service_states (line ∷ lines) states = elim (after_first (codes "\t") line) [
  | none ↦ service_states lines states
  | some status ↦
      service_states lines
        (set_status (strip (before_first (codes "\t") line)) (strip status) states)
]

-- `states[service]`
unfoldable pub status_of : Name → States → Option Name
status_of service [] = none
status_of service ((name, status) ∷ states) =
    let rest = status_of service states in if same service name then some status else rest

-- `STACK_SERVICES`
abbrev pub stack_services : List Name
stack_services =
    codes "zookeeper"
    ∷ codes "kafka"
    ∷ codes "redis"
    ∷ codes "matching-engine"
    ∷ codes "scoring-engine"
    ∷ []

-- `HEALTHCHECKED`
unfoldable pub healthchecked : Name → Bool
healthchecked service =
    same service (codes "zookeeper") || same service (codes "kafka") || same service (codes "redis")

-- What the loop over the services finds of one of them.
unfoldable pub service_ok : (service status : Name) → Bool
service_ok service status =
    if not (starts_with (codes "Up") status)
    then false
    else (if healthchecked service && not (occurs_in (codes "healthy") status) then false else true)

-- Every service is there, and none is found wanting.
unfoldable pub all_ready : List Name → States → Bool
all_ready [] states = true
all_ready (service ∷ services) states = elim (status_of service states) [
  | none ↦ false
  | some status ↦ service_ok service status && all_ready services states
]

-- A turn of the loop: the monotonic clock in nanoseconds that its test reads, and the states.
pub record Look : Type 0 where
  pub now : ℕ
  pub states : States

-- True, False, or a loop that goes on after the last of the turns.
unfoldable pub look_until : (deadline : ℕ) → List Look → Option Bool
look_until deadline [] = none
look_until deadline (l ∷ ls) =
    let rest = look_until deadline ls in
    if ltb l.now deadline
    then (if all_ready stack_services l.states then some true else rest)
    else some false

unfoldable pub wait_until_ready : (start timeout : ℕ) → List Look → Option Bool
wait_until_ready start timeout looks = look_until (start + timeout * 1_000_000_000) looks

-- `returncode` is that of `docker compose up`.
unfoldable pub restart_stack : (returncode start : ℕ) → List Look → Option Bool
restart_stack returncode start looks =
    if not (returncode == 0) then some false else wait_until_ready start 180 looks
