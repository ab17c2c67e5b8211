-- ===== src/Bench/Stack/Ready.antt =====
-- When the stack counts as ready, and how the wait for it ends.
use mathlib.Core.Bool.{false≢true}
use trade_plat.Common.{
  ℕ, ◌+◌, ◌*◌, ◌≤◌, ◌<◌, ◌≡◌, refl, sym, ap, subst, ◌∙◌, inl, inr, List, [], ◌∷◌, ◌++◌, Option,
  none, some, Bool, true, false, not, ◌&&◌, ltb, if◌then◌else◌, arith, Bool-cases, Option-cases,
  All, Reveals, Reveals-and,
}
use mathlib.Core.Option.{some-injective}
use trade_plat.Common.Text.{Name, codes, same, starts_with, occurs_in}
use trade_plat.Bench.Stack.{
  States, status_of, stack_services, healthchecked, service_ok, all_ready, Look, look_until,
  wait_until_ready,
}

-- The service is up; and it is up and reports its health.
abbrev pub Running : Name → States → Type 0
Running service states =
    (status : Name) × (status_of service states ≡ some status)
    × (starts_with (codes "Up") status ≡ true)

abbrev pub Healthy : Name → States → Type 0
Healthy service states =
    (status : Name) × (status_of service states ≡ some status)
    × ((starts_with (codes "Up") status ≡ true) × (occurs_in (codes "healthy") status ≡ true))

-- The services of the stack, those with a health check healthy.
pub record IsReady (states : States) : Type 0 where
  pub zookeeper : Healthy (codes "zookeeper") states
  pub kafka : Healthy (codes "kafka") states
  pub redis : Healthy (codes "redis") states
  pub matching_engine : Running (codes "matching-engine") states
  pub scoring_engine : Running (codes "scoring-engine") states

abbrev Fits : (checked up healthy : Bool) → Type 0
Fits true up healthy = (up ≡ true) × (healthy ≡ true)
Fits false up healthy = up ≡ true

tested :
    (checked up healthy : Bool)
    → Reveals
        (if not up then false else (if checked && not healthy then false else true))
        (Fits checked up healthy)
tested true true true = (refl, refl)
tested true true false = λ h. elim (false≢true h.1) [ ]
tested true false healthy = λ h. elim (false≢true h.0) [ ]
tested false true healthy = refl
tested false false healthy = λ h. elim (false≢true h) [ ]

abbrev Serves : Bool → Name → States → Type 0
Serves checked service states =
    (status : Name) × (status_of service states ≡ some status)
    × Fits checked (starts_with (codes "Up") status) (occurs_in (codes "healthy") status)

all_ready-missing :
    (service : Name) (services : List Name) (states : States)
    → status_of service states ≡ none
    → all_ready (service ∷ services) states ≡ false
unfolding all_ready
all_ready-missing service services states h = rw (h, all_ready) refl

all_ready-found :
    (service : Name) (services : List Name) (states : States) (status : Name)
    → status_of service states ≡ some status
    → all_ready (service ∷ services) states
      ≡ (service_ok service status && all_ready services states)
unfolding all_ready
all_ready-found service services states status h = rw (h, all_ready) refl

all_ready-cons :
    (service : Name) (services : List Name) (states : States) (Q : Type 0)
    → Reveals (all_ready services states) Q
    → Reveals
        (all_ready (service ∷ services) states)
        (Serves (healthchecked service) service states × Q)
unfolding service_ok
all_ready-cons service services states Q q =
    let R = Serves (healthchecked service) service states in
    elim (Option-cases (status_of service states)) [
      | inl missing ↦
          subst (λ b. Reveals b (R × Q)) (sym (all_ready-missing service services states missing))
            (λ h. never h.0.0 (sym missing ∙ h.0.1))
      | inr (status, found) ↦
          subst (λ b. Reveals b (R × Q))
            (sym (all_ready-found service services states status found))
            (Reveals-and (service_ok service status) (all_ready services states) R Q
              (served status found) q)
    ]
  where
    never : (s : Name) → none ≡ some s → ⊥
    never s e = ground arith

    served :
        (status : Name)
        → status_of service states ≡ some status
        → Reveals (service_ok service status) (Serves (healthchecked service) service states)
    served status found = by_test (service_ok service status) (
        tested (healthchecked service) (starts_with (codes "Up") status)
          (occurs_in (codes "healthy") status))
      where
        by_test :
            (b : Bool)
            → Reveals b (
                Fits
                  (healthchecked service)
                  (starts_with (codes "Up") status)
                  (occurs_in (codes "healthy") status))
            → Reveals b (Serves (healthchecked service) service states)
        by_test true h = (status, found, h)
        by_test false h = λ (s, other, g). h (rw (← some-injective s status (sym other ∙ found)) g)

all_ready-nil : (states : States) → Reveals (all_ready [] states) (Unit {0})
unfolding all_ready
all_ready-nil states = tt

all_ready-IsReady : (states : States) → Reveals (all_ready stack_services states) (IsReady states)
unfolding healthchecked same
all_ready-IsReady states = by_test (all_ready stack_services states) (
    all_ready-cons (codes "zookeeper") _ states _ (
      all_ready-cons (codes "kafka") _ states _ (
        all_ready-cons (codes "redis") _ states _ (
          all_ready-cons (codes "matching-engine") _ states _
            (all_ready-cons (codes "scoring-engine") [] states Unit (all_ready-nil states))))))
  where
    by_test :
        (b : Bool)
        → Reveals b (
            Healthy (codes "zookeeper") states
            × (Healthy (codes "kafka") states
                × (Healthy (codes "redis") states
                    × (Running (codes "matching-engine") states
                        × (Running (codes "scoring-engine") states × Unit {0})))))
        → Reveals b (IsReady states)
    by_test true (z, (k, (r, (m, (s, _))))) = record {
      zookeeper = z;
      kafka = k;
      redis = r;
      matching_engine = m;
      scoring_engine = s;
    }
    by_test false h =
        λ g. h (g.zookeeper, (g.kafka, (g.redis, (g.matching_engine, (g.scoring_engine, tt)))))

-- A turn in time that does not find the stack ready.
abbrev pub Waiting : (deadline : ℕ) → Look → Type 0
Waiting deadline l = (l.now < deadline) × (IsReady l.states → ⊥)

-- The first turn that does not wait is `l`.
abbrev pub FirstDone : (deadline : ℕ) → (Look → Type 0) → List Look → Type 0
FirstDone deadline P ls =
    (before : List Look) × (l : Look) × (after : List Look) × (ls ≡ before ++ l ∷ after)
    × All (Waiting deadline) before
    × P l

-- What an answer says of the turns.
abbrev pub Told : (deadline : ℕ) → List Look → Option Bool → Type 0
Told deadline ls none = All (Waiting deadline) ls
Told deadline ls (some true) = FirstDone deadline (λ l. (l.now < deadline) × IsReady l.states) ls
Told deadline ls (some false) = FirstDone deadline (λ l. deadline ≤ l.now) ls

later-FirstDone :
    (deadline : ℕ) (P : Look → Type 0) (l : Look) (ls : List Look)
    → Waiting deadline l
    → FirstDone deadline P ls
    → FirstDone deadline P (l ∷ ls)
later-FirstDone deadline P l ls w (before, m, after, split, waited, h) =
    (l ∷ before, m, after, ap (λ xs. l ∷ xs) split, (w, waited), h)

later-Told :
    (deadline : ℕ) (l : Look) (ls : List Look) (o : Option Bool)
    → Waiting deadline l
    → Told deadline ls o
    → Told deadline (l ∷ ls) o
later-Told deadline l ls none w h = (w, h)
later-Told deadline l ls (some true) w h = later-FirstDone deadline _ l ls w h
later-Told deadline l ls (some false) w h = later-FirstDone deadline _ l ls w h

look_until-Told : (deadline : ℕ) (ls : List Look) → Told deadline ls (look_until deadline ls)
unfolding look_until
look_until-Told deadline [] = tt
look_until-Told deadline (l ∷ ls) = elim (Bool-cases (ltb l.now deadline)) [
  | inr late ↦
      let passed : deadline ≤ l.now = ground arith in
      rw (late, look_until) ([], l, ls, refl, tt, passed)
  | inl early ↦
      let in_time : l.now < deadline = ground arith in
      let reveals = all_ready-IsReady l.states in
      elim (Bool-cases (all_ready stack_services l.states)) [
        | inl fit ↦
            let ready = rw fit at reveals in
            rw (early, fit, look_until) ([], l, ls, refl, tt, (in_time, ready))
        | inr unfit ↦
            let unready = rw unfit at reveals in
            rw (early, unfit, look_until)
              (later-Told deadline l ls (look_until deadline ls) (in_time, unready)
                (look_until-Told deadline ls))
      ]
]

-- The wait for the stack returns True at the first turn before the deadline at which each of the
-- five services has a status that begins with Up, those of ZooKeeper, Kafka and Redis with
-- `healthy` in it. It returns False at the first turn at or past it if none was so, and goes
-- on while neither has come.
pub wait_until_ready-Told :
    (start timeout : ℕ) (ls : List Look)
    → Told (start + timeout * 1_000_000_000) ls (wait_until_ready start timeout ls)
unfolding wait_until_ready
wait_until_ready-Told start timeout ls = look_until-Told (start + timeout * 1_000_000_000) ls
