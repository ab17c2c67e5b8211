-- ===== src/Scoring/Worker.antt =====
-- telemetry/scoring_engine.py: `publish_metrics`, `disqualify` and the loop of `main`.
-- What Redis and the standard output receive is a list of commands. The k-th reading of the
-- monotonic and of the wall clock is `clock k` and `wall k`, and `redis k` is how Redis answers a
-- publication that begins before the k-th reading. A run takes the results of the polls
-- up to the signal that stops the worker.
pub mod Latch
pub mod Batches
use trade_plat.Common.{ℕ, ◌+◌, List, [], ◌∷◌, ◌++◌, none, some, if◌then◌else◌}
use trade_plat.Common.Floats.{Floats}
use trade_plat.Scoring.Event.{TradeEvent, unpack_trade_events}
use trade_plat.Scoring.State.{ContestantState, Violation, violated, init, validate, accept}
use trade_plat.Scoring.Metrics.{Metrics, metrics}

pub data Status : Type 0 where
  disqualified fine : Status

-- The effects, in the order in which they happen. The contestant, the channel and the key of the
-- leaderboard are fixed by the arguments of the process.
pub data Command (F : Type 0) : Type 0 where
  zadd : (score : F) → Command F
  hset : Metrics F → Command F
  publish : Metrics F → (updated_at_ns : ℕ) → Command F
  print : Status → Metrics F → Command F

-- All calls of a publication return, or the call named raises.
pub data Reply : Type 0 where
  all_taken zadd_fails hset_fails publish_fails : Reply

-- What `consumer.poll` returns.
pub data Poll : Type 0 where
  nothing : Poll
  failed : Poll
  payload : List ℕ → Poll

pub data Crash : Type 0 where
  kafka_exception value_error index_error redis_error : Crash

-- `sent` are the commands that were given, with the one that raised.
pub record Worker (F : Type 0) : Type 0 where
  pub state : ContestantState F
  pub last_metrics : F
  pub readings : ℕ
  pub sent : List (Command F)

-- How the loop goes on: with the next poll, not at all after a disqualification, or not at all
-- after an exception.
pub data Outcome (F : Type 0) : Type 0 where
  running : Worker F → Outcome F
  returned : Worker F → Outcome F
  crashed : Crash → Worker F → Outcome F

-- What follows runs only if the loop goes on.
abbrev pub and_then : {F : Type 0} → Outcome F → (Worker F → Outcome F) → Outcome F
and_then (running w) k = k w
and_then (returned w) k = returned w
and_then (crashed c w) k = crashed c w

module _ (fl : Floats) (clock : ℕ → fl.F) (wall : ℕ → ℕ) (redis : ℕ → Reply) (interval : fl.F) where
  open fl use {F, le, sub, minus_one}

  -- `publish_metrics`
  unfoldable pub publish_metrics : Metrics F → Worker F → Outcome F
  publish_metrics m w =
      let given = record w {
        readings = w.readings + 1;
        sent = w.sent ++ zadd m.score ∷ hset m ∷ publish m (wall w.readings) ∷ [];
      } in
      elim (redis w.readings) [
        | all_taken ↦ running given
        | zadd_fails ↦ crashed redis_error (record w { sent = w.sent ++ zadd m.score ∷ [] })
        | hset_fails ↦
            crashed redis_error (record w { sent = w.sent ++ zadd m.score ∷ hset m ∷ [] })
        | publish_fails ↦ crashed redis_error given
      ]

  unfoldable pub print_line : Status → Metrics F → Worker F → Worker F
  print_line status m w = record w { sent = w.sent ++ print status m ∷ [] }

  -- `disqualify`, the line that is printed and the `return`.
  unfoldable pub disqualify : Violation F → Worker F → Outcome F
  disqualify reason w =
      let latched = record w.state { correctness = violated reason } in
      let read = w.readings + 1 in
      elim (metrics fl (clock w.readings) latched) [
        | none ↦ crashed index_error (record w { state = latched; readings = read })
        | some (m, pruned) ↦
            let final = record m { score = minus_one } in
            and_then (publish_metrics final (record w { state = pruned; readings = read }))
              (λ v. returned (print_line disqualified final v))
      ]

  unfoldable pub accept_event : Worker F → TradeEvent F → Worker F
  accept_event w e = record w {
    state = accept fl (clock w.readings) w.state e;
    readings = w.readings + 1;
  }

  -- The `for` over the events of one message.
  unfoldable pub handle_events : Worker F → List (TradeEvent F) → Outcome F
  handle_events w [] = running w
  handle_events w (e ∷ es) = elim (validate fl w.state e) [
    | some reason ↦ disqualify reason w
    | none ↦ handle_events (accept_event w e) es
  ]

  unfoldable pub handle_poll : Worker F → Poll → Outcome F
  handle_poll w nothing = running w
  handle_poll w failed = crashed kafka_exception w
  handle_poll w (payload bytes) = elim (unpack_trade_events fl bytes) [
    | none ↦ crashed value_error w
    | some es ↦ handle_events w es
  ]

  -- `now` is the reading that found the interval over.
  unfoldable pub send_report : F → Worker F → Outcome F
  send_report now w =
      let due = record w { readings = w.readings + 1 } in
      elim (metrics fl (clock w.readings) w.state) [
        | none ↦ crashed index_error due
        | some (m, pruned) ↦
            and_then (publish_metrics m (record due { state = pruned }))
              (λ v. running (record (print_line fine m v) { last_metrics = now }))
      ]

  -- The end of a round: the figures, once the interval is over.
  unfoldable pub report : Worker F → Outcome F
  report w =
      let now = clock w.readings in
      let read = record w { readings = w.readings + 1 } in
      if le interval (sub now w.last_metrics) then send_report now read else running read

  unfoldable pub round : Worker F → Poll → Outcome F
  round w p = and_then (handle_poll w p) report

  -- The `while`, which a signal ends after the last of the polls.
  unfoldable pub run : Worker F → List Poll → Outcome F
  run w [] = running w
  run w (p ∷ ps) = and_then (round w p) (λ w'. run w' ps)

  -- The worker as `main` starts it.
  unfoldable pub start : F → Worker F
  start window = record { state = init window; last_metrics = clock 0; readings = 1; sent = [] }
