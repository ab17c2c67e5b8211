-- ===== src/Scoring/Worker/Latch.antt =====
-- What a run of the worker publishes, and that a disqualification is the last of it.
use trade_plat.Common.{
  ℕ, ◌≡◌, ◌≢◌, ◌∙◌, ◌⊎◌, refl, inl, inr, List, [], ◌∷◌, ◌++◌, All, All-append, Bool-cases,
  Option-cases,
}
use mathlib.Core.List.{append_assoc}
use trade_plat.Common.Floats.{Floats, Scaling}
use trade_plat.Scoring.Event.{TradeEvent, unpack_trade_events}
use trade_plat.Scoring.State.{Violation, passed, violated, init, validate, accept, prune}
use trade_plat.Scoring.Metrics.{Metrics}
use trade_plat.Scoring.Metrics.Total.{metrics-total}
use trade_plat.Scoring.Worker.{
  Worker, Command, zadd, hset, publish, print, disqualified, fine, Poll, nothing, failed, payload,
  index_error, redis_error, Reply, all_taken, zadd_fails, hset_fails, publish_fails, Outcome,
  running, returned, crashed, and_then, publish_metrics, print_line, disqualify, accept_event,
  handle_events, handle_poll, send_report, report, round, run, start,
}

-- A command of a contestant who has passed so far.
abbrev pub IsClean : {F : Type 0} → Command F → Type 0
IsClean (zadd score) = Unit {0}
IsClean (hset m) = m.correctness ≡ passed
IsClean (publish m t) = m.correctness ≡ passed
IsClean (print status m) = (status ≡ fine) × (m.correctness ≡ passed)

pub record InGoodStanding {F : Type 0} (w : Worker F) : Type 0 where
  pub passing : w.state.correctness ≡ passed
  pub clean : All IsClean w.sent

-- The commands of a disqualification.
abbrev pub sentence : {F : Type 0} → Metrics F → ℕ → List (Command F)
sentence m t = zadd m.score ∷ hset m ∷ publish m t ∷ print disqualified m ∷ []

module _ (fl : Floats) (scaling : Scaling fl) where
  open fl use {F, le, sub, minus_one}

  -- A worker that has published the sentence on a violation, after what was clean.
  pub record Sentenced (w : Worker F) : Type 0 where
    pub before : List (Command F)
    pub figures : Metrics F
    pub time : ℕ
    pub reason : Violation F
    pub latched : w.state.correctness ≡ violated reason
    pub published : figures.correctness ≡ violated reason
    pub bottom : figures.score ≡ minus_one
    pub sent_last : w.sent ≡ before ++ sentence figures time
    pub clean : All IsClean before

  -- A worker whose sentence on a violation was cut short, after what was clean.
  pub record Cut (w : Worker F) : Type 0 where
    pub before : List (Command F)
    pub figures : Metrics F
    pub time : ℕ
    pub reason : Violation F
    pub latched : w.state.correctness ≡ violated reason
    pub published : figures.correctness ≡ violated reason
    pub bottom : figures.score ≡ minus_one
    pub part : List (Command F)
    pub missing : List (Command F)
    pub sent_last : w.sent ≡ before ++ part
    pub cut_short : part ++ missing ++ print disqualified figures ∷ [] ≡ sentence figures time
    pub clean : All IsClean before

  -- How each outcome of a run looks.
  abbrev pub Verdict : Outcome F → Type 0
  Verdict (running w) = InGoodStanding w
  Verdict (returned w) = Sentenced w
  Verdict (crashed c w) = (InGoodStanding w × (c ≢ index_error)) ⊎ (Cut w × (c ≡ redis_error))

  and_then-Verdict :
      (o : Outcome F) (k : Worker F → Outcome F)
      → Verdict o
      → ((w : Worker F) → InGoodStanding w → Verdict (k w))
      → Verdict (and_then o k)
  and_then-Verdict (running w) k v next = next w v
  and_then-Verdict (returned w) k v next = v
  and_then-Verdict (crashed c w) k v next = v

  module _ (clock : ℕ → F) (wall : ℕ → ℕ) (redis : ℕ → Reply) (interval : F) where
    sentence-Verdict :
        (reason : Violation F) (m : Metrics F) (w : Worker F)
        → w.state.correctness ≡ violated reason
        → m.correctness ≡ violated reason
        → m.score ≡ minus_one
        → All IsClean w.sent
        → Verdict (
            and_then
              (publish_metrics fl clock wall redis interval m w)
              (λ v. returned (print_line fl clock wall redis interval disqualified m v)))
    unfolding publish_metrics print_line
    sentence-Verdict reason m w latched published bottom clean = by_reply (redis w.readings) refl
      where
        cut_after :
            (part missing : List (Command F)) (w' : Worker F)
            → w'.state.correctness ≡ violated reason
            → w'.sent ≡ w.sent ++ part
            → part ++ missing ++ print disqualified m ∷ [] ≡ sentence m (wall w.readings)
            → Cut w'
        cut_after part missing w' h g c = record {
          before = w.sent;
          figures = m;
          time = wall w.readings;
          reason = reason;
          latched = h;
          published = published;
          bottom = bottom;
          part = part;
          missing = missing;
          sent_last = g;
          cut_short = c;
          clean = clean;
        }

        by_reply :
            (r : Reply)
            → redis w.readings ≡ r
            → Verdict (
                and_then
                  (publish_metrics fl clock wall redis interval m w)
                  (λ v. returned (print_line fl clock wall redis interval disqualified m v)))
        by_reply all_taken h =
            rw (h, publish_metrics)
              (record {
                before = w.sent;
                figures = m;
                time = wall w.readings;
                reason = reason;
                latched = latched;
                published = published;
                bottom = bottom;
                sent_last = append_assoc w.sent _ _;
                clean = clean;
              })
        by_reply zadd_fails h =
            rw (h, publish_metrics)
              (inr (
                cut_after (zadd m.score ∷ []) (hset m ∷ publish m (wall w.readings) ∷ []) _ latched
                    refl refl,
                refl,
              ))
        by_reply hset_fails h =
            rw (h, publish_metrics)
              (inr (
                cut_after (zadd m.score ∷ hset m ∷ []) (publish m (wall w.readings) ∷ []) _ latched
                    refl refl,
                refl,
              ))
        by_reply publish_fails h =
            rw (h, publish_metrics)
              (inr (
                cut_after (zadd m.score ∷ hset m ∷ publish m (wall w.readings) ∷ []) [] _ latched
                    refl refl,
                refl,
              ))

    disqualify-Verdict :
        (reason : Violation F) (w : Worker F)
        → InGoodStanding w
        → Verdict (disqualify fl clock wall redis interval reason w)
    unfolding disqualify prune
    disqualify-Verdict reason w g =
        let latched = record w.state { correctness = violated reason } in
        let (m, e, r) = metrics-total fl scaling (clock w.readings) latched in
        rw (e, disqualify)
          (sentence-Verdict reason (record m { score = minus_one }) _ refl r.verdict refl g.clean)

    accept_event-InGoodStanding :
        (w : Worker F) (e : TradeEvent F)
        → InGoodStanding w
        → InGoodStanding (accept_event fl clock wall redis interval w e)
    unfolding accept_event accept
    accept_event-InGoodStanding w e g = record { passing = g.passing; clean = g.clean }

    handle_events-Verdict :
        (es : List (TradeEvent F)) (w : Worker F)
        → InGoodStanding w
        → Verdict (handle_events fl clock wall redis interval w es)
    unfolding handle_events
    handle_events-Verdict [] w g = g
    handle_events-Verdict (e ∷ es) w g = elim (Option-cases (validate fl w.state e)) [
      | inl ok ↦
          rw (ok, handle_events) (handle_events-Verdict es _ (accept_event-InGoodStanding w e g))
      | inr (reason, bad) ↦ rw (bad, handle_events) (disqualify-Verdict reason w g)
    ]

    handle_poll-Verdict :
        (p : Poll) (w : Worker F)
        → InGoodStanding w
        → Verdict (handle_poll fl clock wall redis interval w p)
    unfolding handle_poll
    handle_poll-Verdict nothing w g = g
    handle_poll-Verdict failed w g = inl (g, λ e. cc)
    handle_poll-Verdict (payload bytes) w g = elim (Option-cases (unpack_trade_events fl bytes)) [
      | inl bad ↦ rw (bad, handle_poll) (inl (g, λ e. cc))
      | inr (es, ok) ↦ rw (ok, handle_poll) (handle_events-Verdict es w g)
    ]

    fine-Verdict :
        (now : F) (m : Metrics F) (w : Worker F)
        → m.correctness ≡ passed
        → InGoodStanding w
        → Verdict (
            and_then (publish_metrics fl clock wall redis interval m w) (λ v.
              running
                (record (print_line fl clock wall redis interval fine m v) { last_metrics = now })))
    unfolding publish_metrics print_line
    fine-Verdict now m w fair g = by_reply (redis w.readings) refl
      where
        joined : (cs : List (Command F)) → All IsClean cs → All IsClean (w.sent ++ cs)
        joined cs h = All-append IsClean w.sent cs g.clean h

        by_reply :
            (r : Reply)
            → redis w.readings ≡ r
            → Verdict (
                and_then (publish_metrics fl clock wall redis interval m w) (λ v.
                  running (record (print_line fl clock wall redis interval fine m v) {
                    last_metrics = now;
                  })))
        by_reply all_taken h =
            rw (h, publish_metrics)
              (record {
                passing = g.passing;
                clean =
                    All-append IsClean (w.sent ++ _) _ (joined _ (tt, (fair, (fair, tt))))
                      ((refl, fair), tt);
              })
        by_reply zadd_fails h =
            rw (h, publish_metrics)
              (inl (record { passing = g.passing; clean = joined _ (tt, tt) }, λ e. cc))
        by_reply hset_fails h =
            rw (h, publish_metrics)
              (inl (record { passing = g.passing; clean = joined _ (tt, (fair, tt)) }, λ e. cc))
        by_reply publish_fails h =
            rw (h, publish_metrics)
              (inl (
                record { passing = g.passing; clean = joined _ (tt, (fair, (fair, tt))) },
                λ e. cc,
              ))

    send_report-Verdict :
        (now : F) (w : Worker F)
        → InGoodStanding w
        → Verdict (send_report fl clock wall redis interval now w)
    unfolding send_report prune
    send_report-Verdict now w g =
        let (m, e, r) = metrics-total fl scaling (clock w.readings) w.state in
        rw (e, send_report)
          (fine-Verdict now m _ (r.verdict ∙ g.passing)
            (record { passing = g.passing; clean = g.clean }))

    report-Verdict :
        (w : Worker F) → InGoodStanding w → Verdict (report fl clock wall redis interval w)
    unfolding report
    report-Verdict w g = elim (Bool-cases (le interval (sub (clock w.readings) w.last_metrics))) [
      | inl due ↦
          rw (due, report)
            (send_report-Verdict _ _ (record { passing = g.passing; clean = g.clean }))
      | inr early ↦ rw (early, report) (record { passing = g.passing; clean = g.clean })
    ]

    run-Verdict_from :
        (ps : List Poll) (w : Worker F)
        → InGoodStanding w
        → Verdict (run fl clock wall redis interval w ps)
    unfolding run round
    run-Verdict_from [] w g = g
    run-Verdict_from (p ∷ ps) w g =
        and_then-Verdict _ (λ w'. run fl clock wall redis interval w' ps)
          (and_then-Verdict _ (report fl clock wall redis interval) (handle_poll-Verdict p w g)
            report-Verdict)
          (run-Verdict_from ps)

    -- However the polls of a fresh worker and its calls of Redis turn out: while it runs, all that
    -- it has published says PASSED. If it returns, it has latched a violation, and the last
    -- commands are one sentence with that violation and the score -1, behind commands that all
    -- said PASSED. If it crashes, either all that it has published says PASSED and the exception
    -- is no IndexError, or Redis raised within such a sentence: then the last commands are a part
    -- of the sentence up to the call that raised, without the line that is printed.
    pub run-Verdict :
        (window : F) (ps : List Poll)
        → Verdict (run fl clock wall redis interval (start fl clock wall redis interval window) ps)
    unfolding start init
    run-Verdict window ps = run-Verdict_from ps _ (record { passing = refl; clean = tt })
