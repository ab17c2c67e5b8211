-- ===== src/Scoring/Worker/Batches.antt =====
-- How the broker cuts the trades into messages, and when figures are published, does not bear on
-- the verdict: a run of the worker decides what `feed` decides of all trades in a row.
use trade_plat.Common.{
  ℕ, ◌+◌, ◌≡◌, ◌∙◌, refl, sym, ap, inl, inr, List, [], ◌∷◌, ◌++◌, Option, none, some, Bool-cases,
  Option-cases, ◌>>=◌, >>=-eq-some,
}
use mathlib.Core.Option.{some-injective}
use trade_plat.Common.Floats.{Floats, Scaling}
use trade_plat.Scoring.Event.{TradeEvent, unpack_trade_events}
use trade_plat.Scoring.State.{
  ContestantState, Violation, Fills, passed, violated, init, validate, accept, prune,
}
use trade_plat.Scoring.Metrics.Total.{metrics-total}
use trade_plat.Scoring.Feed.{feed}
use trade_plat.Scoring.Feed.Stream.{feed-cons, feed-violation}
use trade_plat.Scoring.Worker.{
  Worker, Reply, all_taken, Poll, nothing, failed, payload, Outcome, running, returned, crashed,
  and_then, publish_metrics, print_line, disqualify, accept_event, handle_events, handle_poll,
  send_report, report, round, run, start,
}

-- The part of the state that does not depend on the clock.
pub record View (F : Type 0) : Type 0 where
  pub last_match_id : Option ℕ
  pub last_t2_ns : ℕ
  pub order_fills : Fills
  pub total_events : ℕ
  pub prev_event : Option (TradeEvent F)

abbrev pub view : {F : Type 0} → ContestantState F → View F
view s = record {
  last_match_id = s.last_match_id;
  last_t2_ns = s.last_t2_ns;
  order_fills = s.order_fills;
  total_events = s.total_events;
  prev_event = s.prev_event;
}

module _ (fl : Floats) (scaling : Scaling fl) where
  open fl use {F, le, sub, of_int, minus_one}

  -- All trades of the messages; `none` if a poll fails or a message has a bad length.
  unfoldable pub decoded : List Poll → Option (List (TradeEvent F))
  decoded [] = some []
  decoded (nothing ∷ ps) = decoded ps
  decoded (failed ∷ ps) = none
  decoded (payload bytes ∷ ps) = do
    es ← unpack_trade_events fl bytes
    rest ← decoded ps
    some (es ++ rest)

  abbrev restore : View F → ContestantState F
  restore v = record {
    last_match_id = v.last_match_id;
    last_t2_ns = v.last_t2_ns;
    order_fills = v.order_fills;
    window_seconds = of_int 0;
    samples = [];
    correctness = passed;
    total_events = v.total_events;
    prev_event = v.prev_event;
  }

  validate-view :
      (s t : ContestantState F) (e : TradeEvent F)
      → view s ≡ view t
      → validate fl s e ≡ validate fl t e
  unfolding validate
  validate-view s t e h = ap (λ v. validate fl (restore v) e) h

  accept-view :
      (now then' : F) (s t : ContestantState F) (e : TradeEvent F)
      → view s ≡ view t
      → view (accept fl now s e) ≡ view (accept fl then' t e)
  unfolding accept
  accept-view now then' s t e h = ap (λ v. view (accept fl now (restore v) e)) h

  -- The outcome says of the trades what the feed says.
  abbrev pub Agrees : Outcome F → ContestantState F × Option (Violation F) → Type 0
  Agrees (running w) r = (r.1 ≡ none) × (view w.state ≡ view r.0)
  Agrees (returned w) r =
      (v : Violation F) × (r.1 ≡ some v)
      × (w.state.correctness ≡ violated v)
      × (view w.state ≡ view r.0)
  Agrees (crashed c w) r = ⊥

  -- The loop goes on, and the trades seen are those of `s`.
  abbrev GoesOn : ContestantState F → Outcome F → Type 0
  GoesOn s (running w) = view w.state ≡ view s
  GoesOn s (returned w) = ⊥
  GoesOn s (crashed c w) = ⊥

  and_then-GoesOn :
      (o : Outcome F) (next : Worker F → Outcome F) (s : ContestantState F)
      (r : ContestantState F × Option (Violation F))
      → GoesOn s o
      → ((w : Worker F) → view w.state ≡ view s → Agrees (next w) r)
      → Agrees (and_then o next) r
  and_then-GoesOn (running w) next s r g h = h w g
  and_then-GoesOn (returned w) next s r g h = absurd g
  and_then-GoesOn (crashed c w) next s r g h = absurd g

  Agrees-and_then :
      (o : Outcome F) (next : Worker F → Outcome F) (s : ContestantState F) (v : Violation F)
      → Agrees o (s, some v)
      → Agrees (and_then o next) (s, some v)
  Agrees-and_then (running w) next s v a = cc
  Agrees-and_then (returned w) next s v a = a
  Agrees-and_then (crashed c w) next s v a = a

  module _ (clock : ℕ → F) (wall : ℕ → ℕ) (redis : ℕ → Reply)
      (taken : (k : ℕ) → redis k ≡ all_taken) (interval : F) where
    disqualify-Agrees :
        (reason : Violation F) (w : Worker F) (s : ContestantState F)
        → view w.state ≡ view s
        → Agrees (disqualify fl clock wall redis interval reason w) (s, some reason)
    unfolding disqualify publish_metrics print_line prune
    disqualify-Agrees reason w s h =
        let latched = record w.state { correctness = violated reason } in
        let (m, e, r) = metrics-total fl scaling (clock w.readings) latched in
        rw (e, disqualify, publish_metrics, taken (w.readings + 1)) (reason, refl, refl, h)

    report-GoesOn : (w : Worker F) → GoesOn w.state (report fl clock wall redis interval w)
    unfolding report send_report publish_metrics print_line prune
    report-GoesOn w =
        let (m, e, r) = metrics-total fl scaling (clock (w.readings + 1)) w.state in
        elim (Bool-cases (le interval (sub (clock w.readings) w.last_metrics))) [
          | inl due ↦
              rw (due, e, report, send_report, publish_metrics, taken (w.readings + 1 + 1)) refl
          | inr early ↦ rw (early, report) refl
        ]

    handle_events-Agrees :
        (es rest : List (TradeEvent F)) (next : Worker F → Outcome F) (k : ℕ) (w : Worker F)
        (s : ContestantState F)
        → view w.state ≡ view s
        → ((k' : ℕ) (w' : Worker F) (s' : ContestantState F)
            → view w'.state ≡ view s'
            → Agrees (next w') (feed fl clock k' s' rest))
        → Agrees
            (and_then (handle_events fl clock wall redis interval w es) next)
            (feed fl clock k s (es ++ rest))
    unfolding handle_events accept_event
    handle_events-Agrees [] rest next k w s h ih = ih k w s h
    handle_events-Agrees (e ∷ es) rest next k w s h ih =
        let same = validate-view w.state s e h in
        elim (Option-cases (validate fl w.state e)) [
          | inl ok ↦
              rw (ok, handle_events, feed-cons fl clock k s e (es ++ rest) (sym same ∙ ok))
                (handle_events-Agrees es rest next (k + 1) _ (accept fl (clock k) s e)
                  (accept-view (clock w.readings) (clock k) w.state s e h) ih)
          | inr (v, bad) ↦
              rw (bad, handle_events, feed-violation fl clock k s e (es ++ rest) v (sym same ∙ bad))
                (Agrees-and_then _ next s v (disqualify-Agrees v w s h))
        ]

    report_then-Agrees :
        (next : Worker F → Outcome F) (r : ContestantState F × Option (Violation F)) (w : Worker F)
        → ((w' : Worker F) → view w'.state ≡ view w.state → Agrees (next w') r)
        → Agrees (and_then (report fl clock wall redis interval w) next) r
    report_then-Agrees next r w h = and_then-GoesOn _ next w.state r (report-GoesOn w) h

    and_then_assoc :
        (o : Outcome F) (f g : Worker F → Outcome F)
        → and_then (and_then o f) g ≡ and_then o (λ w. and_then (f w) g)
    and_then_assoc (running w) f g = refl
    and_then_assoc (returned w) f g = refl
    and_then_assoc (crashed c w) f g = refl

    run-Agrees_from :
        (ps : List Poll) (es : List (TradeEvent F)) (k : ℕ) (w : Worker F) (s : ContestantState F)
        → decoded ps ≡ some es
        → view w.state ≡ view s
        → Agrees (run fl clock wall redis interval w ps) (feed fl clock k s es)
    unfolding run round handle_poll decoded feed
    run-Agrees_from [] es k w s d h = rw (← some-injective [] es d) (refl, h)
    run-Agrees_from (nothing ∷ ps) es k w s d h =
        report_then-Agrees _ _ w (λ w' g. run-Agrees_from ps es k w' s d (g ∙ h))
    run-Agrees_from (failed ∷ ps) es k w s d h = cc
    run-Agrees_from (payload bytes ∷ ps) es k w s d h =
        let (first, unpacked, d') = >>=-eq-some (unpack_trade_events fl bytes) _ d in
        let (rest, later, whole) = >>=-eq-some (decoded ps) _ d' in
        rw (unpacked, handle_poll, ← some-injective (first ++ rest) es whole, and_then_assoc)
          (handle_events-Agrees first rest _ k w s h (λ k' w' s' g.
            report_then-Agrees _ _ w' (λ w'' g'. run-Agrees_from ps rest k' w'' s' later (g' ∙ g))))

    -- While no call of Redis raises, a run over messages that all decode decides what `feed`
    -- decides of all their trades in a row: it runs on with the same match number, match time,
    -- fills, count of events and last trade if no trade is a violation; otherwise it returns, with
    -- that violation latched and the state of the trades before it. It does not crash.
    pub run-feed :
        (window : F) (ps : List Poll) (es : List (TradeEvent F))
        → decoded ps ≡ some es
        → Agrees
            (run fl clock wall redis interval (start fl clock wall redis interval window) ps)
            (feed fl clock 0 (init window) es)
    unfolding start
    run-feed window ps es d = run-Agrees_from ps es 0 _ (init window) d refl
