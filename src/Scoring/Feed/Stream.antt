-- ===== src/Scoring/Feed/Stream.antt =====
-- A stream that is accepted from its start on, described without the state of the validator.
use trade_plat.Common.{
  ℕ, zero, suc, ◌+◌, ◌≤◌, ◌≡◌, ◌↔◌, refl, inl, inr, List, [], ◌∷◌, Option, none, some, arith,
  get_elem?, Option-cases,
}
use trade_plat.Common.Floats.{Floats}
use trade_plat.Scoring.Event.{TradeEvent}
use trade_plat.Scoring.State.{ContestantState, Violation, init, validate, accept}
use trade_plat.Scoring.State.Legal.{WellFormed, Fair, Legal, validate-eq-none_iff}
use trade_plat.Scoring.Feed.{feed}

module _ (fl : Floats) where
  open fl use {F}

  pub record Continues (prev e : TradeEvent F) : Type 0 where
    pub next : e.match_id ≡ prev.match_id + 1
    pub later : prev.t2_ns ≤ e.t2_ns
    pub fair : Fair fl prev e

  abbrev pub ContinuesAfter : Option (TradeEvent F) → TradeEvent F → Type 0
  ContinuesAfter none e = Unit {0}
  ContinuesAfter (some prev) e = Continues prev e

  -- Every trade is well formed, and continues the one before it.
  abbrev pub IsStream : Option (TradeEvent F) → List (TradeEvent F) → Type 0
  IsStream prev [] = Unit {0}
  IsStream prev (e ∷ es) = WellFormed fl e × ContinuesAfter prev e × IsStream (some e) es

  -- The state remembers the last event.
  abbrev pub Remembers : ContestantState F → Option (TradeEvent F) → Type 0
  Remembers s none = (s.last_match_id ≡ none) × (s.last_t2_ns ≡ 0) × (s.prev_event ≡ none)
  Remembers s (some e) =
      (s.last_match_id ≡ some e.match_id) × (s.last_t2_ns ≡ e.t2_ns) × (s.prev_event ≡ some e)

  pub accept-Remembers :
      (now : F) (s : ContestantState F) (e : TradeEvent F) → Remembers (accept fl now s e) (some e)
  unfolding accept
  accept-Remembers now s e = (refl, refl, refl)

  Legal-ContinuesAfter :
      (s : ContestantState F) (p : Option (TradeEvent F)) (e : TradeEvent F)
      → Remembers s p
      → Legal fl s e
      → WellFormed fl e × ContinuesAfter p e
  Legal-ContinuesAfter s none e r v = (v.formed, tt)
  Legal-ContinuesAfter s (some prev) e r v = (
    v.formed,
    record {
      next = rw r.0 at v.in_sequence;
      later = omega (arith, r.1, v.in_time);
      fair = rw r.2 at v.fair;
    },
  )

  ContinuesAfter-Legal :
      (s : ContestantState F) (p : Option (TradeEvent F)) (e : TradeEvent F)
      → Remembers s p
      → WellFormed fl e
      → ContinuesAfter p e
      → Legal fl s e
  ContinuesAfter-Legal s none e r w c = record {
    in_sequence = rw r.0 tt;
    in_time = omega (arith, r.1);
    formed = w;
    fair = rw r.2 tt;
  }
  ContinuesAfter-Legal s (some prev) e r w c = record {
    in_sequence = rw r.0 c.next;
    in_time = omega (arith, r.1, c.later);
    formed = w;
    fair = rw r.2 c.fair;
  }

  module _ (clock : ℕ → F) where
    -- One accepted event of a feed.
    pub feed-cons :
        (k : ℕ) (s : ContestantState F) (e : TradeEvent F) (es : List (TradeEvent F))
        → validate fl s e ≡ none
        → feed fl clock k s (e ∷ es) ≡ feed fl clock (k + 1) (accept fl (clock k) s e) es
    unfolding feed
    feed-cons k s e es h = rw (h, feed)

    pub feed-violation :
        (k : ℕ) (s : ContestantState F) (e : TradeEvent F) (es : List (TradeEvent F))
        (v : Violation F)
        → validate fl s e ≡ some v
        → feed fl clock k s (e ∷ es) ≡ (s, some v)
    unfolding feed
    feed-violation k s e es v h = rw (h, feed)

    -- An event of a feed without a violation was accepted.
    pub feed-head :
        (k : ℕ) (s : ContestantState F) (e : TradeEvent F) (es : List (TradeEvent F))
        → (feed fl clock k s (e ∷ es)).1 ≡ none
        → (validate fl s e ≡ none) × ((feed fl clock (k + 1) (accept fl (clock k) s e) es).1 ≡ none)
    feed-head k s e es h = elim (Option-cases (validate fl s e)) [
      | inl fine ↦ (fine, rw (feed-cons k s e es fine) at h)
      | inr (v, bad) ↦ ground (arith, feed-violation k s e es v bad)
    ]

    IsStream-feed :
        (es : List (TradeEvent F)) (k : ℕ) (s : ContestantState F) (p : Option (TradeEvent F))
        → Remembers s p
        → (feed fl clock k s es).1 ≡ none
        → IsStream p es
    IsStream-feed [] k s p r h = tt
    IsStream-feed (e ∷ es) k s p r h =
        let (fine, rest) = feed-head k s e es h in
        let (formed, continues) =
          Legal-ContinuesAfter s p e r ((validate-eq-none_iff fl s e).0 fine) in
        (
          formed,
          continues,
          IsStream-feed es (k + 1) (accept fl (clock k) s e) (some e)
              (accept-Remembers (clock k) s e) rest,
        )

    feed-IsStream :
        (es : List (TradeEvent F)) (k : ℕ) (s : ContestantState F) (p : Option (TradeEvent F))
        → Remembers s p
        → IsStream p es
        → (feed fl clock k s es).1 ≡ none
    unfolding feed
    feed-IsStream [] k s p r h = refl
    feed-IsStream (e ∷ es) k s p r (formed, continues, rest) =
        let fine =
          (validate-eq-none_iff fl s e).1 (ContinuesAfter-Legal s p e r formed continues) in
        rw (feed-cons k s e es fine) (
          feed-IsStream es (k + 1) (accept fl (clock k) s e) (some e)
            (accept-Remembers (clock k) s e) rest)

    pub init-Remembers : (window : F) → Remembers (init window) none
    unfolding init
    init-Remembers window = (refl, refl, refl)

    -- A fresh validator accepts a whole stream of trades exactly if every trade in it is well
    -- formed and continues the trade before it: the next match number, no earlier match time,
    -- and no better price passed over. Its times t0, t1 and t2 have to be above zero and in this
    -- order, where equal ones are accepted.
    pub feed-eq-none_iff :
        (k : ℕ) (window : F) (es : List (TradeEvent F))
        → ((feed fl clock k (init window) es).1 ≡ none) ↔ IsStream none es
    feed-eq-none_iff k window es = (
      IsStream-feed es k (init window) none (init-Remembers window),
      feed-IsStream es k (init window) none (init-Remembers window),
    )

    IsStream-consecutive :
        (es : List (TradeEvent F)) (prev : TradeEvent F) (i : ℕ) (e : TradeEvent F)
        → IsStream (some prev) es
        → get_elem? es i ≡ some e
        → e.match_id ≡ prev.match_id + 1 + i
    IsStream-consecutive [] prev i e h g = cc
    IsStream-consecutive (x ∷ es) prev zero e h g = ground (arith, h.1.next)
    IsStream-consecutive (x ∷ es) prev (suc i) e h g =
        omega (arith, IsStream-consecutive es x i e h.2 g, h.1.next)

    -- In an accepted stream the match numbers count up from the first one with no gap and no
    -- repetition: the trade at index i carries the first number plus i.
    pub feed_consecutive :
        (k : ℕ) (window : F) (first : TradeEvent F) (es : List (TradeEvent F)) (i : ℕ)
        (e : TradeEvent F)
        → (feed fl clock k (init window) (first ∷ es)).1 ≡ none
        → get_elem? (first ∷ es) i ≡ some e
        → e.match_id ≡ first.match_id + i
    feed_consecutive k window first es zero e h g = ground arith
    feed_consecutive k window first es (suc i) e h g = omega (
      arith,
      IsStream-consecutive es first i e ((feed-eq-none_iff k window (first ∷ es)).0 h).2 g,
    )
