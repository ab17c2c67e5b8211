-- ===== src/Scoring/Feed/History.antt =====
-- The rolling window of latency samples against the history of all accepted trades.
use trade_plat.Common.{
  ℕ, ◌+◌, ◌≤◌, ◌<◌, ◌≡◌, refl, sym, ap, ◌∙◌, List, [], ◌∷◌, ◌++◌, none, true, false, arith, length,
  All, All-append,
}
use mathlib.Core.Path.{ap₂}
use mathlib.Core.List.{append_assoc}
use native.Mathlib.Nat.{add-zero}
use trade_plat.Common.Floats.{Floats, LinearOrder}
use trade_plat.Scoring.Event.{TradeEvent, engine_latency_ns}
use trade_plat.Scoring.State.{ContestantState, init, accept, drop_stale}
use trade_plat.Scoring.State.Window.{
  fresh, Chronological, All-fresh, Chronological-fresh, Chronological-append, fresh-append,
  drop_stale-fresh, fresh-fresh,
}
use trade_plat.Scoring.Feed.{feed}
use trade_plat.Scoring.Feed.Stream.{feed-cons, feed-head}

-- What the monotonic clock and the subtraction of a window promise.
pub record Monotonic (fl : Floats) (clock : ℕ → fl.F) (window : fl.F) : Type 0 where
  pub reading_finite : (i : ℕ) → fl.is_finite (clock i) ≡ true
  pub reading_mono : (i j : ℕ) → i ≤ j → fl.lt (clock j) (clock i) ≡ false
  pub cutoff_finite : (i : ℕ) → fl.is_finite (fl.sub (clock i) window) ≡ true
  pub cutoff_mono :
      (i j : ℕ) → i ≤ j → fl.lt (fl.sub (clock j) window) (fl.sub (clock i) window) ≡ false

module _ (fl : Floats) (clock : ℕ → fl.F) where
  open fl use {F, lt, sub, is_finite}

  -- The samples of all trades, the first of which is accepted at reading `k`.
  unfoldable pub history : ℕ → List (TradeEvent F) → List (F × ℕ)
  history k [] = []
  history k (e ∷ es) = (clock k, engine_latency_ns e) ∷ history (k + 1) es

  accept-samples :
      (k : ℕ) (s : ContestantState F) (e : TradeEvent F)
      → (accept fl (clock k) s e).samples
        ≡ drop_stale fl
            (sub (clock k) s.window_seconds)
            (s.samples ++ (clock k, engine_latency_ns e) ∷ [])
  unfolding accept
  accept-samples k s e = refl

  accept-window_seconds :
      (k : ℕ) (s : ContestantState F) (e : TradeEvent F)
      → (accept fl (clock k) s e).window_seconds ≡ s.window_seconds
  unfolding accept
  accept-window_seconds k s e = refl

  -- Every sample was taken at a reading before `k`.
  abbrev TakenBefore : ℕ → List (F × ℕ) → Type 0
  TakenBefore k = All (λ s. (i : ℕ) × (i < k) × (s.0 ≡ clock i))

  module _ (order : LinearOrder fl) (window : F) (m : Monotonic fl clock window) where
    TakenBefore-mono : (xs : List (F × ℕ)) (k : ℕ) → TakenBefore k xs → TakenBefore (k + 1) xs
    TakenBefore-mono [] k h = tt
    TakenBefore-mono (x ∷ xs) k ((i, p, e), h) = ((i, omega arith, e), TakenBefore-mono xs k h)

    TakenBefore-later :
        (xs : List (F × ℕ)) (k : ℕ) → TakenBefore k xs → All (λ s. lt (clock k) s.0 ≡ false) xs
    TakenBefore-later [] k h = tt
    TakenBefore-later (x ∷ xs) k ((i, p, e), h) =
        (rw e (m.reading_mono i k (omega arith)), TakenBefore-later xs k h)

    -- The state holds the fresh samples of the past, which were all taken before reading `k`.
    record Keeps (k : ℕ) (c : F) (past : List (F × ℕ)) (s : ContestantState F) : Type 0 where
      window_same : s.window_seconds ≡ window
      window_kept : s.samples ≡ fresh fl c past
      cutoff_before : lt (sub (clock k) window) c ≡ false
      ordered : Chronological fl past
      taken : TakenBefore k past

    accept-Keeps :
        (k : ℕ) (c : F) (past : List (F × ℕ)) (s : ContestantState F) (e : TradeEvent F)
        → Keeps k c past s
        → Keeps
            (k + 1)
            (sub (clock k) window)
            (past ++ (clock k, engine_latency_ns e) ∷ [])
            (accept fl (clock k) s e)
    accept-Keeps k c past s e h = record {
      window_same = accept-window_seconds k s e ∙ h.window_same;
      window_kept =
          accept-samples k s e
          ∙ rw (h.window_same, h.window_kept)
              (drop_stale-fresh fl order cutoff _ (
                  Chronological-append fl (fresh fl c past) (clock k) _
                    (Chronological-fresh fl c past h.ordered) (All-fresh fl _ c past later)
                    (m.reading_finite k))
                ∙ fresh-append fl cutoff (fresh fl c past) new
                ∙ ap (λ xs. xs ++ fresh fl cutoff new)
                    (fresh-fresh fl order c cutoff past (m.cutoff_finite k) h.cutoff_before)
                ∙ sym (fresh-append fl cutoff past new));
      cutoff_before = m.cutoff_mono k (k + 1) (omega arith);
      ordered = Chronological-append fl past (clock k) _ h.ordered later (m.reading_finite k);
      taken = All-append _ past new (TakenBefore-mono past k h.taken) ((k, omega arith, refl), tt);
    }
      where
        cutoff : F
        cutoff = sub (clock k) window

        new : List (F × ℕ)
        new = (clock k, engine_latency_ns e) ∷ []

        later : All (λ s. lt (clock k) s.0 ≡ false) past
        later = TakenBefore-later past k h.taken

    feed-history_from :
        (es : List (TradeEvent F)) (k : ℕ) (c : F) (past : List (F × ℕ)) (s : ContestantState F)
        (e : TradeEvent F)
        → Keeps k c past s
        → (feed fl clock k s (e ∷ es)).1 ≡ none
        → (feed fl clock k s (e ∷ es)).0.samples
          ≡ fresh fl (sub (clock (k + length es)) window) (past ++ history k (e ∷ es))
    unfolding feed history
    feed-history_from [] k c past s e h a =
        let (fine, _) = feed-head fl clock k s e [] a in
        rw (feed-cons fl clock k s e [] fine, add-zero k) (accept-Keeps k c past s e h).window_kept
    feed-history_from (f ∷ es) k c past s e h a =
        let (fine, rest) = feed-head fl clock k s e (f ∷ es) a in
        let new : List (F × ℕ) = (clock k, engine_latency_ns e) ∷ [] in
        let later =
          feed-history_from es (k + 1) (sub (clock k) window) (past ++ new)
            (accept fl (clock k) s e) f (accept-Keeps k c past s e h) rest in
        rw (feed-cons fl clock k s e (f ∷ es) fine) (
          later
          ∙ ap₂ (λ n xs. fresh fl (sub (clock n) window) xs) (omega arith)
              (append_assoc past new (history (k + 1) (f ∷ es))))

    -- After an accepted stream, the window holds exactly the latencies of those trades of the
    -- whole stream that were accepted no longer ago than the window, in their order: `prune`
    -- never keeps a stale sample and never loses a fresh one. The clock is monotonic.
    pub samples-feed :
        (k : ℕ) (e : TradeEvent F) (es : List (TradeEvent F))
        → (feed fl clock k (init window) (e ∷ es)).1 ≡ none
        → (feed fl clock k (init window) (e ∷ es)).0.samples
          ≡ fresh fl (sub (clock (k + length es)) window) (history k (e ∷ es))
    unfolding init fresh
    samples-feed k e es h =
        feed-history_from es k (sub (clock k) window) [] (init window) e
          (record {
            window_same = refl;
            window_kept = refl;
            cutoff_before = m.cutoff_mono k k (omega arith);
            ordered = tt;
            taken = tt;
          })
          h
