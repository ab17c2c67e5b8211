-- ===== src/Scoring/Feed.antt =====
-- telemetry/scoring_engine.py: `feed` of the self-test, which is the order of calls in the loop of
-- `main` too. The k-th reading of the clock is `clock k`.
pub mod Stream
pub mod Ledger
pub mod History
use trade_plat.Common.{ℕ, ◌+◌, List, [], ◌∷◌, Option, none, some}
use trade_plat.Common.Floats.{Floats}
use trade_plat.Scoring.Event.{TradeEvent}
use trade_plat.Scoring.State.{ContestantState, Violation, validate, accept}

module _ (fl : Floats) (clock : ℕ → fl.F) where
  open fl use {F}

  -- The state behind the last accepted event, and the first violation.
  unfoldable pub feed :
      ℕ → ContestantState F → List (TradeEvent F) → ContestantState F × Option (Violation F)
  feed k s [] = (s, none)
  feed k s (e ∷ es) = elim (validate fl s e) [
    | some violation ↦ (s, some violation)
    | none ↦ feed (k + 1) (accept fl (clock k) s e) es
  ]
