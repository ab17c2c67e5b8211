-- ===== src/Scoring/Feed/Ledger.antt =====
-- The dictionary of fills against the stream of accepted trades.
use trade_plat.Common.{
  ℕ, ◌+◌, ◌*◌, ◌≡◌, refl, ap, List, [], ◌∷◌, none, arith, ◌==◌, if◌then◌else◌, length,
}
use trade_plat.Common.Floats.{Floats}
use trade_plat.Scoring.Event.{TradeEvent}
use trade_plat.Scoring.State.{ContestantState, Fills, init, filled, set_fill, add_fill, accept}
use trade_plat.Scoring.Feed.{feed}
use trade_plat.Scoring.Feed.Stream.{feed-cons, feed-head}

filled-set_fill :
    (order qty other : ℕ) (m : Fills)
    → filled other (set_fill order qty m) ≡ (if order == other then qty else filled other m)
unfolding filled set_fill
filled-set_fill order qty other [] = refl
filled-set_fill order qty other ((o, q) ∷ m) = ground (arith, filled-set_fill order qty other m)

pub filled-add_fill :
    (order qty other : ℕ) (m : Fills)
    → filled other (add_fill order qty m) ≡ filled other m + (if order == other then qty else 0)
unfolding add_fill
filled-add_fill order qty other m =
    ground (arith, filled-set_fill order (filled order m + qty) other m)

-- The sum of the values of the dictionary.
pub total_filled : Fills → ℕ
total_filled [] = 0
total_filled ((o, q) ∷ m) = q + total_filled m

total_filled-set_fill :
    (order qty : ℕ) (m : Fills)
    → total_filled (set_fill order qty m) + filled order m ≡ total_filled m + qty
unfolding total_filled set_fill filled
total_filled-set_fill order qty [] = omega arith
total_filled-set_fill order qty ((o, q) ∷ m) = ground (arith, total_filled-set_fill order qty m)

total_filled-add_fill :
    (order qty : ℕ) (m : Fills) → total_filled (add_fill order qty m) ≡ total_filled m + qty
unfolding add_fill
total_filled-add_fill order qty m =
    omega (arith, total_filled-set_fill order (filled order m + qty) m)

-- What the order bought and sold in the trades.
pub traded : {F : Type 0} → ℕ → List (TradeEvent F) → ℕ
traded order [] = 0
traded order (e ∷ es) =
    (if e.buy_order_id == order then e.qty else 0)
    + (if e.sell_order_id == order then e.qty else 0)
    + traded order es

pub volume : {F : Type 0} → List (TradeEvent F) → ℕ
volume [] = 0
volume (e ∷ es) = e.qty + volume es

module _ (fl : Floats) (clock : ℕ → fl.F) where
  open fl use {F}

  accept-order_fills :
      (now : F) (s : ContestantState F) (e : TradeEvent F)
      → (accept fl now s e).order_fills
        ≡ add_fill e.sell_order_id e.qty (add_fill e.buy_order_id e.qty s.order_fills)
  unfolding accept
  accept-order_fills now s e = refl

  accept-total_events :
      (now : F) (s : ContestantState F) (e : TradeEvent F)
      → (accept fl now s e).total_events ≡ s.total_events + 1
  unfolding accept
  accept-total_events now s e = refl

  filled-feed_from :
      (es : List (TradeEvent F)) (k : ℕ) (s : ContestantState F) (order : ℕ)
      → (feed fl clock k s es).1 ≡ none
      → filled order (feed fl clock k s es).0.order_fills
        ≡ filled order s.order_fills + traded order es
  unfolding feed traded
  filled-feed_from [] k s order h = omega arith
  filled-feed_from (e ∷ es) k s order h =
      let (fine, rest) = feed-head fl clock k s e es h in
      let s' = accept fl (clock k) s e in
      rw (feed-cons fl clock k s e es fine) (
        omega (
          arith,
          filled-feed_from es (k + 1) s' order rest,
          filled-add_fill e.sell_order_id e.qty order (add_fill e.buy_order_id e.qty s.order_fills),
          filled-add_fill e.buy_order_id e.qty order s.order_fills,
          ap (filled order) (accept-order_fills (clock k) s e),
        ))

  -- After an accepted stream, the fill count of every order is the sum of the quantities of the
  -- trades in which it bought or sold, and 0 if it took part in none.
  pub filled-feed :
      (k : ℕ) (window : F) (es : List (TradeEvent F)) (order : ℕ)
      → (feed fl clock k (init window) es).1 ≡ none
      → filled order (feed fl clock k (init window) es).0.order_fills ≡ traded order es
  unfolding init filled
  filled-feed k window es order h = omega (arith, filled-feed_from es k (init window) order h)

  total_filled-feed_from :
      (es : List (TradeEvent F)) (k : ℕ) (s : ContestantState F)
      → (feed fl clock k s es).1 ≡ none
      → (total_filled (feed fl clock k s es).0.order_fills
          ≡ total_filled s.order_fills + 2 * volume es)
        × ((feed fl clock k s es).0.total_events ≡ s.total_events + length es)
  unfolding feed volume
  total_filled-feed_from [] k s h = omega arith
  total_filled-feed_from (e ∷ es) k s h =
      let (fine, rest) = feed-head fl clock k s e es h in
      let s' = accept fl (clock k) s e in
      rw (feed-cons fl clock k s e es fine) (
        omega (
          arith,
          total_filled-feed_from es (k + 1) s' rest,
          total_filled-add_fill e.sell_order_id e.qty (add_fill e.buy_order_id e.qty s.order_fills),
          total_filled-add_fill e.buy_order_id e.qty s.order_fills,
          ap total_filled (accept-order_fills (clock k) s e),
          accept-total_events (clock k) s e,
        ))

  -- After an accepted stream, the fill counts of all orders together are twice the traded
  -- quantity, and the number of events is the length of the stream.
  pub total_filled-feed :
      (k : ℕ) (window : F) (es : List (TradeEvent F))
      → (feed fl clock k (init window) es).1 ≡ none
      → (total_filled (feed fl clock k (init window) es).0.order_fills ≡ 2 * volume es)
        × ((feed fl clock k (init window) es).0.total_events ≡ length es)
  unfolding init total_filled
  total_filled-feed k window es h = omega (arith, total_filled-feed_from es k (init window) h)
