-- ===== src/Engine/Stream.antt =====
-- The trades of the engine as the stream that the scoring engine validates.
pub mod Walk
pub mod Trades
pub mod Waiting
pub mod Fair
pub mod Accepted
use trade_plat.Common.{
  ℕ, zero, suc, ◌+◌, ◌≤◌, ◌<◌, ◌≡◌, ◌≢◌, ◌⊎◌, List, [], ◌∷◌, ◌++◌, Option, none, some, Bool, true,
  false, All,
}
use trade_plat.Common.Floats.{Floats, IsPrice}
use trade_plat.Scoring.Event.{TradeEvent}
use trade_plat.Engine.Book.{Order}
use trade_plat.Engine.Priority.{better}

-- The last trade of a stream with a trade before it, if there is one.
abbrev pub last_of :
    {F : Type 0} → Option (TradeEvent F) → List (TradeEvent F) → Option (TradeEvent F)
last_of prev [] = prev
last_of prev (t ∷ ts) = last_of (some t) ts

-- The order on the side that trades, and the one on the side that waits.
abbrev pub own_id : {F : Type 0} → Bool → TradeEvent F → ℕ
own_id true t = t.buy_order_id
own_id false t = t.sell_order_id

abbrev pub other_id : {F : Type 0} → Bool → TradeEvent F → ℕ
other_id true t = t.sell_order_id
other_id false t = t.buy_order_id

module _ (fl : Floats) where
  open fl use {F}

  -- An order that the validator can hold nothing against: one with an id and a quantity, and with
  -- a price.
  pub record IsSound (o : Order F) : Type 0 where
    pub named : 0 < o.order_id
    pub some_quantity : 0 < o.quantity
    pub priced : IsPrice fl o.price

  -- And one with a stamp of the bot above zero that is no later than the gateway's.
  pub record IsStamped (o : Order F) : Type 0 where
    pub stamped : 0 < o.t0
    pub in_order : o.t0 ≤ o.t1

  -- A side that waits: no order has a better price than one before it, or its id.
  abbrev pub Lined : Bool → List (Order F) → Type 0
  Lined buying [] = Unit {0}
  Lined buying (y ∷ ys) =
      All (λ z. (better fl buying z.price y.price ≡ false) × (z.order_id ≢ y.order_id)) ys
      × Lined buying ys

  -- No order of the side that waits gives the last trade away as unfair to it.
  abbrev pub KeptAfter : Bool → Option (TradeEvent F) → List (Order F) → Type 0
  KeptAfter buying none zs = Unit {0}
  KeptAfter buying (some p) zs =
      All (λ z. z.order_id ≡ other_id buying p → better fl buying p.price z.price ≡ false) zs

  -- The last trade has the last match number, and its time is the clock's for it.
  abbrev pub CountedTo : (ℕ → ℕ) → ℕ → Option (TradeEvent F) → Type 0
  CountedTo clock matches none = Unit {0}
  CountedTo clock matches (some p) = (p.match_id ≡ matches) × (p.t2_ns ≡ clock matches)

  -- The last trade is the one before, or one of the order, at a price that it could pay.
  abbrev pub Dealt : Bool → Order F → Option (TradeEvent F) → Option (TradeEvent F) → Type 0
  Dealt buying o prev last =
      (last ≡ prev)
      ⊎ ((p : TradeEvent F) × (last ≡ some p)
          × (own_id buying p ≡ o.order_id)
          × (better fl buying o.price p.price ≡ false))

  -- The last trade was with other orders.
  abbrev pub WithOthers : ℕ → Option (TradeEvent F) → Type 0
  WithOthers id none = Unit {0}
  WithOthers id (some p) = (p.buy_order_id ≢ id) × (p.sell_order_id ≢ id)

  pub record IsOrder (o : Order F) : Type 0 where
    pub sound : IsSound o
    pub stamped : IsStamped o

  -- Orders that arrive in the order of their sequence numbers, each with an id of its own.
  abbrev pub IsOrderly : List (Order F) → Type 0
  IsOrderly [] = Unit {0}
  IsOrderly (o ∷ orders) =
      IsOrder o
      × All (λ p. o.seq_no < p.seq_no) orders
      × All (λ p. p.order_id ≢ o.order_id) orders
      × IsOrderly orders
