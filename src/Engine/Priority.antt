-- ===== src/Engine/Priority.antt =====
-- What the engine promises, without levels, maps, references and loops: two queues of orders, each
-- in the order of price and then of arrival. An order that comes in trades with the orders of the
-- other queue from the front on, each at the price of the order that waits, and what is left of
-- it joins its own queue.
pub mod Shelf
pub mod Round
pub mod Rounds
pub mod Loop
pub mod Kept
pub mod Added
pub mod Refinement
pub mod Cancelled
use trade_plat.Common.{
  ℕ, ◌+◌, ◌-◌, ◌≡◌, ◌<◌, List, [], ◌∷◌, ◌++◌, Option, none, some, Bool, true, false, not, All,
  length, ◌==◌, if◌then◌else◌,
}
use trade_plat.Common.Floats.{Floats, IsPrice}
use trade_plat.Scoring.Event.{TradeEvent}
use trade_plat.Engine.Book.{Order, Level}
use trade_plat.Engine.Matching.{Engine, min_int}

-- The orders of a side, level by level.
unfoldable pub flat : {F : Type 0} → List (Level F) → List (Order F)
flat [] = []
flat (l ∷ levels) = l.orders ++ flat levels

pub record Market (F : Type 0) : Type 0 where
  pub bids : List (Order F)
  pub asks : List (Order F)
  pub matches : ℕ
  pub published : List (TradeEvent F)

unfoldable pub empty : {F : Type 0} → Market F
empty = record { bids = []; asks = []; matches = 0; published = [] }

-- The part of the engine's state that counts.
unfoldable pub view : {F : Type 0} → Engine F → Market F
unfolding flat
view e = record {
  bids = flat e.buys;
  asks = flat e.sells;
  matches = e.next_match_id;
  published = e.published;
}

-- What becomes of an order that comes in: what is left of it, the queue that it faced, and its
-- trades.
pub record Walk (F : Type 0) : Type 0 where
  pub left : Option (Order F)
  pub facing : List (Order F)
  pub trades : List (TradeEvent F)

-- The front of a queue when its first order has traded so much.
abbrev pub settled : {F : Type 0} → ℕ → Order F → List (Order F) → List (Order F)
settled qty o orders =
    if o.quantity - qty == 0 then orders else record o { quantity = o.quantity - qty } ∷ orders

-- Orders that arrive one after the other, all with a price.
abbrev pub Arriving : (fl : Floats) → List (Order fl.F) → Type 0
Arriving fl [] = Unit {0}
Arriving fl (o ∷ orders) =
    IsPrice fl o.price × All (λ later. o.seq_no < later.seq_no) orders × Arriving fl orders

-- An order takes its place behind all that are no worse.
unfoldable pub queue : {F : Type 0} → (F → F → Bool) → Order F → List (Order F) → List (Order F)
queue before o [] = o ∷ []
queue before o (x ∷ orders) =
    if before o.price x.price then o ∷ x ∷ orders else x ∷ queue before o orders

unfoldable pub join :
    {F : Type 0} → (F → F → Bool) → Option (Order F) → List (Order F) → List (Order F)
unfolding queue
join before none orders = orders
join before (some o) orders = queue before o orders

module _ (fl : Floats) where
  open fl use {F, lt}

  -- Whether the price `a` is nearer than `b` to an order that faces both: a lower ask to a buyer, a
  -- higher bid to a seller.
  abbrev pub better : Bool → F → F → Bool
  better true a b = lt a b
  better false a b = lt b a

module _ (fl : Floats) (clock : ℕ → ℕ) (publish : ℕ → Bool) where
  open fl use {F}

  unfoldable pub fill_of : Bool → ℕ → Order F → Order F → TradeEvent F
  fill_of buying match_id o waiting = record {
    match_id = match_id;
    buy_order_id = if buying then o.order_id else waiting.order_id;
    sell_order_id = if buying then waiting.order_id else o.order_id;
    t0_ns = o.t0;
    t1_ns = o.t1;
    t2_ns = clock match_id;
    price = waiting.price;
    qty = min_int o.quantity waiting.quantity;
  }

  unfoldable pub walk : Bool → ℕ → Order F → List (Order F) → Walk F
  unfolding fill_of
  walk buying matches o [] = record { left = some o; facing = []; trades = [] }
  walk buying matches o (waiting ∷ orders) =
      let qty = min_int o.quantity waiting.quantity in
      let fill = fill_of buying (matches + 1) o waiting in
      let rest = walk buying (matches + 1) (record o { quantity = o.quantity - qty }) orders in
      if better fl buying o.price waiting.price
      then record { left = some o; facing = waiting ∷ orders; trades = [] }
      else (if o.quantity - qty == 0
          then record { left = none; facing = settled qty waiting orders; trades = fill ∷ [] }
          else record rest { trades = fill ∷ rest.trades })

  -- The trades that the offloader takes.
  unfoldable pub taken : List (TradeEvent F) → List (TradeEvent F)
  taken [] = []
  taken (t ∷ trades) = if publish t.match_id then t ∷ taken trades else taken trades

  unfoldable pub submit_buy : Order F → Market F → Market F
  unfolding walk join taken
  submit_buy o k =
      let w = walk true k.matches o k.asks in
      record {
        bids = join (better fl false) w.left k.bids;
        asks = w.facing;
        matches = k.matches + length w.trades;
        published = k.published ++ taken w.trades;
      }

  unfoldable pub submit_sell : Order F → Market F → Market F
  unfolding walk join taken
  submit_sell o k =
      let w = walk false k.matches o k.bids in
      record {
        bids = w.facing;
        asks = join (better fl true) w.left k.asks;
        matches = k.matches + length w.trades;
        published = k.published ++ taken w.trades;
      }

  unfoldable pub submit : Order F → Market F → Market F
  unfolding submit_buy submit_sell
  submit o k = if o.is_buy then submit_buy o k else submit_sell o k

  unfoldable pub submit_all : List (Order F) → Market F → Market F
  unfolding submit
  submit_all [] k = k
  submit_all (o ∷ orders) k = submit_all orders (submit o k)
