-- ===== src/Engine/Matching.antt =====
-- matching-engine/MatchingEngine.cpp: `addOrder`, `matching` and `cancelOrder`. `clock` gives the
-- reading of the system clock that is made for a match, and `publish` what `KafkaOffloader.publish`
-- returns for its event, both by the number of the match. The counters of 64 bits stay below
-- their bound, as 2^64 matches are out of reach.
pub mod Rest
use trade_plat.Common.{
  ℕ, zero, suc, ◌+◌, ◌-◌, List, [], ◌∷◌, ◌++◌, Option, none, some, Bool, true, false, length, ltb,
  ◌==◌, if◌then◌else◌,
}
use trade_plat.Common.Floats.{Floats}
use trade_plat.Scoring.Event.{TradeEvent}
use trade_plat.Engine.Book.{
  Order, OrderLocation, OrderMap, Level, find_order, assign, erase, erase_at, push_back, level_size,
  erase_from, keep_level,
}

-- The fields of `MatchingEngine` and its `OrderBook` that these functions use, the atomic counters
-- included, and the events that the offloader has taken, in their order.
pub record Engine (F : Type 0) : Type 0 where
  pub buys : List (Level F)
  pub sells : List (Level F)
  pub order_map : OrderMap F
  pub next_match_id : ℕ
  pub trades_executed : ℕ
  pub trade_events_dropped : ℕ
  pub published : List (TradeEvent F)

unfoldable pub fresh : {F : Type 0} → Engine F
fresh = record {
  buys = [];
  sells = [];
  order_map = [];
  next_match_id = 0;
  trades_executed = 0;
  trade_events_dropped = 0;
  published = [];
}

-- `std::min`
abbrev pub min_int : ℕ → ℕ → ℕ
min_int a b = if ltb b a then b else a

-- The order at the front of a level after a trade: a filled one leaves the map and the level.
unfoldable pub settle :
    {F : Type 0} → ℕ → Order F → List (Order F) → OrderMap F → List (Order F) × OrderMap F
settle qty o orders entries =
    if o.quantity - qty == 0
    then erase_at (o ∷ orders) 0 (erase o.order_id entries)
    else (record o { quantity = o.quantity - qty } ∷ orders, entries)

-- The levels and the orders of one side.
unfoldable pub side_size : {F : Type 0} → List (Level F) → ℕ
side_size [] = 0
side_size (l ∷ levels) = suc (length l.orders) + side_size levels

module _ (fl : Floats) (clock : ℕ → ℕ) (publish : ℕ → Bool) where
  open fl use {F, lt}

  -- The price of the order that came first, and the times of the one that came last.
  unfoldable pub trade_of : ℕ → Order F → Order F → TradeEvent F
  trade_of match_id buy sell =
      let taker = if ltb sell.seq_no buy.seq_no then buy else sell in
      record {
        match_id = match_id;
        buy_order_id = buy.order_id;
        sell_order_id = sell.order_id;
        t0_ns = taker.t0;
        t1_ns = taker.t1;
        t2_ns = clock match_id;
        price = if ltb buy.seq_no sell.seq_no then buy.price else sell.price;
        qty = min_int buy.quantity sell.quantity;
      }

  -- `publish`, with the counters around it.
  unfoldable pub emit : TradeEvent F → Engine F → Engine F
  emit event e =
      let taken = publish event.match_id in
      record e {
        next_match_id = event.match_id;
        trades_executed = e.trades_executed + 1;
        trade_events_dropped = e.trade_events_dropped + (if taken then 0 else 1);
        published = if taken then e.published ++ event ∷ [] else e.published;
      }

  -- The body of the loop from the two orders at the front on.
  unfoldable pub execute :
      Engine F
      → F
      → Order F
      → List (Order F)
      → List (Level F)
      → F
      → Order F
      → List (Order F)
      → List (Level F)
      → Engine F
  unfolding trade_of emit settle
  execute e bid buy behind_buy lower ask sell behind_sell higher =
      let event = trade_of (e.next_match_id + 1) buy sell in
      let e' = emit event e in
      let (buy_level, entries) = settle event.qty buy behind_buy e.order_map in
      let (sell_level, entries') = settle event.qty sell behind_sell entries in
      record e' {
        buys = keep_level bid buy_level lower;
        sells = keep_level ask sell_level higher;
        order_map = entries';
      }

  -- A round of the loop behind its first test: two levels that should hold orders.
  unfoldable pub match_orders :
      Engine F
      → F
      → List (Order F)
      → List (Level F)
      → F
      → List (Order F)
      → List (Level F)
      → Engine F
  unfolding execute
  match_orders e bid (buy ∷ buys) lower ask (sell ∷ sells) higher =
      execute e bid buy buys lower ask sell sells higher
  match_orders e bid [] lower ask sells higher = record e {
    buys = lower;
    sells = keep_level ask sells higher;
  }
  match_orders e bid (buy ∷ buys) lower ask [] higher = record e {
    buys = keep_level bid (buy ∷ buys) lower;
    sells = higher;
  }

  -- A round of the loop; `none` is its end.
  unfoldable pub match_levels : Engine F → List (Level F) → List (Level F) → Option (Engine F)
  unfolding match_orders
  match_levels e [] sells = none
  match_levels e (b ∷ lower) [] = none
  match_levels e (b ∷ lower) (s ∷ higher) =
      if lt b.price s.price
      then none
      else some (match_orders e b.price b.orders lower s.price s.orders higher)

  unfoldable pub match_step : Engine F → Option (Engine F)
  unfolding match_levels
  match_step e = match_levels e e.buys e.sells

  -- The loop, for so many rounds at most.
  unfoldable pub match_rounds : ℕ → Engine F → Engine F
  unfolding match_step
  match_rounds zero e = e
  match_rounds (suc n) e = elim (match_step e) [ none ↦ e | some e' ↦ match_rounds n e' ]

  -- `matching`: a round takes an order or a level away.
  unfoldable pub matching : Engine F → Engine F
  unfolding match_rounds side_size
  matching e = match_rounds (side_size e.buys + side_size e.sells) e

  -- The two branches of `addOrder`.
  unfoldable pub place_buy : Order F → Engine F → Engine F
  place_buy o e = record e {
    buys = push_back (λ a b. lt b a) o.price o e.buys;
    order_map =
        assign o.order_id
          (record {
            is_buy = true;
            price = o.price;
            vector_index = level_size (λ a b. lt b a) o.price e.buys;
          })
          e.order_map;
  }

  unfoldable pub place_sell : Order F → Engine F → Engine F
  place_sell o e = record e {
    sells = push_back lt o.price o e.sells;
    order_map =
        assign o.order_id
          (record { is_buy = false; price = o.price; vector_index = level_size lt o.price e.sells })
          e.order_map;
  }

  unfoldable pub add_order : Order F → Engine F → Engine F
  unfolding place_buy place_sell matching
  add_order o e = matching (if o.is_buy then place_buy o e else place_sell o e)

  -- The orders that `processLoop` takes off its queue, in their order.
  unfoldable pub process : List (Order F) → Engine F → Engine F
  unfolding add_order
  process [] e = e
  process (o ∷ orders) e = process orders (add_order o e)

  -- `cancelOrder`
  unfoldable pub cancel_order : ℕ → Engine F → Engine F
  cancel_order order_id e = elim (find_order order_id e.order_map) [
    | none ↦ e
    | some at ↦
        let entries = erase order_id e.order_map in
        let bids = erase_from (λ a b. lt b a) at.price at.vector_index e.buys entries in
        let asks = erase_from lt at.price at.vector_index e.sells entries in
        if at.is_buy
        then record e { buys = bids.0; order_map = bids.1 }
        else record e { sells = asks.0; order_map = asks.1 }
  ]
