-- ===== src/Tests/Engine.antt =====
-- The matching engine on five orders, two of which trade.
use trade_plat.Common.{ℕ, ◌+◌, ◌≤◌, ◌≡◌, refl, List, [], ◌∷◌, none, Bool, true, false, arith}
use trade_plat.Common.Floats.{IsPrice}
use trade_plat.Scoring.State.{init}
use trade_plat.Scoring.Feed.{feed}
use trade_plat.Engine.Book.{Order}
use trade_plat.Engine.Matching.{Engine, fresh, match_step, matching, process}
use trade_plat.Engine.Matching.Rest.{matching-rest}
use trade_plat.Engine.Priority.{empty, view, Arriving, submit_all}
use trade_plat.Engine.Priority.Refinement.{IsBook, process-submit_all}
use trade_plat.Engine.Priority.Cancelled.{
  Command, submitted, cancelled, Entering, obey_all, obey_all-IsBook,
}
use trade_plat.Engine.Stream.{IsOrder, IsOrderly}
use trade_plat.Engine.Stream.Accepted.{InTime, engine-accepted}
use trade_plat.Tests.Fixed.{Fixed, units, fixed, fixed_prices, fixed_tolerance}

abbrev order : (order_id quantity : ℕ) → Bool → (price seq_no : ℕ) → Order Fixed
order order_id quantity is_buy price seq_no = record {
  order_id = order_id;
  quantity = quantity;
  is_buy = is_buy;
  price = units price;
  t0 = 3;
  t1 = 4;
  seq_no = seq_no;
}

abbrev orders : List (Order Fixed)
orders =
    order 11 10 false 100 1
    ∷ order 12 5 false 99 2
    ∷ order 13 7 true 100 3
    ∷ order 14 4 true 98 4
    ∷ order 15 9 false 97 5
    ∷ []

abbrev clock : ℕ → ℕ
clock k = 1_000 + k

abbrev takes_all : ℕ → Bool
takes_all k = true

later : (k : ℕ) → clock k ≤ clock (k + 1)
later k = omega arith

-- A crossed book with an empty level, which no run of the engine leaves.
abbrev crossed : Engine Fixed
crossed = record {
  buys =
      record { price = units 9; orders = [] }
      ∷ record { price = units 8; orders = order 1 2 true 8 1 ∷ [] }
      ∷ [];
  sells = record { price = units 7; orders = order 2 3 false 7 2 ∷ [] } ∷ [];
  order_map = [];
  next_match_id = 0;
  trades_executed = 0;
  trade_events_dropped = 0;
  published = [];
}

matching-rest_example :
    match_step fixed clock takes_all (matching fixed clock takes_all crossed) ≡ none
matching-rest_example = matching-rest fixed clock takes_all crossed

units-IsPrice : (n : ℕ) → 1 ≤ n → IsPrice fixed (units n)
units-IsPrice n h = ground arith

orders_Arriving : Arriving fixed orders
orders_Arriving = (
  units-IsPrice 100 (omega arith),
  omega arith,
  (
    units-IsPrice 99 (omega arith),
    omega arith,
    (
      units-IsPrice 100 (omega arith),
      omega arith,
      (units-IsPrice 98 (omega arith), omega arith, (units-IsPrice 97 (omega arith), tt, tt)),
    ),
  ),
)

process-submit_all_example :
    view (process fixed clock takes_all orders fresh)
    ≡ submit_all fixed clock takes_all orders empty
process-submit_all_example =
    process-submit_all fixed fixed_prices clock takes_all orders orders_Arriving

-- The cancels name an order that rests and one that has never been there.
abbrev commands : List (Command Fixed)
commands =
    submitted (order 11 10 false 100 1)
    ∷ submitted (order 12 5 false 99 2)
    ∷ cancelled 12
    ∷ submitted (order 13 7 true 100 3)
    ∷ cancelled 99
    ∷ []

commands-Entering : Entering fixed commands
commands-Entering = (
  units-IsPrice 100 (omega arith),
  omega arith,
  (units-IsPrice 99 (omega arith), omega arith, (units-IsPrice 100 (omega arith), omega arith, tt)),
)

obey_all-IsBook_example :
    IsBook fixed fixed_prices clock takes_all
      (obey_all fixed fixed_prices clock takes_all commands fresh)
obey_all-IsBook_example =
    obey_all-IsBook fixed fixed_prices clock takes_all commands commands-Entering

order-IsOrder :
    (order_id quantity : ℕ) (is_buy : Bool) (price seq_no : ℕ)
    → 1 ≤ order_id
    → 1 ≤ quantity
    → 1 ≤ price
    → IsOrder fixed (order order_id quantity is_buy price seq_no)
order-IsOrder order_id quantity is_buy price seq_no i q p = record {
  sound = record { named = i; some_quantity = q; priced = units-IsPrice price p };
  stamped = record { stamped = omega arith; in_order = omega arith };
}

orders_IsOrderly : IsOrderly fixed orders
orders_IsOrderly = (
  order-IsOrder 11 10 false 100 1 (omega arith) (omega arith) (omega arith),
  omega arith,
  omega arith,
  (
    order-IsOrder 12 5 false 99 2 (omega arith) (omega arith) (omega arith),
    omega arith,
    omega arith,
    (
      order-IsOrder 13 7 true 100 3 (omega arith) (omega arith) (omega arith),
      omega arith,
      omega arith,
      (
        order-IsOrder 14 4 true 98 4 (omega arith) (omega arith) (omega arith),
        omega arith,
        omega arith,
        (order-IsOrder 15 9 false 97 5 (omega arith) (omega arith) (omega arith), tt, tt, tt),
      ),
    ),
  ),
)

orders_InTime : InTime fixed clock takes_all orders fresh
orders_InTime = (omega arith, (omega arith, (omega arith, (omega arith, (omega arith, tt)))))

engine-accepted_example :
    (feed fixed
      (λ k. units k)
      0
      (init (units 5))
      (process fixed clock takes_all orders fresh).published).1
    ≡ none
engine-accepted_example =
    engine-accepted fixed fixed_prices fixed_tolerance clock later takes_all (λ k. refl) orders
      (λ k. units k) 0 (units 5) orders_IsOrderly orders_InTime
