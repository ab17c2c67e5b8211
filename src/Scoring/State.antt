-- ===== src/Scoring/State.antt =====
-- telemetry/scoring_engine.py: `ContestantState`, the validator of one contestant's trade stream.
-- A reading of the monotonic clock is an argument of the method that makes it.
pub mod Legal
pub mod Window
use trade_plat.Common.{
  ℕ, ◌+◌, ◌∷◌, [], ◌++◌, List, Option, none, some, not, ◌&&◌, ◌||◌, ltb, leb, ◌==◌, if◌then◌else◌,
}
use trade_plat.Common.Floats.{Floats}
use trade_plat.Scoring.Event.{TradeEvent, engine_latency_ns}

-- The texts `CRITICAL_ERR: ...`, with the values that are formatted into them.
pub data Violation (F : Type 0) : Type 0 where
  match_sequence : (expected got : ℕ) → Violation F
  t2_retrograde zero_order_id self_match missing_timestamp : Violation F
  timestamp_order invalid_price invalid_qty : Violation F
  buy_priority sell_priority : (order : ℕ) (before now : F) → Violation F

-- The field `correctness`: the text `PASSED`, or that of a violation.
pub data Correctness (F : Type 0) : Type 0 where
  passed : Correctness F
  violated : Violation F → Correctness F

-- The dictionary `order_fills`.
abbrev pub Fills : Type 0
Fills = List (ℕ × ℕ)

-- `fills.get(order, 0)`
unfoldable pub filled : ℕ → Fills → ℕ
filled order [] = 0
filled order ((o, q) ∷ fills) = if o == order then q else filled order fills

-- `fills[order] = qty`
unfoldable pub set_fill : ℕ → ℕ → Fills → Fills
set_fill order qty [] = (order, qty) ∷ []
set_fill order qty ((o, q) ∷ fills) =
    if o == order then (order, qty) ∷ fills else (o, q) ∷ set_fill order qty fills

-- `fills[order] = fills.get(order, 0) + qty`
unfoldable pub add_fill : ℕ → ℕ → Fills → Fills
unfolding filled set_fill
add_fill order qty fills = set_fill order (filled order fills + qty) fills

pub record ContestantState (F : Type 0) : Type 0 where
  pub last_match_id : Option ℕ
  pub last_t2_ns : ℕ
  pub order_fills : Fills
  pub window_seconds : F
  pub samples : List (F × ℕ)
  pub correctness : Correctness F
  pub total_events : ℕ
  pub prev_event : Option (TradeEvent F)

-- `__init__`
unfoldable pub init : {F : Type 0} → F → ContestantState F
init window = record {
  last_match_id = none;
  last_t2_ns = 0;
  order_fills = [];
  window_seconds = window;
  samples = [];
  correctness = passed;
  total_events = 0;
  prev_event = none;
}

module _ (fl : Floats) where
  open fl use {F, lt, le, add, sub, of_int, decimal, is_finite}

  -- `PRICE_EPSILON = 1e-9`
  abbrev pub price_epsilon : F
  price_epsilon = decimal 1 9

  -- `check_price_priority` where there is a previous event.
  unfoldable pub compare_prices : TradeEvent F → TradeEvent F → Option (Violation F)
  compare_prices prev e =
      let same_buy = e.buy_order_id == prev.buy_order_id in
      let same_sell = e.sell_order_id == prev.sell_order_id in
      if same_buy && not same_sell && lt e.price (sub prev.price price_epsilon)
      then some (buy_priority e.buy_order_id prev.price e.price)
      else (if same_sell && not same_buy && lt (add prev.price price_epsilon) e.price
          then some (sell_priority e.sell_order_id prev.price e.price)
          else none)

  unfoldable pub check_price_priority : ContestantState F → TradeEvent F → Option (Violation F)
  unfolding compare_prices
  check_price_priority s e = elim s.prev_event [ none ↦ none | some prev ↦ compare_prices prev e ]

  -- The checks of `validate` behind the match sequence, in their order.
  unfoldable pub validate_fields : ContestantState F → TradeEvent F → Option (Violation F)
  unfolding check_price_priority
  validate_fields s e =
      if ltb e.t2_ns s.last_t2_ns
      then some t2_retrograde
      else (if e.buy_order_id == 0 || e.sell_order_id == 0
          then some zero_order_id
          else (if e.buy_order_id == e.sell_order_id
              then some self_match
              else (if e.t0_ns == 0 || e.t1_ns == 0 || e.t2_ns == 0
                  then some missing_timestamp
                  else (if ltb e.t1_ns e.t0_ns || ltb e.t2_ns e.t1_ns
                      then some timestamp_order
                      else (if not (is_finite e.price) || le e.price (of_int 0)
                          then some invalid_price
                          else (if leb e.qty 0
                              then some invalid_qty
                              else check_price_priority s e))))))

  unfoldable pub validate : ContestantState F → TradeEvent F → Option (Violation F)
  unfolding validate_fields
  validate s e = elim s.last_match_id [
    | none ↦ validate_fields s e
    | some m ↦
        if not (e.match_id == m + 1)
        then some (match_sequence (m + 1) e.match_id)
        else validate_fields s e
  ]

  -- The `while` of `prune`: samples leave at the front.
  unfoldable pub drop_stale : F → List (F × ℕ) → List (F × ℕ)
  drop_stale cutoff [] = []
  drop_stale cutoff ((t, latency) ∷ rest) =
      if lt t cutoff then drop_stale cutoff rest else (t, latency) ∷ rest

  unfoldable pub prune : F → ContestantState F → ContestantState F
  unfolding drop_stale
  prune now s = record s { samples = drop_stale (sub now s.window_seconds) s.samples }

  unfoldable pub accept : F → ContestantState F → TradeEvent F → ContestantState F
  unfolding prune add_fill
  accept now s e = prune now (record s {
    last_match_id = some e.match_id;
    last_t2_ns = e.t2_ns;
    prev_event = some e;
    order_fills = add_fill e.sell_order_id e.qty (add_fill e.buy_order_id e.qty s.order_fills);
    samples = s.samples ++ (now, engine_latency_ns e) ∷ [];
    total_events = s.total_events + 1;
  })
