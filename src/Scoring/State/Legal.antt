-- ===== src/Scoring/State/Legal.antt =====
-- What `validate` checks, said without the order of its tests.
use trade_plat.Common.{
  ℕ, ◌+◌, ◌<◌, ◌≤◌, ◌≡◌, ◌≢◌, ◌↔◌, ◌∙◌, refl, Option, none, some, true, false, arith,
}
use trade_plat.Common.Floats.{Floats}
use trade_plat.Scoring.Event.{TradeEvent}
use trade_plat.Scoring.State.{
  ContestantState, price_epsilon, compare_prices, check_price_priority, validate_fields, validate,
}

-- The match number follows the last one, if there is one.
abbrev pub Follows : Option ℕ → ℕ → Type 0
Follows none m = Unit {0}
Follows (some l) m = m ≡ l + 1

module _ (fl : Floats) where
  open fl use {F, lt, le, add, sub, of_int, is_finite}

  -- No better price was passed over between two trades in a row of one order.
  pub record Fair (prev e : TradeEvent F) : Type 0 where
    pub buyer :
        e.buy_order_id ≡ prev.buy_order_id
        → e.sell_order_id ≢ prev.sell_order_id
        → lt e.price (sub prev.price (price_epsilon fl)) ≡ false
    pub seller :
        e.sell_order_id ≡ prev.sell_order_id
        → e.buy_order_id ≢ prev.buy_order_id
        → lt (add prev.price (price_epsilon fl)) e.price ≡ false

  abbrev pub FairAfter : Option (TradeEvent F) → TradeEvent F → Type 0
  FairAfter none e = Unit {0}
  FairAfter (some prev) e = Fair prev e

  pub record WellFormed (e : TradeEvent F) : Type 0 where
    pub buyer_named : 0 < e.buy_order_id
    pub seller_named : 0 < e.sell_order_id
    pub two_parties : e.buy_order_id ≢ e.sell_order_id
    pub stamped : 0 < e.t0_ns
    pub gateway_later : e.t0_ns ≤ e.t1_ns
    pub match_later : e.t1_ns ≤ e.t2_ns
    pub finite : is_finite e.price ≡ true
    pub positive : le e.price (of_int 0) ≡ false
    pub traded : 0 < e.qty

  pub record Legal (s : ContestantState F) (e : TradeEvent F) : Type 0 where
    pub in_sequence : Follows s.last_match_id e.match_id
    pub in_time : s.last_t2_ns ≤ e.t2_ns
    pub formed : WellFormed e
    pub fair : FairAfter s.prev_event e

  Fair-compare_prices : (prev e : TradeEvent F) → compare_prices fl prev e ≡ none → Fair prev e
  unfolding compare_prices
  Fair-compare_prices prev e h = record {
    buyer = λ p q. ground arith;
    seller = λ p q. ground arith;
  }

  compare_prices-Fair : (prev e : TradeEvent F) → Fair prev e → compare_prices fl prev e ≡ none
  unfolding compare_prices
  compare_prices-Fair prev e f = ground (arith, f.buyer, f.seller)

  FairAfter-check :
      (s : ContestantState F) (e : TradeEvent F) (p : Option (TradeEvent F))
      → s.prev_event ≡ p
      → check_price_priority fl s e ≡ none
      → FairAfter p e
  unfolding check_price_priority
  FairAfter-check s e none h c = tt
  FairAfter-check s e (some prev) h c = Fair-compare_prices prev e (ground arith)

  check-FairAfter :
      (s : ContestantState F) (e : TradeEvent F) (p : Option (TradeEvent F))
      → s.prev_event ≡ p
      → FairAfter p e
      → check_price_priority fl s e ≡ none
  unfolding check_price_priority
  check-FairAfter s e none h f = ground arith
  check-FairAfter s e (some prev) h f = ground (arith, compare_prices-Fair prev e f)

  validate_fields-WellFormed :
      (s : ContestantState F) (e : TradeEvent F)
      → validate_fields fl s e ≡ none
      → (s.last_t2_ns ≤ e.t2_ns) × WellFormed e × (check_price_priority fl s e ≡ none)
  unfolding validate_fields
  validate_fields-WellFormed s e h = ground arith

  WellFormed-validate_fields :
      (s : ContestantState F) (e : TradeEvent F)
      → s.last_t2_ns ≤ e.t2_ns
      → WellFormed e
      → validate_fields fl s e ≡ check_price_priority fl s e
  unfolding validate_fields
  WellFormed-validate_fields s e h w = ground arith

  validate-Follows :
      (s : ContestantState F) (e : TradeEvent F) (l : Option ℕ)
      → s.last_match_id ≡ l
      → validate fl s e ≡ none
      → Follows l e.match_id × (validate_fields fl s e ≡ none)
  unfolding validate
  validate-Follows s e none p h = (tt, ground arith)
  validate-Follows s e (some m) p h = ground arith

  Follows-validate :
      (s : ContestantState F) (e : TradeEvent F) (l : Option ℕ)
      → s.last_match_id ≡ l
      → Follows l e.match_id
      → validate fl s e ≡ validate_fields fl s e
  unfolding validate
  Follows-validate s e none p h = ground arith
  Follows-validate s e (some m) p h = ground arith

  validate-Legal : (s : ContestantState F) (e : TradeEvent F) → validate fl s e ≡ none → Legal s e
  validate-Legal s e h =
      let (follows, fields) = validate-Follows s e s.last_match_id refl h in
      let (in_time, formed, priority) = validate_fields-WellFormed s e fields in
      record {
        in_sequence = follows;
        in_time = in_time;
        formed = formed;
        fair = FairAfter-check s e s.prev_event refl priority;
      }

  Legal-validate : (s : ContestantState F) (e : TradeEvent F) → Legal s e → validate fl s e ≡ none
  Legal-validate s e v =
      Follows-validate s e s.last_match_id refl v.in_sequence
      ∙ WellFormed-validate_fields s e v.in_time v.formed
      ∙ check-FairAfter s e s.prev_event refl v.fair

  -- `validate` reports no violation of a trade exactly if its match number follows the last one,
  -- its match time is no earlier than the last one, its fields are well formed, and it passes
  -- over no better price of an order that it shares with the previous trade. Its times t0, t1 and
  -- t2 have to be above zero and in this order, where equal ones are accepted.
  pub validate-eq-none_iff :
      (s : ContestantState F) (e : TradeEvent F) → (validate fl s e ≡ none) ↔ Legal s e
  validate-eq-none_iff s e = (validate-Legal s e, Legal-validate s e)
