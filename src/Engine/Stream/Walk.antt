-- ===== src/Engine/Stream/Walk.antt =====
-- The trades of one order that comes in.
use trade_plat.Common.{
  ℕ, ◌-◌, ◌≤◌, ◌<◌, ◌≡◌, ◌≢◌, ◌∙◌, refl, sym, List, [], ◌∷◌, Option, none, some, Bool, true, false,
  inl, inr, Bool-cases, ◌==◌, arith, All,
}
use trade_plat.Common.Floats.{Floats, PriceOrder, Tolerance}
use trade_plat.Scoring.Event.{TradeEvent}
use trade_plat.Scoring.State.Legal.{WellFormed, Fair}
use trade_plat.Engine.Book.{Order}
use trade_plat.Engine.Matching.{min_int}
use trade_plat.Engine.Priority.{settled, better, fill_of}
use trade_plat.Engine.Stream.{own_id, other_id, IsSound, IsStamped, Lined}

min_int_pos : (a b : ℕ) → 0 < a → 0 < b → 0 < min_int a b
min_int_pos a b h g = ground arith

module _ (fl : Floats) (tolerance : Tolerance fl) (clock : ℕ → ℕ) (publish : ℕ → Bool)
    (buying : Bool) where
  open fl use {F, lt}
  open tolerance use {lt-sub, add-lt}

  -- The trade before is fair to an order that waits, and so is a trade of `o` with it next.
  abbrev pub FairTo : TradeEvent F → Order F → Order F → Type 0
  FairTo p o z =
      (z.order_id ≡ other_id buying p → better fl buying p.price z.price ≡ false)
      × (o.order_id ≡ own_id buying p → better fl buying z.price p.price ≡ false)

  abbrev pub FairToAll : Option (TradeEvent F) → Order F → List (Order F) → Type 0
  FairToAll none o zs = Unit {0}
  FairToAll (some p) o zs = All (FairTo p o) zs

module _ (fl : Floats) (clock : ℕ → ℕ) (publish : ℕ → Bool) where
  open fl use {F}

  pub fill_of-own_id :
      (buying : Bool) (m : ℕ) (o z : Order F)
      → own_id buying (fill_of fl clock publish buying m o z) ≡ o.order_id
  unfolding fill_of
  fill_of-own_id true m o z = refl
  fill_of-own_id false m o z = refl

  pub fill_of-other_id :
      (buying : Bool) (m : ℕ) (o z : Order F)
      → other_id buying (fill_of fl clock publish buying m o z) ≡ z.order_id
  unfolding fill_of
  fill_of-other_id true m o z = refl
  fill_of-other_id false m o z = refl

module _ (fl : Floats) where
  open fl use {F}

  pub better_self : (order : PriceOrder fl) (buying : Bool) (a : F) → better fl buying a a ≡ false
  better_self order true a = order.lt_irrefl a
  better_self order false a = order.lt_irrefl a

  pub settled-Lined :
      (buying : Bool) (qty : ℕ) (z : Order F) (zs : List (Order F))
      → Lined fl buying (z ∷ zs)
      → Lined fl buying (settled qty z zs)
  settled-Lined buying qty z zs h = elim (Bool-cases (z.quantity - qty == 0)) [
    | inl e ↦ rw e h.1
    | inr e ↦ rw e h
  ]

  pub settled-IsSound :
      (qty : ℕ) (z : Order F) (zs : List (Order F))
      → All (IsSound fl) (z ∷ zs)
      → All (IsSound fl) (settled qty z zs)
  settled-IsSound qty z zs (h, hs) = elim (Bool-cases (z.quantity - qty == 0)) [
    | inl e ↦ rw e hs
    | inr e ↦
        let left : 0 < z.quantity - qty = ground arith in
        rw e (record { named = h.named; some_quantity = left; priced = h.priced }, hs)
  ]

module _ (fl : Floats) (tolerance : Tolerance fl) (clock : ℕ → ℕ) (publish : ℕ → Bool) where
  open fl use {F, lt}
  open tolerance use {lt-sub, add-lt}

  pub fill_of-WellFormed :
      (buying : Bool) (m : ℕ) (o z : Order F)
      → IsSound fl o
      → IsStamped fl o
      → IsSound fl z
      → z.order_id ≢ o.order_id
      → o.t1 ≤ clock m
      → WellFormed fl (fill_of fl clock publish buying m o z)
  unfolding fill_of
  fill_of-WellFormed true m o z s t w d h = record {
    buyer_named = s.named;
    seller_named = w.named;
    two_parties = λ e. d (sym e);
    stamped = t.stamped;
    gateway_later = t.in_order;
    match_later = h;
    finite = w.priced.0;
    positive = w.priced.1;
    traded = min_int_pos o.quantity z.quantity s.some_quantity w.some_quantity;
  }
  fill_of-WellFormed false m o z s t w d h = record {
    buyer_named = w.named;
    seller_named = s.named;
    two_parties = d;
    stamped = t.stamped;
    gateway_later = t.in_order;
    match_later = h;
    finite = w.priced.0;
    positive = w.priced.1;
    traded = min_int_pos o.quantity z.quantity s.some_quantity w.some_quantity;
  }

  pub fill_of-Fair :
      (buying : Bool) (m : ℕ) (p : TradeEvent F) (o z : Order F)
      → FairTo fl tolerance clock publish buying p o z
      → Fair fl p (fill_of fl clock publish buying m o z)
  unfolding fill_of
  fill_of-Fair true m p o z (waits, trades) = record {
    buyer = λ e d. lt-sub z.price p.price (trades e);
    seller = λ e d. add-lt z.price p.price (waits e);
  }
  fill_of-Fair false m p o z (waits, trades) = record {
    buyer = λ e d. lt-sub z.price p.price (waits e);
    seller = λ e d. add-lt z.price p.price (trades e);
  }

  -- An order behind the one that trades is no worse served by the trade.
  pub fair_behind :
      (buying : Bool) (m : ℕ) (o z : Order F) (zs : List (Order F))
      → All (λ x. (better fl buying x.price z.price ≡ false) × (x.order_id ≢ z.order_id)) zs
      → All (FairTo fl tolerance clock publish buying (fill_of fl clock publish buying m o z) o) zs
  unfolding fill_of
  fair_behind buying m o z [] h = tt
  fair_behind buying m o z (x ∷ zs) (first, others) = (
    (λ e. elim (first.1 (e ∙ fill_of-other_id fl clock publish buying m o z)) [ ], λ e. first.0),
    fair_behind buying m o z zs others,
  )
