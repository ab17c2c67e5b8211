-- ===== src/Engine/Stream/Fair.antt =====
-- The market after an order: its sides in line, and its trades a stream.
use trade_plat.Common.{
  ℕ, ◌+◌, ◌≤◌, ◌≡◌, ◌≢◌, refl, sym, ap, subst, List, [], ◌∷◌, ◌++◌, Option, none, some, Bool, true,
  false, not, All, All-imp, length,
}
use trade_plat.Common.Floats.{Floats, PriceOrder, Tolerance}
use trade_plat.Scoring.Event.{TradeEvent}
use trade_plat.Scoring.Feed.Stream.{IsStream}
use trade_plat.Engine.Book.{Order}
use trade_plat.Engine.Priority.{Market, better, walk, join, taken}
use trade_plat.Engine.Priority.Kept.{AllLeft, join-All}
use trade_plat.Engine.Stream.{last_of, IsSound, Lined, KeptAfter, CountedTo, WithOthers, IsOrder}
use trade_plat.Engine.Stream.Walk.{FairToAll}
use trade_plat.Engine.Stream.Trades.{walk-Done}
use trade_plat.Engine.Stream.Waiting.{not_own, join-Lined, join-KeptAfter}

module _ {F : Type 0} where
  pub last_of-append :
      (prev : Option (TradeEvent F)) (xs ys : List (TradeEvent F))
      → last_of prev (xs ++ ys) ≡ last_of (last_of prev xs) ys
  last_of-append prev [] ys = refl
  last_of-append prev (x ∷ xs) ys = last_of-append (some x) xs ys

  AllLeft-imp :
      (P Q : Order F → Type 0)
      → ((k : Order F) → P k → Q k)
      → (left : Option (Order F)) → AllLeft P left
      → AllLeft Q left
  AllLeft-imp P Q f none h = tt
  AllLeft-imp P Q f (some k) h = f k h

pub last_of-WithOthers :
    (fl : Floats) (id : ℕ) (prev : Option (TradeEvent fl.F)) (ts : List (TradeEvent fl.F))
    → WithOthers fl id prev
    → All (λ t. (t.buy_order_id ≢ id) × (t.sell_order_id ≢ id)) ts
    → WithOthers fl id (last_of prev ts)
last_of-WithOthers fl id prev [] h g = h
last_of-WithOthers fl id prev (t ∷ ts) h (g, gs) = last_of-WithOthers fl id (some t) ts g gs

IsStream-append :
    (fl : Floats) (prev : Option (TradeEvent fl.F)) (xs ys : List (TradeEvent fl.F))
    → IsStream fl prev xs
    → IsStream fl (last_of prev xs) ys
    → IsStream fl prev (xs ++ ys)
IsStream-append fl prev [] ys h g = g
IsStream-append fl prev (x ∷ xs) ys (formed, continues, h) g =
    (formed, continues, IsStream-append fl (some x) xs ys h g)

module _ (fl : Floats) (order : PriceOrder fl) (tolerance : Tolerance fl) (clock : ℕ → ℕ)
    (later : (k : ℕ) → clock k ≤ clock (k + 1)) (publish : ℕ → Bool)
    (takes : (k : ℕ) → publish k ≡ true) where
  open fl use {F}

  pub taken_all : (ts : List (TradeEvent F)) → taken fl clock publish ts ≡ ts
  unfolding taken
  taken_all [] = refl
  taken_all (t ∷ ts) = rw (takes t.match_id, taken) (ap (λ us. t ∷ us) (taken_all ts))

  -- The sides are in line and fair to the last trade, which has the last match number.
  pub record IsFair (matches : ℕ) (bids asks : List (Order F)) (trades : List (TradeEvent F))
      : Type 0 where
    pub bids_lined : Lined fl false bids
    pub asks_lined : Lined fl true asks
    pub bids_sound : All (IsSound fl) bids
    pub asks_sound : All (IsSound fl) asks
    pub bids_kept : KeptAfter fl false (last_of none trades) bids
    pub asks_kept : KeptAfter fl true (last_of none trades) asks
    pub counted : CountedTo fl clock matches (last_of none trades)
    pub stream : IsStream fl none trades

  abbrev pub IsFairMarket : Market F → Type 0
  IsFairMarket k = IsFair k.matches k.bids k.asks k.published

  -- No order of the market has the id, and the last trade does not name it.
  pub record Unused (id : ℕ) (k : Market F) : Type 0 where
    pub bids : All (λ z. z.order_id ≢ id) k.bids
    pub asks : All (λ z. z.order_id ≢ id) k.asks
    pub last : WithOthers fl id (last_of none k.published)

  FairToAll-fresh :
      (buying : Bool) (o : Order F) (prev : Option (TradeEvent F)) (zs : List (Order F))
      → KeptAfter fl buying prev zs
      → WithOthers fl o.order_id prev
      → FairToAll fl tolerance clock publish buying prev o zs
  FairToAll-fresh buying o none zs h g = tt
  FairToAll-fresh buying o (some p) zs h g =
      All-imp _ _ (λ z kept. (kept, λ e. elim (not_own fl order buying o.order_id p g (sym e)) [ ]))
        zs h

  -- What is known of a side that an order faces, and of its own, as long as it comes in.
  pub record Comes (buying : Bool) (o : Order F) (matches : ℕ) (own facing : List (Order F))
      (trades : List (TradeEvent F)) : Type 0 where
    pub sound : IsOrder fl o
    pub in_time : o.t1 ≤ clock (matches + 1)
    pub own_lined : Lined fl (not buying) own
    pub own_sound : All (IsSound fl) own
    pub own_kept : KeptAfter fl (not buying) (last_of none trades) own
    pub own_others : All (λ z. z.order_id ≢ o.order_id) own
    pub facing_lined : Lined fl buying facing
    pub facing_sound : All (IsSound fl) facing
    pub facing_kept : KeptAfter fl buying (last_of none trades) facing
    pub facing_others : All (λ z. z.order_id ≢ o.order_id) facing
    pub last : WithOthers fl o.order_id (last_of none trades)
    pub counted : CountedTo fl clock matches (last_of none trades)
    pub stream : IsStream fl none trades

  -- And of both sides when it has traded.
  pub record Settles (buying : Bool) (matches : ℕ) (own facing : List (Order F))
      (trades : List (TradeEvent F)) : Type 0 where
    pub own_lined : Lined fl (not buying) own
    pub facing_lined : Lined fl buying facing
    pub own_sound : All (IsSound fl) own
    pub facing_sound : All (IsSound fl) facing
    pub own_kept : KeptAfter fl (not buying) (last_of none trades) own
    pub facing_kept : KeptAfter fl buying (last_of none trades) facing
    pub counted : CountedTo fl clock matches (last_of none trades)
    pub stream : IsStream fl none trades

  pub Comes-Settles :
      (buying : Bool) (o : Order F) (m : ℕ) (own facing : List (Order F)) (ts : List (TradeEvent F))
      → Comes buying o m own facing ts
      → Settles buying
          (m + length (walk fl clock publish buying m o facing).trades)
          (join (better fl (not buying)) (walk fl clock publish buying m o facing).left own)
          (walk fl clock publish buying m o facing).facing
          (ts ++ taken fl clock publish (walk fl clock publish buying m o facing).trades)
  Comes-Settles buying o m own facing ts c =
      let prev = last_of none ts in
      let w = walk fl clock publish buying m o facing in
      let d = walk-Done fl order tolerance clock later publish buying m prev o facing record {
        sound = c.sound.sound;
        stamped = c.sound.stamped;
        in_time = c.in_time;
        lined = c.facing_lined;
        all_sound = c.facing_sound;
        distinct = c.facing_others;
        fair = FairToAll-fresh buying o prev facing c.facing_kept c.last;
        kept = c.facing_kept;
        counted = c.counted;
      } in
      let last = last_of-append none ts w.trades in
      rw (taken_all w.trades) record {
        own_lined =
            join-Lined fl order (not buying) o w.left own
              (AllLeft-imp _ _ (λ k h. h.1) w.left d.left) c.own_lined c.own_others;
        facing_lined = d.lined;
        own_sound =
            join-All (better fl (not buying)) (IsSound fl) w.left own
              (AllLeft-imp _ _ (λ k h. h.0) w.left d.left) c.own_sound;
        facing_sound = d.all_sound;
        own_kept =
            subst (λ p. KeptAfter fl (not buying) p (join (better fl (not buying)) w.left own))
              (sym last)
              (join-KeptAfter fl order buying (better fl (not buying)) o prev _ w.left own d.dealt
                c.own_kept c.last c.own_others (AllLeft-imp _ _ (λ k h. (h.1, h.2)) w.left d.left));
        facing_kept = subst (λ p. KeptAfter fl buying p w.facing) (sym last) d.kept;
        counted = subst (CountedTo fl clock (m + length w.trades)) (sym last) d.counted;
        stream = IsStream-append fl none ts w.trades c.stream d.stream;
      }
