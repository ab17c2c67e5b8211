-- ===== src/Engine/Stream/Trades.antt =====
-- All the trades of one order that comes in, and the side that it leaves.
use trade_plat.Common.{
  ℕ, ◌+◌, ◌-◌, ◌≤◌, ◌≡◌, ◌≢◌, refl, subst, List, [], ◌∷◌, Option, none, some, Bool, false, inl, inr,
  Bool-cases, ◌==◌, arith, All, All-imp, length,
}
use trade_plat.Common.Floats.{Floats, PriceOrder, Tolerance}
use trade_plat.Scoring.Event.{TradeEvent}
use trade_plat.Scoring.State.Legal.{WellFormed}
use trade_plat.Scoring.Feed.Stream.{ContinuesAfter, IsStream}
use trade_plat.Engine.Book.{Order}
use trade_plat.Engine.Matching.{min_int}
use trade_plat.Engine.Priority.{settled, better, fill_of, Walk, walk}
use trade_plat.Engine.Priority.Shelf.{settled-All}
use trade_plat.Engine.Priority.Kept.{AllLeft}
use trade_plat.Engine.Stream.{
  last_of, other_id, IsSound, IsStamped, Lined, KeptAfter, CountedTo, Dealt,
}
use trade_plat.Engine.Stream.Walk.{
  FairToAll, fill_of-WellFormed, fill_of-Fair, fill_of-own_id, better_self, settled-Lined,
  settled-IsSound, fair_behind,
}

module _ (fl : Floats) (order : PriceOrder fl) (tolerance : Tolerance fl) (clock : ℕ → ℕ)
    (later : (k : ℕ) → clock k ≤ clock (k + 1)) (publish : ℕ → Bool) (buying : Bool) where
  open fl use {F, lt}

  pub record Ready (m : ℕ) (prev : Option (TradeEvent F)) (o : Order F) (zs : List (Order F))
      : Type 0 where
    pub sound : IsSound fl o
    pub stamped : IsStamped fl o
    pub in_time : o.t1 ≤ clock (m + 1)
    pub lined : Lined fl buying zs
    pub all_sound : All (IsSound fl) zs
    pub distinct : All (λ z. z.order_id ≢ o.order_id) zs
    pub fair : FairToAll fl tolerance clock publish buying prev o zs
    pub kept : KeptAfter fl buying prev zs
    pub counted : CountedTo fl clock m prev

  pub record Done (m : ℕ) (prev : Option (TradeEvent F)) (o : Order F) (w : Walk F) : Type 0 where
    pub stream : IsStream fl prev w.trades
    pub lined : Lined fl buying w.facing
    pub all_sound : All (IsSound fl) w.facing
    pub left : AllLeft (λ k. IsSound fl k × (k.order_id ≡ o.order_id) × (k.price ≡ o.price)) w.left
    pub kept : KeptAfter fl buying (last_of prev w.trades) w.facing
    pub dealt : Dealt fl buying o prev (last_of prev w.trades)
    pub counted : CountedTo fl clock (m + length w.trades) (last_of prev w.trades)

  Done-stop :
      (m : ℕ) (prev : Option (TradeEvent F)) (o : Order F) (zs : List (Order F))
      → Ready m prev o zs
      → Done m prev o (record { left = some o; facing = zs; trades = [] })
  Done-stop m prev o zs r = record {
    stream = tt;
    lined = r.lined;
    all_sound = r.all_sound;
    left = (r.sound, refl, refl);
    kept = r.kept;
    dealt = inl refl;
    counted = subst (λ k. CountedTo fl clock k prev) (omega arith) r.counted;
  }

  -- The next trade, and what it leaves to hold for the orders behind.
  fill_continues :
      (m : ℕ) (prev : Option (TradeEvent F)) (o z : Order F) (zs : List (Order F))
      → Ready m prev o (z ∷ zs)
      → WellFormed fl (fill_of fl clock publish buying (m + 1) o z)
        × ContinuesAfter fl prev (fill_of fl clock publish buying (m + 1) o z)
  unfolding fill_of
  fill_continues m none o z zs r = (
    fill_of-WellFormed fl tolerance clock publish buying (m + 1) o z r.sound r.stamped r.all_sound.0
        r.distinct.0 r.in_time,
    tt,
  )
  fill_continues m (some p) o z zs r = (
    fill_of-WellFormed fl tolerance clock publish buying (m + 1) o z r.sound r.stamped r.all_sound.0
        r.distinct.0 r.in_time,
    record {
      next = omega (arith, r.counted.0);
      later = omega (arith, r.counted.1, later m);
      fair = fill_of-Fair fl tolerance clock publish buying (m + 1) p o z r.fair.0;
    },
  )

  Ready-next :
      (m : ℕ) (prev : Option (TradeEvent F)) (o z : Order F) (zs : List (Order F))
      → Ready m prev o (z ∷ zs)
      → (o.quantity - min_int o.quantity z.quantity == 0) ≡ false
      → Ready
          (m + 1)
          (some (fill_of fl clock publish buying (m + 1) o z))
          (record o { quantity = o.quantity - min_int o.quantity z.quantity })
          zs
  unfolding fill_of
  Ready-next m prev o z zs r left =
      let behind = fair_behind fl tolerance clock publish buying (m + 1) o z zs r.lined.0 in
      record {
        sound = record {
          named = r.sound.named;
          some_quantity = ground arith;
          priced = r.sound.priced;
        };
        stamped = record { stamped = r.stamped.stamped; in_order = r.stamped.in_order };
        in_time = omega (arith, r.in_time, later (m + 1));
        lined = r.lined.1;
        all_sound = r.all_sound.1;
        distinct = r.distinct.1;
        fair = behind;
        kept = All-imp _ _ (λ x h. h.0) zs behind;
        counted = (refl, refl);
      }

  Done-last :
      (m : ℕ) (prev : Option (TradeEvent F)) (o z : Order F) (zs : List (Order F))
      → Ready m prev o (z ∷ zs)
      → better fl buying o.price z.price ≡ false
      → Done m prev o (record {
        left = none;
        facing = settled (min_int o.quantity z.quantity) z zs;
        trades = fill_of fl clock publish buying (m + 1) o z ∷ [];
      })
  unfolding fill_of
  Done-last m prev o z zs r cross =
      let qty = min_int o.quantity z.quantity in
      let t = fill_of fl clock publish buying (m + 1) o z in
      let behind = fair_behind fl tolerance clock publish buying (m + 1) o z zs r.lined.0 in
      let (formed, continues) = fill_continues m prev o z zs r in
      record {
        stream = (formed, continues, tt);
        lined = settled-Lined fl buying qty z zs r.lined;
        all_sound = settled-IsSound fl qty z zs r.all_sound;
        left = tt;
        kept =
            settled-All
              (λ x. x.order_id ≡ other_id buying t → better fl buying t.price x.price ≡ false) qty z
              zs (λ e. better_self fl order buying z.price) (All-imp _ _ (λ x h. h.0) zs behind);
        dealt = inr (t, refl, fill_of-own_id fl clock publish buying (m + 1) o z, cross);
        counted = (refl, refl);
      }

  Done-next :
      (m : ℕ) (prev : Option (TradeEvent F)) (o z : Order F) (zs : List (Order F)) (w : Walk F)
      → Ready m prev o (z ∷ zs)
      → better fl buying o.price z.price ≡ false
      → Done
          (m + 1)
          (some (fill_of fl clock publish buying (m + 1) o z))
          (record o { quantity = o.quantity - min_int o.quantity z.quantity })
          w
      → Done m prev o (record w { trades = fill_of fl clock publish buying (m + 1) o z ∷ w.trades })
  unfolding fill_of
  Done-next m prev o z zs w r cross d =
      let t = fill_of fl clock publish buying (m + 1) o z in
      let (formed, continues) = fill_continues m prev o z zs r in
      record {
        stream = (formed, continues, d.stream);
        lined = d.lined;
        all_sound = d.all_sound;
        left = d.left;
        kept = d.kept;
        dealt = elim d.dealt [
          | inl e ↦ inr (t, e, fill_of-own_id fl clock publish buying (m + 1) o z, cross)
          | inr dealt ↦ inr dealt
        ];
        counted =
            subst (λ k. CountedTo fl clock k (last_of (some t) w.trades)) (omega arith) d.counted;
      }

  pub walk-Done :
      (m : ℕ) (prev : Option (TradeEvent F)) (o : Order F) (zs : List (Order F))
      → Ready m prev o zs
      → Done m prev o (walk fl clock publish buying m o zs)
  unfolding walk
  walk-Done m prev o [] r = Done-stop m prev o [] r
  walk-Done m prev o (z ∷ zs) r =
      let o' = record o { quantity = o.quantity - min_int o.quantity z.quantity } in
      let rest = walk-Done (m + 1) (some (fill_of fl clock publish buying (m + 1) o z)) o' zs in
      elim (Bool-cases (better fl buying o.price z.price)) [
        | inl e ↦ rw (e, walk) (Done-stop m prev o (z ∷ zs) r)
        | inr e ↦ elim (Bool-cases (o.quantity - min_int o.quantity z.quantity == 0)) [
          | inl g ↦ rw (e, g, walk) (Done-last m prev o z zs r e)
          | inr g ↦
              rw (e, g, walk) (Done-next m prev o z zs _ r e (rest (Ready-next m prev o z zs r g)))
        ]
      ]
