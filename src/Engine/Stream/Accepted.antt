-- ===== src/Engine/Stream/Accepted.antt =====
-- The engine and the scoring engine together: the trades of a fair engine pass the validator.
use trade_plat.Common.{
  ℕ, ◌+◌, ◌-◌, ◌≤◌, ◌≡◌, ◌≢◌, sym, subst, List, [], ◌∷◌, none, Bool, true, false, inl, inr,
  Bool-cases, ◌==◌, All,
}
use trade_plat.Common.Floats.{Floats, PriceOrder, Tolerance}
use trade_plat.Scoring.State.{init}
use trade_plat.Scoring.Feed.{feed}
use trade_plat.Scoring.Feed.Stream.{IsStream, feed-eq-none_iff}
use trade_plat.Engine.Book.{Order}
use trade_plat.Engine.Matching.{Engine, fresh, min_int, add_order, process}
use trade_plat.Engine.Priority.{
  flat, Market, view, better, fill_of, walk, submit_buy, submit_sell, submit,
}
use trade_plat.Engine.Priority.Refinement.{
  IsBook, Before, submit-buyer, submit-seller, add_order-Follows, submit-Before-All, fresh-Before,
}
use trade_plat.Engine.Priority.Kept.{join-All, walk-All}
use trade_plat.Engine.Stream.{IsOrder, IsOrderly}
use trade_plat.Engine.Stream.Fair.{
  last_of-append, last_of-WithOthers, taken_all, IsFairMarket, Unused, Comes-Settles,
}

-- Each order has passed the gateway before the next match that its engine can make.
abbrev pub InTime :
    (fl : Floats) (clock : ℕ → ℕ) (publish : ℕ → Bool) → List (Order fl.F) → Engine fl.F → Type 0
InTime fl clock publish [] e = Unit {0}
InTime fl clock publish (o ∷ orders) e =
    (o.t1 ≤ clock (e.next_match_id + 1))
    × InTime fl clock publish orders (add_order fl clock publish o e)

module _ (fl : Floats) (order : PriceOrder fl) (tolerance : Tolerance fl) (clock : ℕ → ℕ)
    (later : (k : ℕ) → clock k ≤ clock (k + 1)) (publish : ℕ → Bool)
    (takes : (k : ℕ) → publish k ≡ true) where
  open fl use {F}

  abbrev Fairly : Market F → Type 0
  Fairly k = IsFairMarket fl order tolerance clock later publish takes k

  abbrev NotUsed : ℕ → Market F → Type 0
  NotUsed id k = Unused fl order tolerance clock later publish takes id k

  submit-Fairly :
      (o : Order F) (k : Market F)
      → IsOrder fl o
      → o.t1 ≤ clock (k.matches + 1)
      → Fairly k
      → NotUsed o.order_id k
      → Fairly (submit fl clock publish o k)
  unfolding submit_buy submit_sell
  submit-Fairly o k h t f u = elim (Bool-cases o.is_buy) [
    | inl buy ↦
        let s =
          Comes-Settles fl order tolerance clock later publish takes true o k.matches k.bids k.asks
            k.published
            (record {
              sound = h;
              in_time = t;
              own_lined = f.bids_lined;
              own_sound = f.bids_sound;
              own_kept = f.bids_kept;
              own_others = u.bids;
              facing_lined = f.asks_lined;
              facing_sound = f.asks_sound;
              facing_kept = f.asks_kept;
              facing_others = u.asks;
              last = u.last;
              counted = f.counted;
              stream = f.stream;
            }) in
        subst Fairly (sym (submit-buyer fl order clock publish o k buy)) record {
          bids_lined = s.own_lined;
          asks_lined = s.facing_lined;
          bids_sound = s.own_sound;
          asks_sound = s.facing_sound;
          bids_kept = s.own_kept;
          asks_kept = s.facing_kept;
          counted = s.counted;
          stream = s.stream;
        }
    | inr sell ↦
        let s =
          Comes-Settles fl order tolerance clock later publish takes false o k.matches k.asks k.bids
            k.published
            (record {
              sound = h;
              in_time = t;
              own_lined = f.asks_lined;
              own_sound = f.asks_sound;
              own_kept = f.asks_kept;
              own_others = u.asks;
              facing_lined = f.bids_lined;
              facing_sound = f.bids_sound;
              facing_kept = f.bids_kept;
              facing_others = u.bids;
              last = u.last;
              counted = f.counted;
              stream = f.stream;
            }) in
        subst Fairly (sym (submit-seller fl order clock publish o k sell)) record {
          bids_lined = s.facing_lined;
          asks_lined = s.own_lined;
          bids_sound = s.facing_sound;
          asks_sound = s.own_sound;
          bids_kept = s.facing_kept;
          asks_kept = s.own_kept;
          counted = s.counted;
          stream = s.stream;
        }
  ]

  fill_of-others :
      (buying : Bool) (m id : ℕ) (o z : Order F)
      → o.order_id ≢ id
      → z.order_id ≢ id
      → ((fill_of fl clock publish buying m o z).buy_order_id ≢ id)
        × ((fill_of fl clock publish buying m o z).sell_order_id ≢ id)
  unfolding fill_of
  fill_of-others true m id o z h g = (h, g)
  fill_of-others false m id o z h g = (g, h)

  -- The trades of an order name it and the orders that it faces.
  walk-others :
      (buying : Bool) (id m : ℕ) (o : Order F) (zs : List (Order F))
      → o.order_id ≢ id
      → All (λ z. z.order_id ≢ id) zs
      → All
          (λ t. (t.buy_order_id ≢ id) × (t.sell_order_id ≢ id))
          (walk fl clock publish buying m o zs).trades
  unfolding walk
  walk-others buying id m o [] h g = tt
  walk-others buying id m o (z ∷ zs) h (g, gs) =
      let qty = min_int o.quantity z.quantity in
      let rest = walk-others buying id (m + 1) (record o { quantity = o.quantity - qty }) zs h gs in
      let first = fill_of-others buying (m + 1) id o z h g in
      elim (Bool-cases (better fl buying o.price z.price)) [
        | inl e ↦ rw (e, walk) tt
        | inr e ↦ elim (Bool-cases (o.quantity - qty == 0)) [
          | inl f ↦ rw (e, f, walk) (first, tt)
          | inr f ↦ rw (e, f, walk) (first, rest)
        ]
      ]

  submit-NotUsed :
      (id : ℕ) (o : Order F) (k : Market F)
      → o.order_id ≢ id
      → NotUsed id k
      → NotUsed id (submit fl clock publish o k)
  unfolding submit_buy submit_sell
  submit-NotUsed id o k h u =
      let P = λ (z : Order F). z.order_id ≢ id in
      elim (Bool-cases o.is_buy) [
        | inl buy ↦
            let w = walk-All fl clock publish true P (λ x q p. p) k.matches o k.asks h u.asks in
            let ts = (walk fl clock publish true k.matches o k.asks).trades in
            subst (NotUsed id) (sym (submit-buyer fl order clock publish o k buy)) record {
              bids = join-All (better fl false) P _ k.bids w.0 u.bids;
              asks = w.1;
              last =
                  rw
                    (
                      taken_all fl order tolerance clock later publish takes ts,
                      last_of-append none k.published ts,
                    )
                    (last_of-WithOthers fl id _ ts u.last
                      (walk-others true id k.matches o k.asks h u.asks));
            }
        | inr sell ↦
            let w = walk-All fl clock publish false P (λ x q p. p) k.matches o k.bids h u.bids in
            let ts = (walk fl clock publish false k.matches o k.bids).trades in
            subst (NotUsed id) (sym (submit-seller fl order clock publish o k sell)) record {
              bids = w.1;
              asks = join-All (better fl true) P _ k.asks w.0 u.asks;
              last =
                  rw
                    (
                      taken_all fl order tolerance clock later publish takes ts,
                      last_of-append none k.published ts,
                    )
                    (last_of-WithOthers fl id _ ts u.last
                      (walk-others false id k.matches o k.bids h u.bids));
            }
      ]

  submit-NotUsed-All :
      (orders : List (Order F)) (o : Order F) (k : Market F)
      → All (λ p. p.order_id ≢ o.order_id) orders
      → All (λ p. NotUsed p.order_id k) orders
      → All (λ p. NotUsed p.order_id (submit fl clock publish o k)) orders
  submit-NotUsed-All [] o k h u = tt
  submit-NotUsed-All (p ∷ orders) o k (h, hs) (u, us) =
      (submit-NotUsed p.order_id o k (λ e. h (sym e)) u, submit-NotUsed-All orders o k hs us)

  process-IsStream :
      (orders : List (Order F)) (e : Engine F)
      → IsBook fl order clock publish e
      → All (λ o. Before o.seq_no (view e)) orders
      → All (λ o. NotUsed o.order_id (view e)) orders
      → Fairly (view e)
      → IsOrderly fl orders
      → InTime fl clock publish orders e
      → IsStream fl none (process fl clock publish orders e).published
  unfolding process view
  process-IsStream [] e book before unused fair orderly times = fair.stream
  process-IsStream (o ∷ orders) e book (newest, before) (unused, others) fair
        (h, seqs, ids, orderly) (t, times) =
      let (book', same) = add_order-Follows fl order clock publish o e h.sound.priced book newest in
      process-IsStream orders (add_order fl clock publish o e) book'
        (subst (λ k. All (λ p. Before p.seq_no k) orders) (sym same)
          (submit-Before-All fl order clock publish orders o (view e) seqs before))
        (subst (λ k. All (λ p. NotUsed p.order_id k) orders) (sym same)
          (submit-NotUsed-All orders o (view e) ids others))
        (subst Fairly (sym same) (submit-Fairly o (view e) h t fair unused)) orderly times

  fresh-NotUsed :
      (orders : List (Order F)) → All (λ o. NotUsed o.order_id (view (fresh {F = F}))) orders
  unfolding fresh view flat
  fresh-NotUsed [] = tt
  fresh-NotUsed (o ∷ orders) = (record { bids = tt; asks = tt; last = tt }, fresh-NotUsed orders)

  -- The trades of the matching engine pass the scoring engine's validator: for orders that arrive
  -- in the order of their sequence numbers, with ids of their own above zero, quantities above
  -- zero, finite prices above zero and a bot's stamp above zero and no later than the gateway's, each taken off the
  -- queue when the clock has reached that stamp, a clock that does not go back and an offloader
  -- that takes every event, the validator finds no violation in the whole stream. The laws are
  -- those of `<` among prices, and that 1e-9 turns no comparison round.
  pub engine-accepted :
      (orders : List (Order F)) (monotonic : ℕ → F) (k : ℕ) (window : F)
      → IsOrderly fl orders
      → InTime fl clock publish orders fresh
      → (feed fl monotonic k (init window) (process fl clock publish orders fresh).published).1
        ≡ none
  unfolding fresh view flat
  engine-accepted orders monotonic k window orderly times =
      (feed-eq-none_iff fl monotonic k window (process fl clock publish orders fresh).published).1 (
        process-IsStream orders fresh (record { bids = tt; asks = tt; uncrossed = tt })
          (fresh-Before fl order clock publish orders) (fresh-NotUsed orders)
          (record {
            bids_lined = tt;
            asks_lined = tt;
            bids_sound = tt;
            asks_sound = tt;
            bids_kept = tt;
            asks_kept = tt;
            counted = tt;
            stream = tt;
          })
          orderly times)
