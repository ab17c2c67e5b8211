-- ===== src/Engine/Priority/Refinement.antt =====
-- The engine does what the two queues of `submit` do.
use trade_plat.Common.{
  ℕ, ◌<◌, ◌≡◌, ◌∙◌, refl, sym, ap, subst, List, [], ◌∷◌, Bool, true, false, inl, inr, Bool-cases,
  arith, All, if◌then◌else◌,
}
use trade_plat.Common.Floats.{Floats, IsPrice, PriceOrder}
use trade_plat.Engine.Book.{Order}
use trade_plat.Engine.Matching.{Engine, fresh, matching, place_buy, place_sell, add_order, process}
use trade_plat.Engine.Priority.{
  flat, Market, empty, view, Arriving, better, walk, submit_buy, submit_sell, submit, submit_all,
}
use trade_plat.Engine.Priority.Shelf.{IsShelf}
use trade_plat.Engine.Priority.Rounds.{Apart}
use trade_plat.Engine.Priority.Kept.{join-All, walk-All}
use trade_plat.Engine.Priority.Added.{Added, match_rounds-Added}

module _ {A B : Type 0} (R : A → B → Type 0) where
  All-none : (ys : List B) → All (λ y. All (λ x. R x y) []) ys
  All-none [] = tt
  All-none (y ∷ ys) = (tt, All-none ys)

  All-one :
      (x : A) (xs : List A) (ys : List B)
      → All (R x) ys
      → All (λ y. All (λ a. R a y) xs) ys
      → All (λ y. All (λ a. R a y) (x ∷ xs)) ys
  All-one x xs [] h g = tt
  All-one x xs (y ∷ ys) (h, hs) (g, gs) = ((h, g), All-one x xs ys hs gs)

  All-swap :
      (xs : List A) (ys : List B) → All (λ x. All (R x) ys) xs → All (λ y. All (λ x. R x y) xs) ys
  All-swap [] ys h = All-none ys
  All-swap (x ∷ xs) ys (first, others) = All-one x xs ys first (All-swap xs ys others)

Market-path :
    {F : Type 0} (k k' : Market F)
    → k.bids ≡ k'.bids
    → k.asks ≡ k'.asks
    → k.matches ≡ k'.matches
    → k.published ≡ k'.published
    → k ≡ k'
Market-path k k' b a m p i = record { bids = b i; asks = a i; matches = m i; published = p i }

-- Every order of the market came before the number.
abbrev pub Before : {F : Type 0} → ℕ → Market F → Type 0
Before seq k = All (λ o. o.seq_no < seq) k.bids × All (λ o. o.seq_no < seq) k.asks

module _ (fl : Floats) (order : PriceOrder fl) (clock : ℕ → ℕ) (publish : ℕ → Bool) where
  open fl use {F, lt}

  -- Both sides are in order, and no bid reaches an ask.
  pub record IsBook (e : Engine F) : Type 0 where
    pub bids : IsShelf fl (better fl false) e.buys
    pub asks : IsShelf fl (better fl true) e.sells
    pub uncrossed : Apart fl order true e.buys e.sells

  abbrev pub Follows : Engine F → Engine F → Order F → Type 0
  Follows e e' o = IsBook e' × (view e' ≡ submit fl clock publish o (view e))

  pub submit-buyer :
      (o : Order F) (k : Market F)
      → o.is_buy ≡ true
      → submit fl clock publish o k ≡ submit_buy fl clock publish o k
  unfolding submit
  submit-buyer o k h =
      ap (λ b. if b then submit_buy fl clock publish o k else submit_sell fl clock publish o k) h

  pub submit-seller :
      (o : Order F) (k : Market F)
      → o.is_buy ≡ false
      → submit fl clock publish o k ≡ submit_sell fl clock publish o k
  unfolding submit
  submit-seller o k h =
      ap (λ b. if b then submit_buy fl clock publish o k else submit_sell fl clock publish o k) h

  Added-buyer :
      (e e' : Engine F) (o : Order F)
      → o.is_buy ≡ true
      → Added fl order clock publish true
          (place_buy fl clock publish o e)
          e'
          e.buys
          (walk fl clock publish true e.next_match_id o (flat e.sells))
      → Follows e e' o
  unfolding view submit_buy place_buy
  Added-buyer e e' o buy r =
      let (bids, asks) = r.sides in
      (
        record {
          bids = subst (IsShelf fl (better fl false)) (sym bids) r.own_shelf;
          asks = subst (IsShelf fl (better fl true)) (sym asks) r.facing_shelf;
          uncrossed =
              subst (λ b. Apart fl order true b e'.sells) (sym bids)
                (subst (λ s. Apart fl order true r.own' s) (sym asks) r.apart);
        },
        Market-path _ _ (ap flat bids ∙ r.joined) (ap flat asks ∙ r.walked) r.counted r.told
            ∙ sym (submit-buyer o (view e) buy),
      )

  Added-seller :
      (e e' : Engine F) (o : Order F)
      → o.is_buy ≡ false
      → Added fl order clock publish false
          (place_sell fl clock publish o e)
          e'
          e.sells
          (walk fl clock publish false e.next_match_id o (flat e.buys))
      → Follows e e' o
  unfolding view submit_sell place_sell
  Added-seller e e' o sell r =
      let (asks, bids) = r.sides in
      (
        record {
          bids = subst (IsShelf fl (better fl false)) (sym bids) r.facing_shelf;
          asks = subst (IsShelf fl (better fl true)) (sym asks) r.own_shelf;
          uncrossed =
              subst (λ b. Apart fl order true b e'.sells) (sym bids)
                (subst (λ s. Apart fl order true r.facing' s) (sym asks)
                  (All-swap (λ m l. lt l.price m.price ≡ true) r.own' r.facing' r.apart));
        },
        Market-path _ _ (ap flat bids ∙ r.walked) (ap flat asks ∙ r.joined) r.counted r.told
            ∙ sym (submit-seller o (view e) sell),
      )

  pub add_order-Follows :
      (o : Order F) (e : Engine F)
      → IsPrice fl o.price
      → IsBook e
      → Before o.seq_no (view e)
      → Follows e (add_order fl clock publish o e) o
  unfolding add_order matching place_buy place_sell view
  add_order-Follows o e price book newest = elim (Bool-cases o.is_buy) [
    | inl buy ↦
        subst (λ p. Follows e (matching fl clock publish p) o)
          (sym (
            ap
              (λ (b : Bool).
                if b then place_buy fl clock publish o e else place_sell fl clock publish o e)
              buy))
          (Added-buyer e _ o buy (
            match_rounds-Added fl order clock publish true (place_buy fl clock publish o e) o e.buys
              e.sells price (refl, refl) book.bids book.asks book.uncrossed newest.1 _
              (omega arith)))
    | inr sell ↦
        subst (λ p. Follows e (matching fl clock publish p) o)
          (sym (
            ap
              (λ (b : Bool).
                if b then place_buy fl clock publish o e else place_sell fl clock publish o e)
              sell))
          (Added-seller e _ o sell (
            match_rounds-Added fl order clock publish false (place_sell fl clock publish o e) o
              e.sells e.buys price (refl, refl) book.asks book.bids
              (All-swap (λ l m. lt l.price m.price ≡ true) e.buys e.sells book.uncrossed) newest.0 _
              (omega arith)))
  ]

  -- What an order leaves in the market came before every later one.
  pub submit-Before :
      (seq : ℕ) (o : Order F) (k : Market F)
      → o.seq_no < seq
      → Before seq k
      → Before seq (submit fl clock publish o k)
  unfolding submit_buy submit_sell
  submit-Before seq o k earlier (bids, asks) =
      let P = λ (x : Order F). x.seq_no < seq in
      elim (Bool-cases o.is_buy) [
        | inl buy ↦
            let w = walk-All fl clock publish true P (λ x q p. p) k.matches o k.asks earlier asks in
            subst (Before seq) (sym (submit-buyer o k buy))
              (join-All (better fl false) P _ k.bids w.0 bids, w.1)
        | inr sell ↦
            let w =
              walk-All fl clock publish false P (λ x q p. p) k.matches o k.bids earlier bids in
            subst (Before seq) (sym (submit-seller o k sell))
              (w.1, join-All (better fl true) P _ k.asks w.0 asks)
      ]

  pub submit-Before-All :
      (orders : List (Order F)) (o : Order F) (k : Market F)
      → All (λ later. o.seq_no < later.seq_no) orders
      → All (λ later. Before later.seq_no k) orders
      → All (λ later. Before later.seq_no (submit fl clock publish o k)) orders
  submit-Before-All [] o k h g = tt
  submit-Before-All (later ∷ orders) o k (h, hs) (g, gs) =
      (submit-Before later.seq_no o k h g, submit-Before-All orders o k hs gs)

  process-submit_from :
      (orders : List (Order F)) (e : Engine F)
      → IsBook e
      → All (λ o. Before o.seq_no (view e)) orders
      → Arriving fl orders
      → view (process fl clock publish orders e) ≡ submit_all fl clock publish orders (view e)
  unfolding process submit_all
  process-submit_from [] e book before arriving = refl
  process-submit_from (o ∷ orders) e book (newest, before) (price, later, arriving) =
      let (book', same) = add_order-Follows o e price book newest in
      process-submit_from orders (add_order fl clock publish o e) book'
        (subst (λ k. All (λ p. Before p.seq_no k) orders) (sym same)
          (submit-Before-All orders o (view e) later before))
        arriving
      ∙ ap (submit_all fl clock publish orders) same

  pub fresh-Before :
      (orders : List (Order F)) → All (λ o. Before o.seq_no (view (fresh {F = F}))) orders
  unfolding fresh view flat
  fresh-Before [] = tt
  fresh-Before (o ∷ orders) = ((tt, tt), fresh-Before orders)

  -- A fresh engine that takes orders off its queue keeps price-time priority: for orders that
  -- arrive in the order of their sequence numbers, each with a finite price above zero, and from
  -- the laws of `<` among prices, the orders at rest of each side, level by level, the number of
  -- the last match and the events that the offloader has taken are those of the two plain queues,
  -- in which an order trades with the front of the other queue, at the price that waits there.
  pub process-submit_all :
      (orders : List (Order F))
      → Arriving fl orders
      → view (process fl clock publish orders fresh) ≡ submit_all fl clock publish orders empty
  unfolding fresh empty view flat
  process-submit_all orders arriving =
      process-submit_from orders fresh (record { bids = tt; asks = tt; uncrossed = tt })
        (fresh-Before orders) arriving
