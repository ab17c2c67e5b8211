-- ===== src/Engine/Priority/Cancelled.antt =====
-- `cancelOrder` keeps the book in order.
use trade_plat.Common.{
  ℕ, zero, suc, ◌+◌, ◌<◌, ◌≡◌, sym, subst, All-append, All-front, All-back, List, [], ◌∷◌, Bool,
  true, inl, inr, Bool-cases, Option-cases, All, length, leb,
}
use trade_plat.Common.Floats.{Floats, IsPrice, PriceOrder}
use trade_plat.Engine.Book.{
  Order, OrderMap, Level, find_order, erase, remove_slot, erase_at, erase_from,
}
use trade_plat.Engine.Matching.{Engine, fresh, add_order, cancel_order}
use trade_plat.Engine.Priority.{flat, view}
use trade_plat.Engine.Priority.Shelf.{flat-keep_level, keep_level-All, IsShelf, keep_level-IsShelf}
use trade_plat.Engine.Priority.Rounds.{Apart}
use trade_plat.Engine.Priority.Refinement.{IsBook, Before, submit-Before, add_order-Follows}

-- A call of the engine.
pub data Command (F : Type 0) : Type 0 where
  submitted : Order F → Command F
  cancelled : ℕ → Command F

abbrev pub Later : {F : Type 0} → ℕ → Command F → Type 0
Later seq (submitted o) = seq < o.seq_no
Later seq (cancelled id) = Unit {0}

-- The orders arrive one after the other, all with a price.
abbrev pub Entering : (fl : Floats) → List (Command fl.F) → Type 0
Entering fl [] = Unit {0}
Entering fl (submitted o ∷ commands) =
    IsPrice fl o.price × All (Later o.seq_no) commands × Entering fl commands
Entering fl (cancelled id ∷ commands) = Entering fl commands

module _ {F : Type 0} (P : Order F → Type 0) where
  remove_slot-All :
      (index i : ℕ) (orders : List (Order F)) (entries : OrderMap F)
      → All P orders
      → All P (remove_slot i index orders entries).0
  unfolding remove_slot
  remove_slot-All zero i [] entries h = tt
  remove_slot-All (suc index) i [] entries h = tt
  remove_slot-All zero i (o ∷ orders) entries (p, h) = h
  remove_slot-All (suc index) i (o ∷ orders) entries (p, h) =
      (p, remove_slot-All index (i + 1) orders entries h)

  erase_at-All :
      (level : List (Order F)) (index : ℕ) (entries : OrderMap F)
      → All P level
      → All P (erase_at level index entries).0
  unfolding erase_at
  erase_at-All level index entries h = elim (Bool-cases (leb (length level) index)) [
    | inl e ↦ rw (e, erase_at) h
    | inr e ↦ rw (e, erase_at) (remove_slot-All index 0 level entries h)
  ]

module _ (fl : Floats) (before : fl.F → fl.F → Bool) where
  open fl use {F}

  erase_from-All :
      (P : F → Type 0) (price : F) (index : ℕ) (levels : List (Level F)) (entries : OrderMap F)
      → All (λ l. P l.price) levels
      → All (λ l. P l.price) (erase_from before price index levels entries).0
  unfolding erase_from
  erase_from-All P price index [] entries h = tt
  erase_from-All P price index (l ∷ levels) entries (p, h) =
      let rest = erase_from-All P price index levels entries h in
      elim (Bool-cases (before price l.price)) [
        | inl e ↦ rw (e, erase_from) (p, h)
        | inr e ↦ elim (Bool-cases (before l.price price)) [
          | inl g ↦ rw (e, g, erase_from) (p, rest)
          | inr g ↦
              rw (e, g, erase_from)
                (keep_level-All P l.price (erase_at l.orders index entries).0 levels p h)
        ]
      ]

  erase_from-flat :
      (P : Order F → Type 0) (price : F) (index : ℕ) (levels : List (Level F))
      (entries : OrderMap F)
      → All P (flat levels)
      → All P (flat (erase_from before price index levels entries).0)
  unfolding erase_from flat
  erase_from-flat P price index [] entries h = tt
  erase_from-flat P price index (l ∷ levels) entries h =
      let here = All-front P l.orders (flat levels) h in
      let rest = All-back P l.orders (flat levels) h in
      elim (Bool-cases (before price l.price)) [
        | inl e ↦ rw (e, erase_from) h
        | inr e ↦ elim (Bool-cases (before l.price price)) [
          | inl g ↦
              rw (e, g, erase_from)
                (All-append P l.orders _ here (erase_from-flat P price index levels entries rest))
          | inr g ↦
              let left = (erase_at l.orders index entries).0 in
              rw (e, g, erase_from)
                (subst (All P) (sym (flat-keep_level l.price left levels)) (
                  All-append P left (flat levels) (erase_at-All P l.orders index entries here)
                    rest))
        ]
      ]

  erase_from-IsShelf :
      (price : F) (index : ℕ) (levels : List (Level F)) (entries : OrderMap F)
      → IsShelf fl before levels
      → IsShelf fl before (erase_from before price index levels entries).0
  unfolding erase_from
  erase_from-IsShelf price index [] entries h = tt
  erase_from-IsShelf price index (l ∷ levels) entries (some_orders, lp, at, lower, shelf) =
      let rest = erase_from-IsShelf price index levels entries shelf in
      elim (Bool-cases (before price l.price)) [
        | inl e ↦ rw (e, erase_from) (some_orders, lp, at, lower, shelf)
        | inr e ↦ elim (Bool-cases (before l.price price)) [
          | inl g ↦
              rw (e, g, erase_from)
                (
                  some_orders,
                  lp,
                  at,
                  erase_from-All (λ p. before l.price p ≡ true) price index levels entries lower,
                  rest,
                )
          | inr g ↦
              rw (e, g, erase_from)
                (keep_level-IsShelf fl before l.price (erase_at l.orders index entries).0 levels lp
                  (erase_at-All (λ o. o.price ≡ l.price) l.orders index entries at) lower shelf)
        ]
      ]

module _ (fl : Floats) (order : PriceOrder fl) (clock : ℕ → ℕ) (publish : ℕ → Bool) where
  open fl use {F, lt}

  Apart-facing :
      (own facing : List (Level F)) (price : F) (index : ℕ) (entries : OrderMap F)
      → Apart fl order true own facing
      → Apart fl order true own (erase_from lt price index facing entries).0
  Apart-facing [] facing price index entries h = tt
  Apart-facing (l ∷ own) facing price index entries (first, others) = (
    erase_from-All fl lt (λ p. lt l.price p ≡ true) price index facing entries first,
    Apart-facing own facing price index entries others,
  )

  -- A cancel, of whatever id, leaves both sides in order and the book uncrossed.
  cancel_order-IsBook :
      (id : ℕ) (e : Engine F)
      → IsBook fl order clock publish e
      → IsBook fl order clock publish (cancel_order fl clock publish id e)
  unfolding cancel_order
  cancel_order-IsBook id e book = elim (Option-cases (find_order id e.order_map)) [
    | inl unknown ↦ rw (unknown, cancel_order) book
    | inr (at, found) ↦
        let entries = erase id e.order_map in
        elim (Bool-cases at.is_buy) [
          | inl buy ↦
              rw (found, cancel_order)
                (rw buy (record {
                  bids =
                      erase_from-IsShelf fl (λ a b. lt b a) at.price at.vector_index e.buys entries
                        book.bids;
                  asks = book.asks;
                  uncrossed =
                      erase_from-All fl (λ a b. lt b a)
                        (λ p. All (λ m. lt p m.price ≡ true) e.sells) at.price at.vector_index
                        e.buys entries book.uncrossed;
                }))
          | inr sell ↦
              rw (found, cancel_order)
                (rw sell (record {
                  bids = book.bids;
                  asks =
                      erase_from-IsShelf fl lt at.price at.vector_index e.sells entries book.asks;
                  uncrossed =
                      Apart-facing e.buys e.sells at.price at.vector_index entries book.uncrossed;
                }))
        ]
  ]

  cancel_order-Before :
      (id seq : ℕ) (e : Engine F)
      → Before seq (view e)
      → Before seq (view (cancel_order fl clock publish id e))
  unfolding cancel_order view
  cancel_order-Before id seq e (bids, asks) = elim (Option-cases (find_order id e.order_map)) [
    | inl unknown ↦ rw (unknown, cancel_order) (bids, asks)
    | inr (at, found) ↦
        let entries = erase id e.order_map in
        let P = λ (o : Order F). o.seq_no < seq in
        elim (Bool-cases at.is_buy) [
          | inl buy ↦
              rw (found, cancel_order)
                (rw buy (
                  erase_from-flat fl (λ a b. lt b a) P at.price at.vector_index e.buys entries bids,
                  asks,
                ))
          | inr sell ↦
              rw (found, cancel_order)
                (rw sell
                  (bids, erase_from-flat fl lt P at.price at.vector_index e.sells entries asks))
        ]
  ]

  pub obey : Command F → Engine F → Engine F
  obey (submitted o) e = add_order fl clock publish o e
  obey (cancelled id) e = cancel_order fl clock publish id e

  pub obey_all : List (Command F) → Engine F → Engine F
  unfolding obey
  obey_all [] e = e
  obey_all (c ∷ commands) e = obey_all commands (obey c e)

  -- The orders of the engine came before that of the command.
  abbrev Ahead : Engine F → Command F → Type 0
  Ahead e (submitted o) = Before o.seq_no (view e)
  Ahead e (cancelled id) = Unit {0}

  add_order-Ahead :
      (o : Order F) (e : Engine F) (commands : List (Command F))
      → IsPrice fl o.price
      → IsBook fl order clock publish e
      → Before o.seq_no (view e)
      → All (Later o.seq_no) commands
      → All (Ahead e) commands
      → All (Ahead (add_order fl clock publish o e)) commands
  add_order-Ahead o e [] price book newest later h = tt
  add_order-Ahead o e (submitted p ∷ commands) price book newest (l, ls) (h, hs) =
      let (_, same) = add_order-Follows fl order clock publish o e price book newest in
      (
        subst (Before p.seq_no) (sym same)
            (submit-Before fl order clock publish p.seq_no o (view e) l h),
        add_order-Ahead o e commands price book newest ls hs,
      )
  add_order-Ahead o e (cancelled id ∷ commands) price book newest (l, ls) (h, hs) =
      (tt, add_order-Ahead o e commands price book newest ls hs)

  cancel_order-Ahead :
      (id : ℕ) (e : Engine F) (commands : List (Command F))
      → All (Ahead e) commands
      → All (Ahead (cancel_order fl clock publish id e)) commands
  cancel_order-Ahead id e [] h = tt
  cancel_order-Ahead id e (submitted p ∷ commands) (h, hs) =
      (cancel_order-Before id p.seq_no e h, cancel_order-Ahead id e commands hs)
  cancel_order-Ahead id e (cancelled k ∷ commands) (h, hs) =
      (tt, cancel_order-Ahead id e commands hs)

  obey_all-IsBook_from :
      (commands : List (Command F)) (e : Engine F)
      → IsBook fl order clock publish e
      → All (Ahead e) commands
      → Entering fl commands
      → IsBook fl order clock publish (obey_all commands e)
  unfolding obey_all obey
  obey_all-IsBook_from [] e book ahead entering = book
  obey_all-IsBook_from (submitted o ∷ commands) e book (newest, ahead) (price, later, entering) =
      obey_all-IsBook_from commands (add_order fl clock publish o e)
        (add_order-Follows fl order clock publish o e price book newest).0
        (add_order-Ahead o e commands price book newest later ahead) entering
  obey_all-IsBook_from (cancelled id ∷ commands) e book (_, ahead) entering =
      obey_all-IsBook_from commands (cancel_order fl clock publish id e)
        (cancel_order-IsBook id e book) (cancel_order-Ahead id e commands ahead) entering

  fresh-Ahead : (commands : List (Command F)) → All (Ahead (fresh {F = F})) commands
  unfolding fresh view flat
  fresh-Ahead [] = tt
  fresh-Ahead (submitted o ∷ commands) = ((tt, tt), fresh-Ahead commands)
  fresh-Ahead (cancelled id ∷ commands) = (tt, fresh-Ahead commands)

  -- However submissions and cancels of any ids follow each other on a fresh engine, its book stays
  -- in order: the levels of each side in the order of their prices, none of them empty, every order
  -- at the level of its price, and every bid below every ask. The orders come with finite prices
  -- above zero and in the order of their sequence numbers; the laws are those of `<` among prices.
  pub obey_all-IsBook :
      (commands : List (Command F))
      → Entering fl commands
      → IsBook fl order clock publish (obey_all commands fresh)
  unfolding fresh
  obey_all-IsBook commands entering =
      obey_all-IsBook_from commands fresh (record { bids = tt; asks = tt; uncrossed = tt })
        (fresh-Ahead commands) entering
