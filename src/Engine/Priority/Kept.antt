-- ===== src/Engine/Priority/Kept.antt =====
-- What a walk and a queue keep of the orders: a trade changes no more than a quantity.
use trade_plat.Common.{
  ℕ, ◌+◌, ◌-◌, List, [], ◌∷◌, Option, none, some, Bool, inl, inr, Bool-cases, ◌==◌, All,
}
use trade_plat.Common.Floats.{Floats}
use trade_plat.Engine.Book.{Order}
use trade_plat.Engine.Matching.{min_int}
use trade_plat.Engine.Priority.{queue, join, better, walk}
use trade_plat.Engine.Priority.Shelf.{settled-All}

-- A property of an order that a trade does not change.
abbrev pub Lasting : {F : Type 0} → (Order F → Type 0) → Type 0
Lasting {F} P = (o : Order F) (quantity : ℕ) → P o → P (record o { quantity = quantity })

abbrev pub AllLeft : {F : Type 0} → (Order F → Type 0) → Option (Order F) → Type 0
AllLeft P none = Unit {0}
AllLeft P (some o) = P o

module _ {F : Type 0} (before : F → F → Bool) (P : Order F → Type 0) where
  pub queue-All :
      (o : Order F) (orders : List (Order F)) → P o → All P orders → All P (queue before o orders)
  unfolding queue
  queue-All o [] p h = (p, tt)
  queue-All o (x ∷ orders) p (here, later) =
      let rest = queue-All o orders p later in
      elim (Bool-cases (before o.price x.price)) [
        | inl e ↦ rw (e, queue) (p, (here, later))
        | inr e ↦ rw (e, queue) (here, rest)
      ]

  pub join-All :
      (left : Option (Order F)) (orders : List (Order F))
      → AllLeft P left
      → All P orders
      → All P (join before left orders)
  unfolding join
  join-All none orders p h = h
  join-All (some o) orders p h = queue-All o orders p h

module _ (fl : Floats) (clock : ℕ → ℕ) (publish : ℕ → Bool) (buying : Bool) where
  open fl use {F}

  pub walk-All :
      (P : Order F → Type 0) (lasting : Lasting P) (matches : ℕ) (o : Order F)
      (orders : List (Order F))
      → P o
      → All P orders
      → AllLeft P (walk fl clock publish buying matches o orders).left
        × All P (walk fl clock publish buying matches o orders).facing
  unfolding walk
  walk-All P lasting matches o [] p h = (p, tt)
  walk-All P lasting matches o (waiting ∷ orders) p (here, later) =
      let qty = min_int o.quantity waiting.quantity in
      let rest =
        walk-All P lasting (matches + 1) (record o { quantity = o.quantity - qty }) orders
          (lasting o (o.quantity - qty) p) later in
      elim (Bool-cases (better fl buying o.price waiting.price)) [
        | inl e ↦ rw (e, walk) (p, (here, later))
        | inr e ↦ elim (Bool-cases (o.quantity - qty == 0)) [
          | inl g ↦
              rw (e, g, walk)
                (
                  tt,
                  settled-All P qty waiting orders (lasting waiting (waiting.quantity - qty) here)
                      later,
                )
          | inr g ↦ rw (e, g, walk) rest
        ]
      ]
