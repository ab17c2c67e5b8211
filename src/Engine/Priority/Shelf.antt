-- ===== src/Engine/Priority/Shelf.antt =====
-- The levels of one side of the book: in the order of their prices, none of them empty, and every
-- order at the level of its price.
use mathlib.Core.List.{append_assoc}
use mathlib.Core.Bool.{true≢false}
use trade_plat.Common.{
  ℕ, ◌-◌, ◌<◌, ◌≡◌, ◌∙◌, refl, sym, ap, List, [], ◌∷◌, ◌++◌, Bool, true, false, inl, inr,
  Bool-cases, All, All-append, All-imp, length, length-append, arith, ◌==◌,
}
use trade_plat.Common.Floats.{Floats, IsPrice}
use trade_plat.Engine.Book.{Order, Level, push_back, keep_level}
use trade_plat.Engine.Priority.{flat, queue, settled}

module _ {F : Type 0} where
  pub nonempty :
      (orders : List (Order F))
      → 0 < length orders
      → (o : Order F) × (rest : List (Order F)) × (orders ≡ o ∷ rest)
  nonempty [] h = absurd (omega arith)
  nonempty (o ∷ rest) h = (o, rest, refl)

  pub flat-keep_level :
      (price : F) (orders : List (Order F)) (levels : List (Level F))
      → flat (keep_level price orders levels) ≡ orders ++ flat levels
  unfolding flat
  flat-keep_level price [] levels = refl
  flat-keep_level price (o ∷ orders) levels = refl

  pub keep_level-All :
      (P : F → Type 0) (price : F) (orders : List (Order F)) (levels : List (Level F))
      → P price
      → All (λ l. P l.price) levels
      → All (λ l. P l.price) (keep_level price orders levels)
  keep_level-All P price [] levels p h = h
  keep_level-All P price (o ∷ orders) levels p h = (p, h)

  -- A trade changes no more of an order than its quantity.
  pub settled-All :
      (P : Order F → Type 0) (qty : ℕ) (o : Order F) (orders : List (Order F))
      → P (record o { quantity = o.quantity - qty })
      → All P orders
      → All P (settled qty o orders)
  settled-All P qty o orders p h = elim (Bool-cases (o.quantity - qty == 0)) [
    | inl e ↦ rw e h
    | inr e ↦ rw e (p, h)
  ]

  module _ (before : F → F → Bool) where
    pub push_back-All :
        (P : F → Type 0) (price : F) (o : Order F) (levels : List (Level F))
        → P price
        → All (λ l. P l.price) levels
        → All (λ l. P l.price) (push_back before price o levels)
    unfolding push_back
    push_back-All P price o [] p h = (p, tt)
    push_back-All P price o (l ∷ levels) p (here, later) =
        let rest = push_back-All P price o levels p later in
        elim (Bool-cases (before price l.price)) [
          | inl e ↦ rw (e, push_back) (p, (here, later))
          | inr e ↦ elim (Bool-cases (before l.price price)) [
            | inl g ↦ rw (e, g, push_back) (here, rest)
            | inr g ↦ rw (e, g, push_back) (here, later)
          ]
        ]

    queue-skip :
        (o : Order F) (xs zs : List (Order F))
        → All (λ x. before o.price x.price ≡ false) xs
        → queue before o (xs ++ zs) ≡ xs ++ queue before o zs
    unfolding queue
    queue-skip o [] zs h = refl
    queue-skip o (x ∷ xs) zs (behind, others) =
        rw (behind, queue) (ap (λ ws. x ∷ ws) (queue-skip o xs zs others))

module _ (fl : Floats) (before : fl.F → fl.F → Bool) where
  open fl use {F}

  abbrev pub IsShelf : List (Level F) → Type 0
  IsShelf [] = Unit {0}
  IsShelf (l ∷ levels) =
      (0 < length l.orders)
      × IsPrice fl l.price
      × All (λ o. o.price ≡ l.price) l.orders
      × All (λ m. before l.price m.price ≡ true) levels
      × IsShelf levels

  pub keep_level-IsShelf :
      (price : F) (orders : List (Order F)) (levels : List (Level F))
      → IsPrice fl price
      → All (λ o. o.price ≡ price) orders
      → All (λ m. before price m.price ≡ true) levels
      → IsShelf levels
      → IsShelf (keep_level price orders levels)
  keep_level-IsShelf price [] levels p at lower rest = rest
  keep_level-IsShelf price (o ∷ orders) levels p at lower rest = (omega arith, p, at, lower, rest)

  -- An order goes to the front of a side on which every price is behind its own.
  pub queue-front :
      (o : Order F) (levels : List (Level F))
      → IsShelf levels
      → All (λ m. before o.price m.price ≡ true) levels
      → queue before o (flat levels) ≡ o ∷ flat levels
  unfolding queue flat
  queue-front o [] shelf h = refl
  queue-front o (l ∷ levels) shelf (first, others) =
      let (x, xs, e) = nonempty l.orders shelf.0 in
      let at : (x.price ≡ l.price) × All (λ k. k.price ≡ l.price) xs = rw e at shelf.2 in
      let test : before o.price x.price ≡ true = rw at.0 first in rw (e, test, queue) refl

  module _ (trans : (a b c : F) → before a b ≡ true → before b c ≡ true → before a c ≡ true)
      (total : (a b : F)
        → IsPrice fl a
        → IsPrice fl b
        → before a b ≡ false
        → before b a ≡ false
        → a ≡ b)
      (irrefl : (a : F) → before a a ≡ false) where
    asym : (a b : F) → before a b ≡ true → before b a ≡ false
    asym a b h = elim (Bool-cases (before b a)) [
      | inl e ↦ elim (true≢false (sym (trans a b a h e) ∙ irrefl a)) [ ]
      | inr e ↦ e
    ]

    pub push_back-IsShelf :
        (o : Order F) (levels : List (Level F))
        → IsPrice fl o.price
        → IsShelf levels
        → IsShelf (push_back before o.price o levels)
    unfolding push_back
    push_back-IsShelf o [] p shelf = (omega arith, p, (refl, tt), tt, tt)
    push_back-IsShelf o (l ∷ levels) p (some_orders, lp, at, lower, rest) =
        let later = push_back-IsShelf o levels p rest in
        elim (Bool-cases (before o.price l.price)) [
          | inl e ↦
              rw (e, push_back)
                (
                  omega arith,
                  p,
                  (refl, tt),
                  (
                    e,
                    All-imp (λ m. before l.price m.price ≡ true)
                        (λ m. before o.price m.price ≡ true) (λ m. trans o.price l.price m.price e)
                        levels lower,
                  ),
                  (some_orders, lp, at, lower, rest),
                )
          | inr e ↦ elim (Bool-cases (before l.price o.price)) [
            | inl g ↦
                rw (e, g, push_back)
                  (
                    some_orders,
                    lp,
                    at,
                    push_back-All before (λ k. before l.price k ≡ true) o.price o levels g lower,
                    later,
                  )
            | inr g ↦
                rw (e, g, push_back)
                  (
                    omega (arith, length-append l.orders (o ∷ [])),
                    lp,
                    All-append _ l.orders (o ∷ []) at (total o.price l.price p lp e g, tt),
                    lower,
                    rest,
                  )
          ]
        ]

    pub flat-push_back :
        (o : Order F) (levels : List (Level F))
        → IsPrice fl o.price
        → IsShelf levels
        → flat (push_back before o.price o levels) ≡ queue before o (flat levels)
    unfolding push_back flat queue
    flat-push_back o [] p shelf = refl
    flat-push_back o (l ∷ levels) p (some_orders, lp, at, lower, rest) =
        let worse = λ (no : before o.price l.price ≡ false).
          All-imp (λ x. x.price ≡ l.price) (λ x. before o.price x.price ≡ false) (λ x h. rw h no)
            l.orders at in
        elim (Bool-cases (before o.price l.price)) [
          | inl e ↦
              let front =
                queue-front o (l ∷ levels) (some_orders, lp, at, lower, rest)
                  (
                    e,
                    All-imp (λ m. before l.price m.price ≡ true)
                        (λ m. before o.price m.price ≡ true) (λ m. trans o.price l.price m.price e)
                        levels lower,
                  ) in
              rw (e, push_back) (sym front)
          | inr e ↦ elim (Bool-cases (before l.price o.price)) [
            | inl g ↦
                rw (e, g, push_back)
                  (ap (λ zs. l.orders ++ zs) (flat-push_back o levels p rest)
                    ∙ sym (queue-skip before o l.orders (flat levels) (worse e)))
            | inr g ↦
                let same = total o.price l.price p lp e g in
                let front = queue-front o levels rest (rw same lower) in
                rw (e, g, push_back)
                  (append_assoc l.orders (o ∷ []) (flat levels)
                    ∙ ap (λ zs. l.orders ++ zs) (sym front)
                    ∙ sym (queue-skip before o l.orders (flat levels) (worse e)))
          ]
        ]
