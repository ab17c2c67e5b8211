-- ===== src/Engine/Matching/Rest.antt =====
-- The loop of `matching` comes to its end.
use mathlib.Core.Option.{some-injective}
use trade_plat.Common.{
  ℕ, zero, suc, ◌+◌, ◌-◌, ◌≤◌, ◌<◌, ◌≡◌, ◌⊎◌, inl, inr, refl, ap, sym, List, [], ◌∷◌, none, some,
  Bool, true, false, arith, length, leb, ltb, ◌==◌, Bool-cases, Option-cases,
}
use trade_plat.Common.Floats.{Floats}
use trade_plat.Engine.Book.{Order, OrderMap, Level, remove_slot, erase, erase_at, keep_level}
use trade_plat.Engine.Matching.{
  Engine, min_int, settle, trade_of, execute, match_orders, match_levels, match_step, match_rounds,
  side_size, matching,
}

module _ {F : Type 0} where
  erase_at-front :
      (o : Order F) (orders : List (Order F)) (entries : OrderMap F)
      → (erase_at (o ∷ orders) 0 entries).0 ≡ orders
  unfolding erase_at remove_slot
  erase_at-front o orders entries =
      let test : leb (length (o ∷ orders)) 0 ≡ false = ground arith in rw (test, erase_at) refl

  -- What `settle` leaves of a level.
  pub settle-filled :
      (qty : ℕ) (o : Order F) (orders : List (Order F)) (entries : OrderMap F)
      → o.quantity - qty ≡ 0
      → (settle qty o orders entries).0 ≡ orders
  unfolding settle
  settle-filled qty o orders entries h =
      let test : (o.quantity - qty == 0) ≡ true = ground arith in
      rw (test, settle) (erase_at-front o orders (erase o.order_id entries))

  pub settle-left :
      (qty : ℕ) (o : Order F) (orders : List (Order F)) (entries : OrderMap F)
      → 0 < o.quantity - qty
      → (settle qty o orders entries).0 ≡ record o { quantity = o.quantity - qty } ∷ orders
  unfolding settle
  settle-left qty o orders entries h =
      let test : (o.quantity - qty == 0) ≡ false = ground arith in rw (test, settle) refl

  length-settle :
      (qty : ℕ) (o : Order F) (orders : List (Order F)) (entries : OrderMap F)
      → length (settle qty o orders entries).0 ≤ suc (length orders)
  length-settle qty o orders entries = elim (Bool-cases (o.quantity - qty == 0)) [
    | inl e ↦ rw (settle-filled qty o orders entries (ground arith)) (omega arith)
    | inr e ↦ rw (settle-left qty o orders entries (ground arith)) (omega arith)
  ]

pub min_int-takes : (a b : ℕ) → (a - min_int a b ≡ 0) ⊎ (b - min_int a b ≡ 0)
min_int-takes a b = elim (Bool-cases (ltb b a)) [
  | inl e ↦ inr (rw e (omega arith))
  | inr e ↦ inl (rw e (ground arith))
]

pub keep_level_size :
    {F : Type 0} (price : F) (orders : List (Order F)) (levels : List (Level F))
    → side_size (keep_level price orders levels) ≤ suc (length orders) + side_size levels
unfolding side_size
keep_level_size price [] levels = omega arith
keep_level_size price (o ∷ orders) levels = omega arith

module _ (fl : Floats) (clock : ℕ → ℕ) (publish : ℕ → Bool) where
  open fl use {F, lt}

  abbrev book_size : Engine F → ℕ
  book_size e = side_size e.buys + side_size e.sells

  -- A trade takes one of the two orders away.
  execute_size :
      (e : Engine F) (bid : F) (buy : Order F) (behind_buy : List (Order F))
      (lower : List (Level F)) (ask : F) (sell : Order F) (behind_sell : List (Order F))
      (higher : List (Level F))
      → book_size (execute fl clock publish e bid buy behind_buy lower ask sell behind_sell higher)
        < 4 + length behind_buy + side_size lower + length behind_sell + side_size higher
  unfolding execute trade_of
  execute_size e bid buy behind_buy lower ask sell behind_sell higher =
      let qty = min_int buy.quantity sell.quantity in
      let bought = settle qty buy behind_buy e.order_map in
      let sold = settle qty sell behind_sell bought.1 in
      let b = keep_level_size bid bought.0 lower in
      let s = keep_level_size ask sold.0 higher in
      let b' = length-settle qty buy behind_buy e.order_map in
      let s' = length-settle qty sell behind_sell bought.1 in
      elim (min_int-takes buy.quantity sell.quantity) [
        | inl h ↦ let f = ap length (settle-filled qty buy behind_buy e.order_map h) in omega arith
        | inr h ↦ let f = ap length (settle-filled qty sell behind_sell bought.1 h) in omega arith
      ]

  match_orders_size :
      (e : Engine F) (bid : F) (buys : List (Order F)) (lower : List (Level F)) (ask : F)
      (sells : List (Order F)) (higher : List (Level F))
      → book_size (match_orders fl clock publish e bid buys lower ask sells higher)
        < 2 + length buys + side_size lower + length sells + side_size higher
  unfolding match_orders
  match_orders_size e bid [] lower ask sells higher =
      omega (arith, keep_level_size ask sells higher)
  match_orders_size e bid (buy ∷ buys) lower ask [] higher =
      omega (arith, keep_level_size bid (buy ∷ buys) lower)
  match_orders_size e bid (buy ∷ buys) lower ask (sell ∷ sells) higher =
      omega (arith, execute_size e bid buy buys lower ask sell sells higher)

  match_levels_size :
      (e e' : Engine F) (buys sells : List (Level F))
      → match_levels fl clock publish e buys sells ≡ some e'
      → book_size e' < side_size buys + side_size sells
  unfolding match_levels side_size
  match_levels_size e e' [] sells h = cc
  match_levels_size e e' (b ∷ lower) [] h = cc
  match_levels_size e e' (b ∷ lower) (s ∷ higher) h =
      let size = match_orders_size e b.price b.orders lower s.price s.orders higher in
      elim (Bool-cases (lt b.price s.price)) [
        | inl stop ↦ let no : none ≡ some e' = rw stop at h in cc
        | inr go ↦
            let same : some
                  (match_orders fl clock publish e b.price b.orders lower s.price s.orders higher)
                ≡ some e' =
              rw go at h in
            rw (sym (some-injective _ _ same)) (omega (arith, size))
      ]

  match_step_size :
      (e e' : Engine F) → match_step fl clock publish e ≡ some e' → book_size e' < book_size e
  unfolding match_step
  match_step_size e e' h = match_levels_size e e' e.buys e.sells h

  match_rounds-rest :
      (n : ℕ) (e : Engine F)
      → book_size e ≤ n
      → match_step fl clock publish (match_rounds fl clock publish n e) ≡ none
  unfolding match_rounds
  match_rounds-rest zero e h = elim (Option-cases (match_step fl clock publish e)) [
    | inl stop ↦ stop
    | inr (e', go) ↦ absurd (omega (arith, match_step_size e e' go))
  ]
  match_rounds-rest (suc n) e h = elim (Option-cases (match_step fl clock publish e)) [
    | inl stop ↦ rw (stop, match_rounds) stop
    | inr (e', go) ↦
        rw (go, match_rounds) (match_rounds-rest n e' (omega (arith, match_step_size e e' go)))
  ]

  -- From every state of the book, crossed or with empty levels as it may be, the loop of `matching`
  -- comes to an end: the rounds that the model allows are enough to reach a state in which the loop
  -- stops.
  pub matching-rest :
      (e : Engine F) → match_step fl clock publish (matching fl clock publish e) ≡ none
  unfolding matching
  matching-rest e = match_rounds-rest (book_size e) e (omega arith)
