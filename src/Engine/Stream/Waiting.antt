-- ===== src/Engine/Stream/Waiting.antt =====
-- The orders that wait: what joins a side keeps it in line, and fair to the last trade.
use mathlib.Core.Bool.{true≢false}
use trade_plat.Common.{
  ℕ, ◌≡◌, ◌≢◌, ◌∙◌, refl, sym, ap, List, [], ◌∷◌, Option, none, some, Bool, true, false, not, inl,
  inr, Bool-cases, All, All-imp,
}
use trade_plat.Common.Floats.{Floats, PriceOrder}
use trade_plat.Scoring.Event.{TradeEvent}
use trade_plat.Engine.Book.{Order}
use trade_plat.Engine.Priority.{better, queue, join}
use trade_plat.Engine.Priority.Rounds.{better_trans}
use trade_plat.Engine.Priority.Kept.{AllLeft, queue-All, join-All}
use trade_plat.Engine.Stream.{own_id, other_id, Lined, KeptAfter, Dealt, WithOthers}
use trade_plat.Engine.Stream.Walk.{better_self}

module _ (fl : Floats) (order : PriceOrder fl) (buying : Bool) where
  open fl use {F}

  better_asym : (a b : F) → better fl buying a b ≡ true → better fl buying b a ≡ false
  better_asym a b h = elim (Bool-cases (better fl buying b a)) [
    | inl e ↦
        elim (true≢false
          (sym (better_trans fl order buying a b a h e) ∙ better_self fl order buying a)) [ ]
    | inr e ↦ e
  ]

  -- What is not better than `x` is not better than a price that beats `x`.
  better_behind :
      (a x z : F)
      → better fl buying a x ≡ true
      → better fl buying z x ≡ false
      → better fl buying z a ≡ false
  better_behind a x z h g = elim (Bool-cases (better fl buying z a)) [
    | inl e ↦ elim (true≢false (sym (better_trans fl order buying z a x e h) ∙ g)) [ ]
    | inr e ↦ e
  ]

  queue-behind :
      (o x : Order F) (zs : List (Order F))
      → better fl buying o.price x.price ≡ true
      → All (λ z. (better fl buying z.price x.price ≡ false) × (z.order_id ≢ x.order_id)) zs
      → All (λ z. z.order_id ≢ o.order_id) zs
      → All (λ z. (better fl buying z.price o.price ≡ false) × (z.order_id ≢ o.order_id)) zs
  queue-behind o x [] h g d = tt
  queue-behind o x (z ∷ zs) h (g, gs) (d, ds) =
      ((better_behind o.price x.price z.price h g.0, d), queue-behind o x zs h gs ds)

  queue-Lined :
      (o : Order F) (zs : List (Order F))
      → Lined fl buying zs
      → All (λ z. z.order_id ≢ o.order_id) zs
      → Lined fl buying (queue (better fl buying) o zs)
  unfolding queue
  queue-Lined o [] h d = (tt, tt)
  queue-Lined o (x ∷ zs) (h, hs) (d, ds) =
      let rest = queue-Lined o zs hs ds in
      elim (Bool-cases (better fl buying o.price x.price)) [
        | inl e ↦
            rw (e, queue)
              (((better_asym o.price x.price e, d), queue-behind o x zs e h ds), (h, hs))
        | inr e ↦
            rw (e, queue)
              (
                queue-All (better fl buying)
                    (λ z. (better fl buying z.price x.price ≡ false) × (z.order_id ≢ x.order_id)) o
                    zs (e, λ same. d (sym same)) h,
                rest,
              )
      ]

  pub join-Lined :
      (o : Order F) (left : Option (Order F)) (zs : List (Order F))
      → AllLeft (λ k. k.order_id ≡ o.order_id) left
      → Lined fl buying zs
      → All (λ z. z.order_id ≢ o.order_id) zs
      → Lined fl buying (join (better fl buying) left zs)
  unfolding join
  join-Lined o none zs same h d = h
  join-Lined o (some k) zs same h d =
      queue-Lined k zs h (All-imp _ _ (λ z ne e. ne (e ∙ same)) zs d)

  other_own : (p : TradeEvent F) → other_id (not buying) p ≡ own_id buying p
  other_own p = sides buying
    where
      sides : (b : Bool) → other_id (not b) p ≡ own_id b p
      sides true = refl
      sides false = refl

  better_turned : (a b : F) → better fl (not buying) a b ≡ better fl buying b a
  better_turned a b = sides buying
    where
      sides : (s : Bool) → better fl (not s) a b ≡ better fl s b a
      sides true = refl
      sides false = refl

  pub not_own :
      (id : ℕ) (p : TradeEvent F)
      → (p.buy_order_id ≢ id) × (p.sell_order_id ≢ id)
      → own_id buying p ≢ id
  not_own id p h = sides buying
    where
      sides : (b : Bool) → own_id b p ≢ id
      sides true = h.0
      sides false = h.1

  -- The own side of an order that came in, after its trades.
  KeptAfter-own :
      (o : Order F) (p : TradeEvent F) (zs : List (Order F))
      → own_id buying p ≡ o.order_id
      → All (λ z. z.order_id ≢ o.order_id) zs
      → KeptAfter fl (not buying) (some p) zs
  KeptAfter-own o p [] own d = tt
  KeptAfter-own o p (z ∷ zs) own (d, ds) =
      (λ e. elim (d (e ∙ other_own p ∙ own)) [ ], KeptAfter-own o p zs own ds)

  AllLeft-dealt :
      (o : Order F) (p : TradeEvent F) (left : Option (Order F))
      → better fl buying o.price p.price ≡ false
      → AllLeft (λ k. (k.order_id ≡ o.order_id) × (k.price ≡ o.price)) left
      → AllLeft
          (λ k.
            k.order_id ≡ other_id (not buying) p → better fl (not buying) p.price k.price ≡ false)
          left
  AllLeft-dealt o p none h same = tt
  AllLeft-dealt o p (some k) h same =
      λ e. better_turned p.price k.price ∙ ap (λ x. better fl buying x p.price) same.1 ∙ h

  AllLeft-others :
      (o : Order F) (p : TradeEvent F) (left : Option (Order F))
      → own_id buying p ≢ o.order_id
      → AllLeft (λ k. (k.order_id ≡ o.order_id) × (k.price ≡ o.price)) left
      → AllLeft
          (λ k.
            k.order_id ≡ other_id (not buying) p → better fl (not buying) p.price k.price ≡ false)
          left
  AllLeft-others o p none h same = tt
  AllLeft-others o p (some k) h same = λ e. elim (h (sym (other_own p) ∙ sym e ∙ same.0)) [ ]

  pub join-KeptAfter :
      (before : F → F → Bool) (o : Order F) (prev last : Option (TradeEvent F))
      (left : Option (Order F)) (zs : List (Order F))
      → Dealt fl buying o prev last
      → KeptAfter fl (not buying) prev zs
      → WithOthers fl o.order_id prev
      → All (λ z. z.order_id ≢ o.order_id) zs
      → AllLeft (λ k. (k.order_id ≡ o.order_id) × (k.price ≡ o.price)) left
      → KeptAfter fl (not buying) last (join before left zs)
  join-KeptAfter before o none last left zs (inl e) kept others d same = rw e tt
  join-KeptAfter before o (some p) last left zs (inl e) kept others d same =
      rw e (
        join-All before _ left zs (AllLeft-others o p left (not_own o.order_id p others) same) kept)
  join-KeptAfter before o prev last left zs (inr (p, e, own, h)) kept others d same =
      rw e (join-All before _ left zs (AllLeft-dealt o p left h same) (KeptAfter-own o p zs own d))
