-- ===== src/Engine/Priority/Added.antt =====
-- `addOrder` on a book that is in order, for an order of either side.
use mathlib.Core.Bool.{true≢false}
use mathlib.Core.List.{append-nil}
use trade_plat.Common.{
  ℕ, ◌+◌, ◌-◌, ◌≤◌, ◌<◌, ◌≡◌, ◌∙◌, refl, sym, ap, subst, List, [], ◌∷◌, ◌++◌, Option, none, some,
  Bool, true, false, not, inl, inr, Bool-cases, ◌==◌, arith, All, All-imp, length, length-append,
}
use trade_plat.Common.Floats.{Floats, IsPrice, PriceOrder}
use trade_plat.Engine.Book.{Order, Level, push_back}
use trade_plat.Engine.Matching.{Engine, min_int, side_size, match_rounds}
use trade_plat.Engine.Priority.{flat, join, better, Walk, walk, taken}
use trade_plat.Engine.Priority.Shelf.{
  nonempty, push_back-All, IsShelf, queue-front, push_back-IsShelf, flat-push_back,
}
use trade_plat.Engine.Priority.Round.{Facing}
use trade_plat.Engine.Priority.Rounds.{rested, better_trans, Apart, match_rounds-Apart, walk-stop}
use trade_plat.Engine.Priority.Loop.{match_rounds-Outcome}
use trade_plat.Engine.Priority.Kept.{AllLeft}

flat_size : {F : Type 0} (levels : List (Level F)) → length (flat levels) ≤ side_size levels
unfolding flat side_size
flat_size [] = omega arith
flat_size (l ∷ levels) = omega (arith, length-append l.orders (flat levels), flat_size levels)

module _ (fl : Floats) (order : PriceOrder fl) where
  open fl use {F}
  open order use {lt_irrefl, lt_total}

  better_total :
      (buying : Bool) (a b : F)
      → IsPrice fl a
      → IsPrice fl b
      → better fl buying a b ≡ false
      → better fl buying b a ≡ false
      → a ≡ b
  better_total true a b p q h g = lt_total a b p q h g
  better_total false a b p q h g = lt_total a b p q g h

  better_irrefl : (buying : Bool) (a : F) → better fl buying a a ≡ false
  better_irrefl true a = lt_irrefl a
  better_irrefl false a = lt_irrefl a

  better-not : (buying : Bool) (a b : F) → better fl (not buying) a b ≡ better fl buying b a
  better-not true a b = refl
  better-not false a b = refl

  -- A price that reaches `s` is past one that does not.
  better_past :
      (buying : Bool) (l o s : F)
      → IsPrice fl l
      → IsPrice fl o
      → better fl buying l s ≡ true
      → better fl buying o s ≡ false
      → better fl (not buying) o l ≡ true
  better_past buying l o s p q h g = elim (Bool-cases (better fl buying l o)) [
    | inl e ↦ better-not buying o l ∙ e
    | inr e ↦ elim (Bool-cases (better fl buying o l)) [
      | inl k ↦ elim (true≢false (sym (better_trans fl order buying o l s k h) ∙ g)) [ ]
      | inr k ↦
          let same = better_total buying l o p q e k in
          elim (true≢false (sym h ∙ ap (λ x. better fl buying x s) same ∙ g)) [ ]
    ]
  ]

  -- So an order that trades comes to the front of its own side.
  goes_first :
      (buying : Bool) (o : Order F) (own : List (Level F)) (s : Level F) (rest : List (Level F))
      → IsPrice fl o.price
      → IsShelf fl (better fl (not buying)) own
      → Apart fl order buying own (s ∷ rest)
      → better fl buying o.price s.price ≡ false
      → All (λ m. better fl (not buying) o.price m.price ≡ true) own
  goes_first buying o [] s rest price shelf apart cross = tt
  goes_first buying o (l ∷ own) s rest price (some_orders, lp, at, lower, shelf) apart cross =
      let first = better_past buying l.price o.price s.price lp price apart.0.0 cross in
      (
        first,
        All-imp (λ m. better fl (not buying) l.price m.price ≡ true)
            (λ m. better fl (not buying) o.price m.price ≡ true)
            (λ m. better_trans fl order (not buying) o.price l.price m.price first) own lower,
      )

push_back-front :
    {F : Type 0} (before : F → F → Bool) (price : F) (o : Order F) (levels : List (Level F))
    → All (λ m. before price m.price ≡ true) levels
    → push_back before price o levels ≡ record { price = price; orders = o ∷ [] } ∷ levels
unfolding push_back
push_back-front before price o [] h = refl
push_back-front before price o (l ∷ levels) (first, others) = rw (first, push_back) refl

module _ (fl : Floats) (order : PriceOrder fl) (clock : ℕ → ℕ) (publish : ℕ → Bool)
    (buying : Bool) where
  open fl use {F}

  -- The book after an order, next to what its walk says.
  pub record Added (e e' : Engine F) (own : List (Level F)) (w : Walk F) : Type 0 where
    pub own' : List (Level F)
    pub facing' : List (Level F)
    pub sides : Facing fl clock publish buying e' own' facing'
    pub own_shelf : IsShelf fl (better fl (not buying)) own'
    pub facing_shelf : IsShelf fl (better fl buying) facing'
    pub apart : Apart fl order buying own' facing'
    pub joined : flat own' ≡ join (better fl (not buying)) w.left (flat own)
    pub walked : flat facing' ≡ w.facing
    pub counted : e'.next_match_id ≡ e.next_match_id + length w.trades
    pub told : e'.published ≡ e.published ++ taken fl clock publish w.trades

  walk-clear :
      (matches : ℕ) (o : Order F) (facing : List (Level F))
      → IsShelf fl (better fl buying) facing
      → All (λ m. better fl buying o.price m.price ≡ true) facing
      → walk fl clock publish buying matches o (flat facing)
        ≡ record { left = some o; facing = flat facing; trades = [] }
  unfolding walk flat
  walk-clear matches o [] shelf h = refl
  walk-clear matches o (s ∷ rest) shelf h =
      let (waiting, behind, at) = nonempty s.orders shelf.0 in
      let first : (waiting.price ≡ s.price) × All (λ k. k.price ≡ s.price) behind =
        rw at at shelf.2 in
      rw at (
        walk-stop fl order clock publish buying matches o waiting (behind ++ flat rest)
          (rw first.0 h.0))

  -- The order trades with no one.
  Added-clear :
      (e : Engine F) (o : Order F) (own facing : List (Level F))
      → IsPrice fl o.price
      → Facing fl clock publish buying e (push_back (better fl (not buying)) o.price o own) facing
      → IsShelf fl (better fl (not buying)) own
      → IsShelf fl (better fl buying) facing
      → Apart fl order buying own facing
      → All (λ m. better fl buying o.price m.price ≡ true) facing
      → (n : ℕ)
      → Added e
          (match_rounds fl clock publish n e)
          own
          (walk fl clock publish buying e.next_match_id o (flat facing))
  unfolding taken join
  Added-clear e o own facing price sides shelf shelf' apart clear n =
      let before = better fl (not buying) in
      let trans = better_trans fl order (not buying) in
      let total = better_total fl order (not buying) in
      let irrefl = better_irrefl fl order (not buying) in
      let apart' =
        push_back-All before (λ p. All (λ m. better fl buying p m.price ≡ true) facing) o.price o
          own clear apart in
      let stays = match_rounds-Apart fl order clock publish buying n e _ facing sides apart' in
      subst (λ end. Added e end own (walk fl clock publish buying e.next_match_id o (flat facing)))
        (sym stays)
        (subst (Added e e own) (sym (walk-clear e.next_match_id o facing shelf' clear)) record {
          own' = push_back before o.price o own;
          facing' = facing;
          sides = sides;
          own_shelf = push_back-IsShelf fl before trans total irrefl o own price shelf;
          facing_shelf = shelf';
          apart = apart';
          joined = flat-push_back fl before trans total irrefl o own price shelf;
          walked = refl;
          counted = omega arith;
          told = sym (append-nil e.published);
        })

  walk-left_price :
      (matches : ℕ) (o : Order F) (orders : List (Order F))
      → AllLeft (λ k. k.price ≡ o.price) (walk fl clock publish buying matches o orders).left
  unfolding walk
  walk-left_price matches o [] = refl
  walk-left_price matches o (waiting ∷ orders) =
      let qty = min_int o.quantity waiting.quantity in
      let rest = walk-left_price (matches + 1) (record o { quantity = o.quantity - qty }) orders in
      elim (Bool-cases (better fl buying o.price waiting.price)) [
        | inl e ↦ rw (e, walk) refl
        | inr e ↦ elim (Bool-cases (o.quantity - qty == 0)) [
          | inl g ↦ rw (e, g, walk) tt
          | inr g ↦ rw (e, g, walk) rest
        ]
      ]

  -- What is left of an order that trades stands before all of its side.
  rested-Added :
      (o : Order F) (own : List (Level F)) (left : Option (Order F))
      → IsPrice fl o.price
      → IsShelf fl (better fl (not buying)) own
      → All (λ m. better fl (not buying) o.price m.price ≡ true) own
      → AllLeft (λ k. k.price ≡ o.price) left
      → IsShelf fl (better fl (not buying)) (rested left own)
        × (flat (rested left own) ≡ join (better fl (not buying)) left (flat own))
  unfolding join flat
  rested-Added o own none price shelf first same = (shelf, refl)
  rested-Added o own (some k) price shelf first same =
      let first' =
        subst (λ p. All (λ m. better fl (not buying) p m.price ≡ true) own) (sym same) first in
      (
        (omega arith, subst (IsPrice fl) (sym same) price, (refl, tt), first', shelf),
        sym (queue-front fl (better fl (not buying)) k own shelf first'),
      )

  Added-trading :
      (e : Engine F) (o : Order F) (own : List (Level F)) (s : Level F) (rest : List (Level F))
      → IsPrice fl o.price
      → Facing fl clock publish buying e
          (push_back (better fl (not buying)) o.price o own)
          (s ∷ rest)
      → IsShelf fl (better fl (not buying)) own
      → IsShelf fl (better fl buying) (s ∷ rest)
      → Apart fl order buying own (s ∷ rest)
      → better fl buying o.price s.price ≡ false
      → All (λ waiting. waiting.seq_no < o.seq_no) (flat (s ∷ rest))
      → (n : ℕ) → length (flat (s ∷ rest)) ≤ n
      → Added e
          (match_rounds fl clock publish n e)
          own
          (walk fl clock publish buying e.next_match_id o (flat (s ∷ rest)))
  Added-trading e o own s rest price sides shelf shelf' apart cross newest n enough =
      let first = goes_first fl order buying o own s rest price shelf apart cross in
      let front = push_back-front (better fl (not buying)) o.price o own first in
      let sides' = subst (λ ls. Facing fl clock publish buying e ls (s ∷ rest)) front sides in
      let end =
        match_rounds-Outcome fl order clock publish buying n e o own (s ∷ rest) sides' shelf' apart
          newest enough in
      let w = walk fl clock publish buying e.next_match_id o (flat (s ∷ rest)) in
      let same = walk-left_price e.next_match_id o (flat (s ∷ rest)) in
      let (own_shelf, joined) = rested-Added o own w.left price shelf first same in
      record {
        own' = rested w.left own;
        facing' = end.facing;
        sides = end.sides;
        own_shelf = own_shelf;
        facing_shelf = end.shelf;
        apart = end.apart;
        joined = joined;
        walked = end.as_walked;
        counted = end.counted;
        told = end.told;
      }

  pub match_rounds-Added :
      (e : Engine F) (o : Order F) (own facing : List (Level F))
      → IsPrice fl o.price
      → Facing fl clock publish buying e (push_back (better fl (not buying)) o.price o own) facing
      → IsShelf fl (better fl (not buying)) own
      → IsShelf fl (better fl buying) facing
      → Apart fl order buying own facing
      → All (λ waiting. waiting.seq_no < o.seq_no) (flat facing)
      → (n : ℕ) → side_size facing ≤ n
      → Added e
          (match_rounds fl clock publish n e)
          own
          (walk fl clock publish buying e.next_match_id o (flat facing))
  match_rounds-Added e o own [] price sides shelf shelf' apart newest n enough =
      Added-clear e o own [] price sides shelf shelf' apart tt n
  match_rounds-Added e o own (s ∷ rest) price sides shelf shelf' apart newest n enough =
      elim (Bool-cases (better fl buying o.price s.price)) [
        | inl stop ↦
            let lower =
              All-imp (λ m. better fl buying s.price m.price ≡ true)
                (λ m. better fl buying o.price m.price ≡ true)
                (λ m. better_trans fl order buying o.price s.price m.price stop) rest shelf'.3 in
            Added-clear e o own (s ∷ rest) price sides shelf shelf' apart (stop, lower) n
        | inr cross ↦
            Added-trading e o own s rest price sides shelf shelf' apart cross newest n
              (omega (arith, flat_size (s ∷ rest)))
      ]
