-- ===== src/Engine/Priority/Rounds.antt =====
-- The rounds of `matching` after an order has come to the front of its side.
use mathlib.Core.List.{append_assoc, append-nil}
use trade_plat.Common.{
  ℕ, zero, suc, ◌+◌, ◌-◌, ◌≡◌, ◌∙◌, refl, sym, ap, ap₂, List, [], ◌∷◌, ◌++◌, Option, none, some,
  Bool, true, false, inl, inr, Bool-cases, ◌==◌, if◌then◌else◌, arith, All, length,
}
use trade_plat.Common.Floats.{Floats, PriceOrder}
use trade_plat.Scoring.Event.{TradeEvent}
use trade_plat.Engine.Book.{Order, Level, keep_level}
use trade_plat.Engine.Matching.{Engine, min_int, match_levels, match_step, match_rounds}
use trade_plat.Engine.Priority.{flat, settled, better, fill_of, Walk, walk, taken}
use trade_plat.Engine.Priority.Shelf.{keep_level-All, IsShelf}
use trade_plat.Engine.Priority.Round.{
  Facing, Traded, match_levels-stop, match_levels-no_buys, match_levels-no_sells,
}

pub settled-append :
    {F : Type 0} (qty : ℕ) (o : Order F) (xs ys : List (Order F))
    → settled qty o (xs ++ ys) ≡ settled qty o xs ++ ys
settled-append qty o xs ys = elim (Bool-cases (o.quantity - qty == 0)) [
  | inl e ↦ rw e refl
  | inr e ↦ rw e refl
]

-- The front of a side when an order has traded there.
abbrev pub rested : {F : Type 0} → Option (Order F) → List (Level F) → List (Level F)
rested none own = own
rested (some o) own = record { price = o.price; orders = o ∷ [] } ∷ own

module _ (fl : Floats) (order : PriceOrder fl) where
  open fl use {F, lt}
  open order use {lt_trans}

  pub better_trans :
      (buying : Bool) (a b c : F)
      → better fl buying a b ≡ true
      → better fl buying b c ≡ true
      → better fl buying a c ≡ true
  better_trans true a b c h g = lt_trans a b c h g
  better_trans false a b c h g = lt_trans c b a g h

  -- No price of the one side reaches a price of the other.
  abbrev pub Apart : Bool → List (Level F) → List (Level F) → Type 0
  Apart buying own facing = All (λ l. All (λ m. better fl buying l.price m.price ≡ true) facing) own

module _ (fl : Floats) (order : PriceOrder fl) (clock : ℕ → ℕ) (publish : ℕ → Bool) where
  open fl use {F, lt}

  match_rounds-none :
      (n : ℕ) (e : Engine F)
      → match_step fl clock publish e ≡ none
      → match_rounds fl clock publish n e ≡ e
  unfolding match_rounds
  match_rounds-none zero e h = refl
  match_rounds-none (suc n) e h = rw (h, match_rounds) refl

  pub match_rounds-some :
      (n : ℕ) (e e' : Engine F)
      → match_step fl clock publish e ≡ some e'
      → match_rounds fl clock publish (suc n) e ≡ match_rounds fl clock publish n e'
  unfolding match_rounds
  match_rounds-some n e e' h = rw (h, match_rounds) refl

  match_levels-Apart :
      (e : Engine F) (buying : Bool) (own facing : List (Level F))
      → Apart fl order buying own facing
      → match_levels fl clock publish e
          (if buying then own else facing)
          (if buying then facing else own)
        ≡ none
  match_levels-Apart e true [] facing h = match_levels-no_buys fl clock publish e facing
  match_levels-Apart e true (l ∷ own) [] h = match_levels-no_sells fl clock publish e (l ∷ own)
  match_levels-Apart e true (l ∷ own) (m ∷ facing) h =
      match_levels-stop fl clock publish e l own m facing h.0.0
  match_levels-Apart e false [] facing h = match_levels-no_sells fl clock publish e facing
  match_levels-Apart e false (l ∷ own) [] h = match_levels-no_buys fl clock publish e (l ∷ own)
  match_levels-Apart e false (l ∷ own) (m ∷ facing) h =
      match_levels-stop fl clock publish e m facing l own h.0.0

  pub match_step-Apart :
      (buying : Bool) (e : Engine F) (own facing : List (Level F))
      → Facing fl clock publish buying e own facing
      → Apart fl order buying own facing
      → match_step fl clock publish e ≡ none
  unfolding match_step
  match_step-Apart true e own facing (mine, theirs) h =
      ap₂ (λ b s. match_levels fl clock publish e b s) mine theirs
      ∙ match_levels-Apart e true own facing h
  match_step-Apart false e own facing (mine, theirs) h =
      ap₂ (λ b s. match_levels fl clock publish e b s) theirs mine
      ∙ match_levels-Apart e false own facing h

  pub match_rounds-Apart :
      (buying : Bool) (n : ℕ) (e : Engine F) (own facing : List (Level F))
      → Facing fl clock publish buying e own facing
      → Apart fl order buying own facing
      → match_rounds fl clock publish n e ≡ e
  match_rounds-Apart buying n e own facing sides apart =
      match_rounds-none n e (match_step-Apart buying e own facing sides apart)

  -- Where the loop ends: with what the walk of the order says.
  pub record Outcome (buying : Bool) (e e' : Engine F) (own : List (Level F)) (w : Walk F)
      : Type 0 where
    pub facing : List (Level F)
    pub sides : Facing fl clock publish buying e' (rested w.left own) facing
    pub as_walked : flat facing ≡ w.facing
    pub shelf : IsShelf fl (better fl buying) facing
    pub apart : Apart fl order buying (rested w.left own) facing
    pub counted : e'.next_match_id ≡ e.next_match_id + length w.trades
    pub told : e'.published ≡ e.published ++ taken fl clock publish w.trades

  taken-cons :
      (t : TradeEvent F) (ts : List (TradeEvent F))
      → taken fl clock publish (t ∷ ts)
        ≡ taken fl clock publish (t ∷ []) ++ taken fl clock publish ts
  unfolding taken
  taken-cons t ts = elim (Bool-cases (publish t.match_id)) [
    | inl e ↦ rw (e, taken) refl
    | inr e ↦ rw (e, taken) refl
  ]

  module _ (buying : Bool) where
    -- The order trades with no one.
    pub walk-stop :
        (matches : ℕ) (o waiting : Order F) (behind : List (Order F))
        → better fl buying o.price waiting.price ≡ true
        → walk fl clock publish buying matches o (waiting ∷ behind)
          ≡ record { left = some o; facing = waiting ∷ behind; trades = [] }
    unfolding walk
    walk-stop matches o waiting behind h = rw (h, walk) refl

    -- The order is filled.
    pub walk-last :
        (matches : ℕ) (o waiting : Order F) (behind : List (Order F))
        → better fl buying o.price waiting.price ≡ false
        → (o.quantity - min_int o.quantity waiting.quantity == 0) ≡ true
        → walk fl clock publish buying matches o (waiting ∷ behind) ≡ record {
          left = none;
          facing = settled (min_int o.quantity waiting.quantity) waiting behind;
          trades = fill_of fl clock publish buying (matches + 1) o waiting ∷ [];
        }
    unfolding walk
    walk-last matches o waiting behind h g = rw (h, g, walk) refl

    pub walk-next :
        (matches : ℕ) (o waiting : Order F) (behind : List (Order F)) (w : Walk F)
        → better fl buying o.price waiting.price ≡ false
        → (o.quantity - min_int o.quantity waiting.quantity == 0) ≡ false
        → walk fl clock publish buying
            (matches + 1)
            (record o { quantity = o.quantity - min_int o.quantity waiting.quantity })
            behind
          ≡ w
        → walk fl clock publish buying matches o (waiting ∷ behind)
          ≡ record w { trades = fill_of fl clock publish buying (matches + 1) o waiting ∷ w.trades }
    unfolding walk
    walk-next matches o waiting behind w h g e = rw (h, g, walk) (rw e refl)

    pub Outcome-Traded :
        (e e' e'' : Engine F) (o waiting : Order F) (own own' facing' : List (Level F)) (w : Walk F)
        → Traded fl clock publish buying e e' o waiting own' facing'
        → Outcome buying e' e'' own w
        → Outcome buying e e'' own (record w {
          trades = fill_of fl clock publish buying (e.next_match_id + 1) o waiting ∷ w.trades;
        })
    Outcome-Traded e e' e'' o waiting own own' facing' w t r =
        let fill = fill_of fl clock publish buying (e.next_match_id + 1) o waiting in
        record {
          facing = r.facing;
          sides = r.sides;
          as_walked = r.as_walked;
          shelf = r.shelf;
          apart = r.apart;
          counted = omega (arith, r.counted, t.counted);
          told =
              r.told
              ∙ ap (λ es. es ++ taken fl clock publish w.trades) t.told
              ∙ append_assoc e.published (taken fl clock publish (fill ∷ []))
                  (taken fl clock publish w.trades)
              ∙ ap (λ es. e.published ++ es) (sym (taken-cons fill w.trades));
        }

    -- The side that an order faces, after a trade with its front.
    pub keep_level-Apart :
        (own : List (Level F)) (price : F) (orders : List (Order F)) (m : Level F)
        (rest : List (Level F))
        → m.price ≡ price
        → Apart fl order buying own (m ∷ rest)
        → Apart fl order buying own (keep_level price orders rest)
    keep_level-Apart [] price orders m rest e h = tt
    keep_level-Apart (l ∷ own) price orders m rest e (here, later) = (
      keep_level-All (λ p. better fl buying l.price p ≡ true) price orders rest (rw e at here.0)
          here.1,
      keep_level-Apart own price orders m rest e later,
    )

    -- The loop stops at once.
    pub outcome_stop :
        (n : ℕ) (e : Engine F) (o : Order F) (own facing : List (Level F)) (w : Walk F)
        → Facing fl clock publish buying e (rested w.left own) facing
        → Apart fl order buying (rested w.left own) facing
        → IsShelf fl (better fl buying) facing
        → flat facing ≡ w.facing
        → w.trades ≡ []
        → Outcome buying e (match_rounds fl clock publish n e) own w
    unfolding taken
    outcome_stop n e o own facing w sides apart shelf as_walked h =
        let same = match_rounds-Apart buying n e (rested w.left own) facing sides apart in
        rw same record {
          facing = facing;
          sides = sides;
          as_walked = as_walked;
          shelf = shelf;
          apart = apart;
          counted = omega (arith, ap length h);
          told = rw h (sym (append-nil e.published));
        }
