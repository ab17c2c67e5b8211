-- ===== src/Engine/Priority/Loop.antt =====
-- The loop of `matching` for an order that is alone at the front of its side.
use trade_plat.Common.{
  ℕ, zero, suc, ◌+◌, ◌-◌, ◌≤◌, ◌<◌, ◌≡◌, ◌∙◌, refl, sym, ap, ap₂, subst, List, [], ◌∷◌, ◌++◌, none,
  some, Bool, true, false, inl, inr, Bool-cases, ◌==◌, arith, All, All-imp, length,
}
use trade_plat.Common.Floats.{Floats, PriceOrder}
use trade_plat.Engine.Book.{Order, Level, keep_level}
use trade_plat.Engine.Matching.{Engine, min_int, match_step, match_rounds}
use trade_plat.Engine.Matching.Rest.{min_int-takes}
use trade_plat.Engine.Priority.{flat, settled, better, Walk, walk}
use trade_plat.Engine.Priority.Shelf.{
  nonempty, flat-keep_level, settled-All, IsShelf, keep_level-IsShelf,
}
use trade_plat.Engine.Priority.Round.{Facing, Traded, match_step-Traded}
use trade_plat.Engine.Priority.Rounds.{
  settled-append, rested, better_trans, Apart, match_rounds-some, Outcome, walk-stop, walk-last,
  walk-next, Outcome-Traded, keep_level-Apart, outcome_stop,
}

settled-filled :
    {F : Type 0} (qty : ℕ) (o : Order F) (orders : List (Order F))
    → (o.quantity - qty == 0) ≡ true
    → settled qty o orders ≡ orders
settled-filled qty o orders h = rw h refl

settled-left :
    {F : Type 0} (qty : ℕ) (o : Order F) (orders : List (Order F))
    → (o.quantity - qty == 0) ≡ false
    → settled qty o orders ≡ record o { quantity = o.quantity - qty } ∷ orders
settled-left qty o orders h = rw h refl

-- An order that is not filled fills the one that waits.
waiting_filled : (a b : ℕ) → (a - min_int a b == 0) ≡ false → (b - min_int a b == 0) ≡ true
waiting_filled a b h = elim (min_int-takes a b) [
  | inl e ↦ ground (arith, e)
  | inr e ↦ ground (arith, e)
]

module _ (fl : Floats) (order : PriceOrder fl) (clock : ℕ → ℕ) (publish : ℕ → Bool)
    (buying : Bool) where
  open fl use {F}

  abbrev Newest : Order F → List (Level F) → Type 0
  Newest o facing = All (λ waiting. waiting.seq_no < o.seq_no) (flat facing)

  -- The order trades with the one that has waited longest at the level `s`.
  front_price :
      (s : Level F) (waiting : Order F) (behind : List (Order F))
      → s.orders ≡ waiting ∷ behind
      → All (λ o. o.price ≡ s.price) s.orders
      → (waiting.price ≡ s.price) × All (λ o. o.price ≡ s.price) behind
  front_price s waiting behind e h = rw e at h

  flat-front :
      (s : Level F) (rest : List (Level F)) (waiting : Order F) (behind : List (Order F))
      → s.orders ≡ waiting ∷ behind
      → flat (s ∷ rest) ≡ waiting ∷ (behind ++ flat rest)
  unfolding flat
  flat-front s rest waiting behind e = ap (λ os. os ++ flat rest) e

  -- What is left of the level and those behind it is a shelf.
  settled-IsShelf :
      (qty : ℕ) (s : Level F) (rest : List (Level F)) (waiting : Order F) (behind : List (Order F))
      → s.orders ≡ waiting ∷ behind
      → IsShelf fl (better fl buying) (s ∷ rest)
      → IsShelf fl (better fl buying) (keep_level s.price (settled qty waiting behind) rest)
  settled-IsShelf qty s rest waiting behind e (some_orders, price, at, lower, shelf) =
      let (first, others) = front_price s waiting behind e at in
      keep_level-IsShelf fl (better fl buying) s.price (settled qty waiting behind) rest price
        (settled-All (λ o. o.price ≡ s.price) qty waiting behind first others) lower shelf

  -- A round, and what the rounds behind it come to.
  Outcome-round :
      (n : ℕ) (e e' : Engine F) (own : List (Level F)) (w w' : Walk F)
      → match_step fl clock publish e ≡ some e'
      → w ≡ w'
      → Outcome fl order clock publish buying e (match_rounds fl clock publish n e') own w'
      → Outcome fl order clock publish buying e (match_rounds fl clock publish (suc n) e) own w
  Outcome-round n e e' own w w' step walked done =
      subst (λ end. Outcome fl order clock publish buying e end own w)
        (sym (match_rounds-some fl order clock publish n e e' step))
        (subst (Outcome fl order clock publish buying e (match_rounds fl clock publish n e') own)
          (sym walked) done)

  Outcome-stop :
      (n : ℕ) (e : Engine F) (o : Order F) (own : List (Level F)) (s : Level F)
      (rest : List (Level F)) (waiting : Order F) (behind : List (Order F))
      → s.orders ≡ waiting ∷ behind
      → Facing fl clock publish buying e (rested (some o) own) (s ∷ rest)
      → IsShelf fl (better fl buying) (s ∷ rest)
      → Apart fl order buying own (s ∷ rest)
      → better fl buying o.price s.price ≡ true
      → Outcome fl order clock publish buying e
          (match_rounds fl clock publish n e)
          own
          (walk fl clock publish buying e.next_match_id o (flat (s ∷ rest)))
  Outcome-stop n e o own s rest waiting behind at sides shelf apart stop =
      let flat_at = flat-front s rest waiting behind at in
      let first = (front_price s waiting behind at shelf.2).0 in
      let walked =
        ap (walk fl clock publish buying e.next_match_id o) flat_at
        ∙ walk-stop fl order clock publish buying e.next_match_id o waiting (behind ++ flat rest)
            (rw first stop) in
      let lower =
        All-imp (λ m. better fl buying s.price m.price ≡ true)
          (λ m. better fl buying o.price m.price ≡ true)
          (λ m. better_trans fl order buying o.price s.price m.price stop) rest shelf.3 in
      subst (Outcome fl order clock publish buying e (match_rounds fl clock publish n e) own)
        (sym walked)
        (outcome_stop fl order clock publish buying n e o own (s ∷ rest) _ sides
          ((stop, lower), apart) shelf flat_at refl)

  Outcome-last :
      (n : ℕ) (e : Engine F) (o : Order F) (own : List (Level F)) (s : Level F)
      (rest : List (Level F)) (waiting : Order F) (behind : List (Order F))
      → s.orders ≡ waiting ∷ behind
      → Facing fl clock publish buying e (rested (some o) own) (s ∷ rest)
      → IsShelf fl (better fl buying) (s ∷ rest)
      → Apart fl order buying own (s ∷ rest)
      → better fl buying o.price s.price ≡ false
      → waiting.seq_no < o.seq_no
      → (o.quantity - min_int o.quantity waiting.quantity == 0) ≡ true
      → Outcome fl order clock publish buying e
          (match_rounds fl clock publish (suc n) e)
          own
          (walk fl clock publish buying e.next_match_id o (flat (s ∷ rest)))
  Outcome-last n e o own s rest waiting behind at sides shelf apart cross later filled =
      let qty = min_int o.quantity waiting.quantity in
      let facing = keep_level s.price (settled qty waiting behind) rest in
      let first = (front_price s waiting behind at shelf.2).0 in
      let (e', step, traded) =
        match_step-Traded fl clock publish buying e o own s waiting behind rest sides at cross
          later in
      let gone : keep_level o.price (settled qty o []) own ≡ own =
        ap (λ os. keep_level o.price os own) (settled-filled qty o [] filled) in
      let traded' =
        subst (λ ls. Traded fl clock publish buying e e' o waiting ls facing) gone traded in
      let walked =
        ap (walk fl clock publish buying e.next_match_id o) (flat-front s rest waiting behind at)
        ∙ walk-last fl order clock publish buying e.next_match_id o waiting (behind ++ flat rest)
            (rw first cross) filled in
      let stopped =
        outcome_stop fl order clock publish buying n e' o own facing
          (record { left = none; facing = settled qty waiting (behind ++ flat rest); trades = [] })
          traded'.sides
          (keep_level-Apart fl order clock publish buying own s.price (settled qty waiting behind) s
            rest refl apart)
          (settled-IsShelf qty s rest waiting behind at shelf)
          (flat-keep_level s.price (settled qty waiting behind) rest
            ∙ sym (settled-append qty waiting behind (flat rest)))
          refl in
      Outcome-round n e e' own _ _ step walked (
        Outcome-Traded fl order clock publish buying e e' (match_rounds fl clock publish n e') o
          waiting own own facing _ traded' stopped)

  Outcome-next :
      (n : ℕ) (e : Engine F) (o : Order F) (own : List (Level F)) (s : Level F)
      (rest : List (Level F)) (waiting : Order F) (behind : List (Order F))
      → s.orders ≡ waiting ∷ behind
      → Facing fl clock publish buying e (rested (some o) own) (s ∷ rest)
      → IsShelf fl (better fl buying) (s ∷ rest)
      → better fl buying o.price s.price ≡ false
      → waiting.seq_no < o.seq_no
      → (o.quantity - min_int o.quantity waiting.quantity == 0) ≡ false
      → ((e' : Engine F)
          → Facing fl clock publish buying e'
              (rested
                (some (record o { quantity = o.quantity - min_int o.quantity waiting.quantity }))
                own)
              (keep_level s.price behind rest)
          → Outcome fl order clock publish buying e' (match_rounds fl clock publish n e') own (
              walk fl clock publish buying e'.next_match_id
                (record o { quantity = o.quantity - min_int o.quantity waiting.quantity })
                (flat (keep_level s.price behind rest))))
      → Outcome fl order clock publish buying e
          (match_rounds fl clock publish (suc n) e)
          own
          (walk fl clock publish buying e.next_match_id o (flat (s ∷ rest)))
  Outcome-next n e o own s rest waiting behind at sides shelf cross later left ih =
      let qty = min_int o.quantity waiting.quantity in
      let o' = record o { quantity = o.quantity - qty } in
      let facing = keep_level s.price behind rest in
      let first = (front_price s waiting behind at shelf.2).0 in
      let (e', step, traded) =
        match_step-Traded fl clock publish buying e o own s waiting behind rest sides at cross
          later in
      let stays : keep_level o.price (settled qty o []) own ≡ rested (some o') own =
        ap (λ os. keep_level o.price os own) (settled-left qty o [] left) in
      let goes : keep_level s.price (settled qty waiting behind) rest ≡ facing =
        ap (λ os. keep_level s.price os rest)
          (settled-filled qty waiting behind (waiting_filled o.quantity waiting.quantity left)) in
      let traded' =
        subst (λ ls. Traded fl clock publish buying e e' o waiting ls facing) stays
          (subst
            (λ ls.
              Traded fl clock publish buying e e' o waiting
                (keep_level o.price (settled qty o []) own) ls)
            goes traded) in
      let same =
        ap₂ (λ k os. walk fl clock publish buying k o' os) traded'.counted
          (flat-keep_level s.price behind rest) in
      let w = walk fl clock publish buying (e.next_match_id + 1) o' (behind ++ flat rest) in
      let walked =
        ap (walk fl clock publish buying e.next_match_id o) (flat-front s rest waiting behind at)
        ∙ walk-next fl order clock publish buying e.next_match_id o waiting (behind ++ flat rest) w
            (rw first cross) left refl in
      let later_rounds : Outcome fl order clock publish buying e'
          (match_rounds fl clock publish n e') own w =
        subst (Outcome fl order clock publish buying e' (match_rounds fl clock publish n e') own)
          same (ih e' traded'.sides) in
      Outcome-round n e e' own _ _ step walked (
        Outcome-Traded fl order clock publish buying e e' (match_rounds fl clock publish n e') o
          waiting own (rested (some o') own) facing w traded' later_rounds)

  pub match_rounds-Outcome :
      (n : ℕ) (e : Engine F) (o : Order F) (own facing : List (Level F))
      → Facing fl clock publish buying e (rested (some o) own) facing
      → IsShelf fl (better fl buying) facing
      → Apart fl order buying own facing
      → Newest o facing
      → length (flat facing) ≤ n
      → Outcome fl order clock publish buying e
          (match_rounds fl clock publish n e)
          own
          (walk fl clock publish buying e.next_match_id o (flat facing))
  unfolding walk flat
  match_rounds-Outcome n e o own [] sides shelf apart newest enough =
      outcome_stop fl order clock publish buying n e o own [] _ sides (tt, apart) shelf refl refl
  match_rounds-Outcome zero e o own (s ∷ rest) sides shelf apart newest enough =
      let (waiting, behind, at) = nonempty s.orders shelf.0 in
      absurd (omega (arith, ap length (flat-front s rest waiting behind at)))
  match_rounds-Outcome (suc n) e o own (s ∷ rest) sides shelf apart newest enough =
      let (waiting, behind, at) = nonempty s.orders shelf.0 in
      let flat_at = flat-front s rest waiting behind at in
      let qty = min_int o.quantity waiting.quantity in
      let (later, laters) : (waiting.seq_no < o.seq_no)
          × All (λ w. w.seq_no < o.seq_no) (behind ++ flat rest) =
        subst (All (λ w. w.seq_no < o.seq_no)) flat_at newest in
      elim (Bool-cases (better fl buying o.price s.price)) [
        | inl stop ↦ Outcome-stop (suc n) e o own s rest waiting behind at sides shelf apart stop
        | inr cross ↦ elim (Bool-cases (o.quantity - qty == 0)) [
          | inl filled ↦
              Outcome-last n e o own s rest waiting behind at sides shelf apart cross later filled
          | inr left ↦
              let facing = keep_level s.price behind rest in
              let at_rest = flat-keep_level s.price behind rest in
              Outcome-next n e o own s rest waiting behind at sides shelf cross later left
                (λ e' sides'.
                  match_rounds-Outcome n e' (record o { quantity = o.quantity - qty }) own facing
                    sides'
                    (keep_level-IsShelf fl (better fl buying) s.price behind rest shelf.1
                      (front_price s waiting behind at shelf.2).1 shelf.3 shelf.4)
                    (keep_level-Apart fl order clock publish buying own s.price behind s rest refl
                      apart)
                    (subst (All (λ w. w.seq_no < o.seq_no)) (sym at_rest) laters)
                    (omega (arith, ap length at_rest, ap length flat_at)))
        ]
      ]
