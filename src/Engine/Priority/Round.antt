-- ===== src/Engine/Priority/Round.antt =====
-- One round of `matching`, seen from an order that is alone at the front of its side.
use mathlib.Core.List.{append-nil}
use trade_plat.Common.{
  ℕ, ◌+◌, ◌-◌, ◌<◌, ◌≡◌, ◌∙◌, refl, sym, ap, List, [], ◌∷◌, ◌++◌, none, some, Bool, true, false,
  inl, inr, Bool-cases, ◌==◌, ltb, arith,
}
use trade_plat.Common.Floats.{Floats}
use trade_plat.Scoring.Event.{TradeEvent}
use trade_plat.Engine.Book.{Order, OrderMap, Level, keep_level}
use trade_plat.Engine.Matching.{
  Engine, min_int, settle, trade_of, emit, execute, match_orders, match_levels, match_step,
}
use trade_plat.Engine.Matching.Rest.{settle-filled, settle-left}
use trade_plat.Engine.Priority.{settled, better, fill_of, taken}

settle-settled :
    {F : Type 0} (qty : ℕ) (o : Order F) (orders : List (Order F)) (entries : OrderMap F)
    → (settle qty o orders entries).0 ≡ settled qty o orders
settle-settled qty o orders entries = elim (Bool-cases (o.quantity - qty == 0)) [
  | inl e ↦ rw (settle-filled qty o orders entries (ground arith), e) refl
  | inr e ↦ rw (settle-left qty o orders entries (ground arith), e) refl
]

min_int_comm : (a b : ℕ) → min_int a b ≡ min_int b a
min_int_comm a b = ground arith

module _ (fl : Floats) (clock : ℕ → ℕ) (publish : ℕ → Bool) where
  open fl use {F, lt}

  trade_of-buyer :
      (match_id : ℕ) (o waiting : Order F)
      → waiting.seq_no < o.seq_no
      → trade_of fl clock publish match_id o waiting
        ≡ fill_of fl clock publish true match_id o waiting
  unfolding trade_of fill_of
  trade_of-buyer match_id o waiting h =
      let last : ltb waiting.seq_no o.seq_no ≡ true = ground arith in
      let first : ltb o.seq_no waiting.seq_no ≡ false = ground arith in rw (last, first) refl

  trade_of-seller :
      (match_id : ℕ) (o waiting : Order F)
      → waiting.seq_no < o.seq_no
      → trade_of fl clock publish match_id waiting o
        ≡ fill_of fl clock publish false match_id o waiting
  unfolding trade_of fill_of
  trade_of-seller match_id o waiting h =
      let last : ltb waiting.seq_no o.seq_no ≡ true = ground arith in
      let first : ltb o.seq_no waiting.seq_no ≡ false = ground arith in
      rw (last, first, min_int_comm waiting.quantity o.quantity) refl

  emit-published :
      (event : TradeEvent F) (e : Engine F)
      → (emit fl clock publish event e).published
        ≡ e.published ++ taken fl clock publish (event ∷ [])
  unfolding emit taken
  emit-published event e = elim (Bool-cases (publish event.match_id)) [
    | inl h ↦ rw h refl
    | inr h ↦ rw h (sym (append-nil e.published))
  ]

  -- The sides of the engine, first that of the order.
  abbrev pub Facing : Bool → Engine F → List (Level F) → List (Level F) → Type 0
  Facing true e own facing = (e.buys ≡ own) × (e.sells ≡ facing)
  Facing false e own facing = (e.sells ≡ own) × (e.buys ≡ facing)

  -- What a round with a trade does.
  pub record Traded (buying : Bool) (e e' : Engine F) (o waiting : Order F)
      (own facing : List (Level F)) : Type 0 where
    pub sides : Facing buying e' own facing
    pub counted : e'.next_match_id ≡ e.next_match_id + 1
    pub told :
        e'.published
        ≡ e.published
          ++ taken fl clock publish
              (fill_of fl clock publish buying (e.next_match_id + 1) o waiting ∷ [])

  match_orders-execute :
      (e : Engine F) (bid : F) (buys : List (Order F)) (lower : List (Level F)) (ask : F)
      (sells : List (Order F)) (higher : List (Level F)) (buy : Order F)
      (behind_buy : List (Order F)) (sell : Order F) (behind_sell : List (Order F))
      → buys ≡ buy ∷ behind_buy
      → sells ≡ sell ∷ behind_sell
      → match_orders fl clock publish e bid buys lower ask sells higher
        ≡ execute fl clock publish e bid buy behind_buy lower ask sell behind_sell higher
  unfolding match_orders
  match_orders-execute e bid buys lower ask sells higher buy behind_buy sell behind_sell b s =
      rw (b, s) refl

  match_levels-cross :
      (e : Engine F) (buys sells : List (Level F)) (b : Level F) (lower : List (Level F))
      (s : Level F) (higher : List (Level F)) (buy : Order F) (behind_buy : List (Order F))
      (sell : Order F) (behind_sell : List (Order F))
      → buys ≡ b ∷ lower
      → sells ≡ s ∷ higher
      → b.orders ≡ buy ∷ behind_buy
      → s.orders ≡ sell ∷ behind_sell
      → lt b.price s.price ≡ false
      → match_levels fl clock publish e buys sells
        ≡ some (
            execute fl clock publish e b.price buy behind_buy lower s.price sell behind_sell higher)
  unfolding match_levels
  match_levels-cross e buys sells b lower s higher buy behind_buy sell behind_sell hb hs fb fs
        cross =
      rw (hb, hs, cross, match_levels)
        (ap some (
          match_orders-execute e b.price b.orders lower s.price s.orders higher buy behind_buy sell
            behind_sell fb fs))

  -- The two levels trade, and the order and the one that waits longest have less left.
  pub match_step-Traded :
      (buying : Bool) (e : Engine F) (o : Order F) (own : List (Level F)) (s : Level F)
      (waiting : Order F) (behind : List (Order F)) (rest : List (Level F))
      → Facing buying e (record { price = o.price; orders = o ∷ [] } ∷ own) (s ∷ rest)
      → s.orders ≡ waiting ∷ behind
      → better fl buying o.price s.price ≡ false
      → waiting.seq_no < o.seq_no
      → (e' : Engine F) × (match_step fl clock publish e ≡ some e')
        × Traded buying e e' o waiting
            (keep_level o.price (settled (min_int o.quantity waiting.quantity) o []) own)
            (keep_level s.price (settled (min_int o.quantity waiting.quantity) waiting behind) rest)
  unfolding match_step execute emit trade_of fill_of
  match_step-Traded true e o own s waiting behind rest (mine, theirs) at cross later =
      let qty = min_int o.quantity waiting.quantity in
      (
        execute fl clock publish e o.price o [] own s.price waiting behind rest,
        match_levels-cross e e.buys e.sells (record { price = o.price; orders = o ∷ [] }) own s rest
            o [] waiting behind mine theirs refl at cross,
        record {
          sides = (
            ap (λ os. keep_level o.price os own) (settle-settled qty o [] e.order_map),
            ap (λ os. keep_level s.price os rest)
                (settle-settled qty waiting behind (settle qty o [] e.order_map).1),
          );
          counted = refl;
          told =
              emit-published (trade_of fl clock publish (e.next_match_id + 1) o waiting) e
              ∙ ap (λ t. e.published ++ taken fl clock publish (t ∷ []))
                  (trade_of-buyer (e.next_match_id + 1) o waiting later);
        },
      )
  match_step-Traded false e o own s waiting behind rest (mine, theirs) at cross later =
      let qty = min_int waiting.quantity o.quantity in
      let same = min_int_comm o.quantity waiting.quantity in
      (
        execute fl clock publish e s.price waiting behind rest o.price o [] own,
        match_levels-cross e e.buys e.sells s rest (record { price = o.price; orders = o ∷ [] }) own
            waiting behind o [] theirs mine at refl cross,
        record {
          sides = (
            rw same (
                ap (λ os. keep_level o.price os own)
                  (settle-settled qty o [] (settle qty waiting behind e.order_map).1)),
            rw same (
                ap (λ os. keep_level s.price os rest)
                  (settle-settled qty waiting behind e.order_map)),
          );
          counted = refl;
          told =
              emit-published (trade_of fl clock publish (e.next_match_id + 1) waiting o) e
              ∙ ap (λ t. e.published ++ taken fl clock publish (t ∷ []))
                  (trade_of-seller (e.next_match_id + 1) o waiting later);
        },
      )

  pub match_levels-stop :
      (e : Engine F) (b : Level F) (lower : List (Level F)) (s : Level F) (higher : List (Level F))
      → lt b.price s.price ≡ true
      → match_levels fl clock publish e (b ∷ lower) (s ∷ higher) ≡ none
  unfolding match_levels
  match_levels-stop e b lower s higher h = rw (h, match_levels) refl

  pub match_levels-no_buys :
      (e : Engine F) (sells : List (Level F)) → match_levels fl clock publish e [] sells ≡ none
  unfolding match_levels
  match_levels-no_buys e sells = refl

  pub match_levels-no_sells :
      (e : Engine F) (buys : List (Level F)) → match_levels fl clock publish e buys [] ≡ none
  unfolding match_levels
  match_levels-no_sells e [] = refl
  match_levels-no_sells e (b ∷ buys) = refl
