-- ===== src/Fleet/Strategy/Sendable.antt =====
-- The orders of the strategies: `struct.pack` takes them, and they are numbered.
use mathlib.Core.List.{append-nil}
use trade_plat.Common.{
  ℕ, ◌+◌, ◌*◌, ◌^◌, ◌≤◌, ◌<◌, ◌≡◌, ◌≢◌, ◌∙◌, refl, sym, ap, subst, List, [], ◌∷◌, some, Bool, true,
  ltb, inl, inr, Bool-cases, All, arith, length,
}
use trade_plat.Common.Floats.{Floats, Codec}
use trade_plat.Wire.Order.{OrderMessage, layout, packable, pack, unpack}
use trade_plat.Wire.Order.RoundTrip.{unpack-pack}
use trade_plat.Fleet.Bot.{
  Bot, Try, Connection, connected, stopped, escaped, pending, Connecting, usable, connect, transmit,
  send_connected, send_order,
}
use trade_plat.Fleet.Connect.{connect-Ends}
use trade_plat.Fleet.Orders.{generate_order_id, side_code-lt, order_message, format_order}
use trade_plat.Fleet.Strategy.{
  ℤ, ◌+ℤ◌, Leg, Ending, halted, struct_error, watched, Log, ended, handed, packed, MakerRound,
  NoiseRound, MomentumRound, place, market_maker, noise_maker, momentum_maker,
}

transmit-counter :
    (written : Bool) (b : Bot) → (transmit written b).order_id_counter ≡ b.order_id_counter
unfolding transmit
transmit-counter written b = ground arith

send_connected-counter :
    (written : Bool) (a : Connection) (c : Connecting)
    → c.answer ≡ a
    → (send_connected written c).0.order_id_counter ≡ c.bot.order_id_counter
unfolding send_connected
send_connected-counter written connected c h =
    rw (h, send_connected) (transmit-counter written c.bot)
send_connected-counter written stopped c h = rw (h, send_connected) refl
send_connected-counter written escaped c h = rw (h, send_connected) refl
send_connected-counter written pending c h = rw (h, send_connected) refl

send_order-counter :
    (tries : List Try) (written : Bool) (b : Bot)
    → (send_order tries written b).0.order_id_counter ≡ b.order_id_counter
unfolding send_order
send_order-counter tries written b = elim (Bool-cases (usable b.writer)) [
  | inl ready ↦ rw (ready, send_order) (transmit-counter written b)
  | inr unready ↦
      rw (unready, send_order)
        (send_connected-counter written (connect b tries).answer (connect b tries) refl
          ∙ (connect-Ends b tries).counter_same)
]

-- The bounds of `randint`, and a clock of 64 bits.
abbrev Small : ℕ → Type 0
Small qty = (1 ≤ qty) × (qty ≤ 100)

abbrev Timely : Leg → Type 0
Timely leg = leg.time_ns < 2 ^ 64

abbrev pub MakerDrawn : {F : Type 0} → MakerRound F → Type 0
MakerDrawn r = Small r.qty × Timely r.buy × Timely r.sell

abbrev pub NoiseDrawn : {F : Type 0} → NoiseRound F → Type 0
NoiseDrawn r = Small r.qty × Timely r.leg

abbrev pub MomentumDrawn : {F : Type 0} → MomentumRound F → Type 0
MomentumDrawn r = Small r.qty × Timely r.leg

module _ (fl : Floats) (codec : Codec fl) where
  open fl use {F}

  -- The gateway reads orders with the numbers behind `counter`, of 1 to 100 units each.
  abbrev pub Numbered : ℕ → List (List ℕ) → Type 0
  Numbered counter [] = Unit {0}
  Numbered counter (p ∷ packets) =
      ((unpack fl p).order_id ≡ counter + 1)
      × (1 ≤ (unpack fl p).qty)
      × ((unpack fl p).qty ≤ 100)
      × Numbered (counter + 1) packets

  pub record Sendable (counter : ℕ) (l : Log) : Type 0 where
    pub packs : l.ending ≢ struct_error
    pub numbered : Numbered counter l.packets

  pack_fits :
      (m : OrderMessage F)
      → m.order_id < 2 ^ 64
      → m.timestamp_ns < 2 ^ 64
      → m.qty < 2 ^ 32
      → m.side < 256
      → pack fl m ≡ some (layout fl m)
  unfolding pack packable
  pack_fits m i t q s =
      let i' : ltb m.order_id (2 ^ 64) ≡ true = ground (arith, i) in
      let t' : ltb m.timestamp_ns (2 ^ 64) ≡ true = ground (arith, t) in
      let q' : ltb m.qty (2 ^ 32) ≡ true = ground (arith, q) in
      let s' : ltb m.side 256 ≡ true = ground (arith, s) in rw (i', t', q', s') refl

  ended-Sendable :
      (counter : ℕ) (e : Ending) (b : Bot) → e ≢ struct_error → Sendable counter (ended e b)
  unfolding ended
  ended-Sendable counter e b h = record { packs = h; numbered = tt }

  handed-Sendable :
      (counter : ℕ) (packet : List ℕ) (b : Bot) (c : Connection) (next : Bot → Log)
      → ((unpack fl packet).order_id ≡ counter + 1)
        × (1 ≤ (unpack fl packet).qty)
        × ((unpack fl packet).qty ≤ 100)
      → Sendable (counter + 1) (next b)
      → Sendable counter (handed packet (b, c) next)
  unfolding handed
  handed-Sendable counter packet b pending next (i, q, k) h = record {
    packs = λ e. cc;
    numbered = (i, q, k, tt);
  }
  handed-Sendable counter packet b escaped next (i, q, k) h = record {
    packs = λ e. cc;
    numbered = (i, q, k, tt);
  }
  handed-Sendable counter packet b connected next (i, q, k) h = record {
    packs = h.packs;
    numbered = (i, q, k, h.numbered);
  }
  handed-Sendable counter packet b stopped next (i, q, k) h = record {
    packs = h.packs;
    numbered = (i, q, k, h.numbered);
  }

  place-Sendable :
      (leg : Leg) (side qty : ℕ) (price : F) (b : Bot) (next : Bot → Log)
      → Timely leg
      → Small qty
      → b.order_id_counter + 1 < 2 ^ 64
      → ((b' : Bot)
          → b'.order_id_counter ≡ b.order_id_counter + 1
          → Sendable b'.order_id_counter (next b'))
      → Sendable b.order_id_counter (place fl leg side qty price b next)
  unfolding place packed format_order generate_order_id order_message
  place-Sendable leg side qty price b next timely (least, most) room then_next =
      let m = order_message fl (b.order_id_counter + 1) side qty price leg.time_ns in
      let fits = pack_fits m room timely (omega arith) (side_code-lt side) in
      let (same, _) = unpack-pack fl codec m (layout fl m) [] fits in
      let read = ap (unpack fl) (sym (append-nil (layout fl m))) ∙ same in
      let b' = record b { order_id_counter = b.order_id_counter + 1 } in
      let sent = send_order leg.tries leg.written b' in
      let counted : sent.0.order_id_counter ≡ b.order_id_counter + 1 =
        send_order-counter leg.tries leg.written b' in
      rw fits (
        handed-Sendable b.order_id_counter (layout fl m) sent.0 sent.1 next
          (
            ap (λ (o : OrderMessage F). o.order_id) read,
            subst (λ (o : OrderMessage F). 1 ≤ o.qty) (sym read) least,
            subst (λ (o : OrderMessage F). o.qty ≤ 100) (sym read) most,
          )
          (subst (λ n. Sendable n (next sent.0)) counted (then_next sent.0 counted)))

  market_maker-Sendable :
      (rounds : List (MakerRound F)) (inventory : ℤ) (mid_price : F) (b : Bot)
      → All MakerDrawn rounds
      → b.order_id_counter + 2 * length rounds < 2 ^ 64
      → Sendable b.order_id_counter (market_maker fl rounds inventory mid_price b)
  unfolding market_maker
  market_maker-Sendable [] inventory mid_price b drawn room =
      ended-Sendable b.order_id_counter watched b (λ e. cc)
  market_maker-Sendable (r ∷ rounds) inventory mid_price b ((small, timely, timely'), drawn) room =
      elim (Bool-cases r.running) [
        | inr off ↦ rw (off, market_maker) (ended-Sendable b.order_id_counter halted b (λ e. cc))
        | inl on ↦
            rw (on, market_maker)
              (place-Sendable r.buy b'B' r.qty _ b _ timely small (omega arith) (λ b' h.
                let room' : b'.order_id_counter + 1 + 2 * length rounds < 2 ^ 64 =
                  omega (arith, h, room) in
                place-Sendable r.sell b'S' r.qty _ b' _ timely' small (omega arith) (λ b'' h'.
                  let room'' : b''.order_id_counter + 2 * length rounds < 2 ^ 64 =
                    omega (arith, h', room') in
                  market_maker-Sendable rounds (inventory +ℤ r.inventory_drift)
                    (fl.add mid_price r.price_drift) b'' drawn room'')))
      ]

  noise_maker-Sendable :
      (rounds : List (NoiseRound F)) (b : Bot)
      → All NoiseDrawn rounds
      → b.order_id_counter + length rounds < 2 ^ 64
      → Sendable b.order_id_counter (noise_maker fl rounds b)
  unfolding noise_maker
  noise_maker-Sendable [] b drawn room = ended-Sendable b.order_id_counter watched b (λ e. cc)
  noise_maker-Sendable (r ∷ rounds) b ((small, timely), drawn) room = elim (Bool-cases r.running) [
    | inr off ↦ rw (off, noise_maker) (ended-Sendable b.order_id_counter halted b (λ e. cc))
    | inl on ↦
        rw (on, noise_maker)
          (place-Sendable r.leg r.side r.qty _ b (noise_maker fl rounds) timely small (omega arith)
            (λ b' h.
              let room' : b'.order_id_counter + length rounds < 2 ^ 64 = omega (arith, h, room) in
              noise_maker-Sendable rounds b' drawn room'))
  ]

  momentum_maker-Sendable :
      (rounds : List (MomentumRound F)) (up : Bool) (current_price : F) (b : Bot)
      → All MomentumDrawn rounds
      → b.order_id_counter + length rounds < 2 ^ 64
      → Sendable b.order_id_counter (momentum_maker fl rounds up current_price b)
  unfolding momentum_maker
  momentum_maker-Sendable [] up current_price b drawn room =
      ended-Sendable b.order_id_counter watched b (λ e. cc)
  momentum_maker-Sendable (r ∷ rounds) up current_price b ((small, timely), drawn) room =
      elim (Bool-cases r.running) [
        | inr off ↦ rw (off, momentum_maker) (ended-Sendable b.order_id_counter halted b (λ e. cc))
        | inl on ↦
            rw (on, momentum_maker)
              (place-Sendable r.leg _ r.qty current_price b _ timely small (omega arith) (λ b' h.
                let room' : b'.order_id_counter + length rounds < 2 ^ 64 = omega (arith, h, room) in
                momentum_maker-Sendable rounds _ _ b' drawn room'))
      ]

  -- No strategy stops on a struct.error: with draws of `randint` between 1 and 100, a clock of 64
  -- bits and a counter that stays below 2^64, each of the three loops hands `send_order` packets
  -- that the gateway reads as orders of 1 to 100 units, numbered one after the other from the
  -- counter of the bot on, whatever the prices and the network do.
  pub strategies-Sendable :
      (makers : List (MakerRound F)) (noises : List (NoiseRound F))
      (moments : List (MomentumRound F)) (inventory : ℤ) (price : F) (up : Bool) (b : Bot)
      → All MakerDrawn makers
      → All NoiseDrawn noises
      → All MomentumDrawn moments
      → b.order_id_counter + 2 * length makers + length noises + length moments < 2 ^ 64
      → Sendable b.order_id_counter (market_maker fl makers inventory price b)
        × Sendable b.order_id_counter (noise_maker fl noises b)
        × Sendable b.order_id_counter (momentum_maker fl moments up price b)
  strategies-Sendable makers noises moments inventory price up b m n o room = (
    market_maker-Sendable makers inventory price b m (omega arith),
    noise_maker-Sendable noises b n (omega arith),
    momentum_maker-Sendable moments up price b o (omega arith),
  )
