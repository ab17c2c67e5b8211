-- ===== src/Fleet/Strategy.antt =====
-- bot-fleet/main.py: `Bot.run` and the strategies of the three kinds of bot. What `random` draws,
-- what each send meets and each test of `running` finds are arguments: one record for each round.
pub mod Sendable
use trade_plat.Common.{
  ℕ, zero, suc, ◌+◌, ◌-◌, List, [], ◌∷◌, Option, none, some, Bool, true, false, not, leb,
  if◌then◌else◌,
}
use trade_plat.Common.Floats.{Floats}
use trade_plat.Fleet.Bot.{
  Bot, Try, Connection, connected, stopped, escaped, pending, Connecting, connect, send_order,
}
use trade_plat.Fleet.Orders.{format_order}

-- Python's `int`, where it can be negative.
pub data ℤ : Type 0 where
  pos negsuc : ℕ → ℤ

unfoldable pub sub_nat : ℕ → ℕ → ℤ
sub_nat a b = if leb b a then pos (a - b) else negsuc (b - a - 1)

infixl 6 ◌+ℤ◌
unfoldable pub ◌+ℤ◌ : ℤ → ℤ → ℤ
unfolding sub_nat
pos a +ℤ pos b = pos (a + b)
pos a +ℤ negsuc b = sub_nat a (suc b)
negsuc a +ℤ pos b = sub_nat b (suc a)
negsuc a +ℤ negsuc b = negsuc (suc (a + b))

-- What a send of an order meets: the clock of `format_order` and the network of `send_order`.
pub record Leg : Type 0 where
  pub time_ns : ℕ
  pub tries : List Try
  pub written : Bool

-- How a strategy ends: it finds `running` cleared, `struct.pack` raises, it waits for a
-- connection, `connect` raises, or the rounds that are watched are over.
pub data Ending : Type 0 where
  halted struct_error unconnected connect_error watched : Ending

-- The packets that are handed to `send_order`.
pub record Log : Type 0 where
  pub packets : List (List ℕ)
  pub bot : Bot
  pub ending : Ending

unfoldable pub ended : Ending → Bot → Log
ended ending b = record { packets = []; bot = b; ending = ending }

-- The answer of `send_order` is dropped, but a send that waits for a connection does not return,
-- and an exception of `connect` ends the strategy.
unfoldable pub handed : List ℕ → Bot × Connection → (Bot → Log) → Log
unfolding ended
handed packet (b, pending) next = record { packets = packet ∷ []; bot = b; ending = unconnected }
handed packet (b, escaped) next = record { packets = packet ∷ []; bot = b; ending = connect_error }
handed packet (b, connected) next = let l = next b in record l { packets = packet ∷ l.packets }
handed packet (b, stopped) next = let l = next b in record l { packets = packet ∷ l.packets }

unfoldable pub packed : Leg → Bot × Option (List ℕ) → (Bot → Log) → Log
unfolding handed ended
packed leg (b, none) next = ended struct_error b
packed leg (b, some packet) next = handed packet (send_order leg.tries leg.written b) next

-- The draws of a round of a market maker.
pub record MakerRound (F : Type 0) : Type 0 where
  pub running : Bool
  pub qty : ℕ
  pub buy : Leg
  pub sell : Leg
  pub inventory_drift : ℤ
  pub price_drift : F

pub record NoiseRound (F : Type 0) : Type 0 where
  pub running : Bool
  pub side : ℕ
  pub qty : ℕ
  pub offset : F
  pub leg : Leg

pub record MomentumRound (F : Type 0) : Type 0 where
  pub running : Bool
  pub qty : ℕ
  pub leg : Leg
  pub turns : Bool
  pub step : F

module _ (fl : Floats) where
  open fl use {F, add, sub, mul, div, of_int, decimal, minus_one}

  -- `await self.send_order(self.format_order(side, qty, price))`, and what follows it.
  unfoldable pub place : Leg → ℕ → ℕ → F → Bot → (Bot → Log) → Log
  unfolding packed
  place leg side qty price b next = packed leg (format_order fl side qty price leg.time_ns b) next

  -- `float(n)`
  unfoldable pub float_of : ℤ → F
  float_of (pos n) = of_int n
  float_of (negsuc n) = sub (of_int 0) (of_int (suc n))

  -- `0.5`
  unfoldable pub spread : F
  spread = decimal 5 1

  -- The loop of `MarketMakerBot.bot_logic`.
  unfoldable pub market_maker : List (MakerRound F) → (inventory : ℤ) → (mid_price : F) → Bot → Log
  unfolding place float_of spread ended
  market_maker [] inventory mid_price b = ended watched b
  market_maker (r ∷ rounds) inventory mid_price b =
      let skew = mul (div (float_of inventory) (of_int 1000)) spread in
      elim r.running [
        | false ↦ ended halted b
        | true ↦ place r.buy b'B' r.qty (sub (sub mid_price spread) skew) b (λ b'.
            place r.sell b'S' r.qty (sub (add mid_price spread) skew) b'
              (market_maker rounds (inventory +ℤ r.inventory_drift) (add mid_price r.price_drift)))
      ]

  -- The loop of `NoiseBot.bot_logic`.
  unfoldable pub noise_maker : List (NoiseRound F) → Bot → Log
  unfolding place ended
  noise_maker [] b = ended watched b
  noise_maker (r ∷ rounds) b = elim r.running [
    | false ↦ ended halted b
    | true ↦ place r.leg r.side r.qty (add (of_int 100) r.offset) b (noise_maker rounds)
  ]

  -- The loop of `MomentumBot.bot_logic`; `up` says that `trend_direction` is 1.
  unfoldable pub momentum_maker :
      List (MomentumRound F) → (up : Bool) → (current_price : F) → Bot → Log
  unfolding place ended
  momentum_maker [] up current_price b = ended watched b
  momentum_maker (r ∷ rounds) up current_price b =
      let up' = if r.turns then not up else up in
      elim r.running [
        | false ↦ ended halted b
        | true ↦ place r.leg (if up then b'B' else b'S') r.qty current_price b (
            momentum_maker rounds up'
              (add current_price (mul (if up' then of_int 1 else minus_one) r.step)))
      ]

-- `Bot.run`: the attempts of the first `connect`, and the strategy.
unfoldable pub run : List Try → (Bot → Log) → Bot → Log
unfolding ended
run tries bot_logic b =
    let c = connect (record b { running = true }) tries in
    elim c.answer [
      | pending ↦ ended unconnected c.bot
      | escaped ↦ ended connect_error c.bot
      | connected ↦ bot_logic c.bot
      | stopped ↦ bot_logic c.bot
    ]
