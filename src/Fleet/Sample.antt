-- ===== src/Fleet/Sample.antt =====
-- sample_bot/: the harness of sandbox_sdk.py and the strategy of solution.py.
pub mod Bids
use Prim.Native.String.{String}
use text.Mathlib.Text.{◌==◌}
use mathlib.Core.Option
use mathlib.Core.List.{append-nil}
use trade_plat.Common.{
  ℕ, ◌+◌, ◌^◌, ◌≤◌, ◌<◌, ◌≡◌, refl, ap, List, [], ◌∷◌, ◌++◌, Option, none, some, true, arith, ltb,
  if◌then◌else◌, Bool-cases, inl, inr,
}
use trade_plat.Common.Floats.{Floats, Codec}
use trade_plat.Wire.Order.{OrderMessage, packable, layout, pack, unpack, is_buy}
use trade_plat.Wire.Order.RoundTrip.{unpack-pack}

-- `ExchangeConnection`
pub record Exchange : Type 0 where
  pub order_sequence : ℕ

module _ (fl : Floats) where
  open fl use {F, of_int}

  -- The message of `submit_order`.
  unfoldable pub submission : ℕ → String → F → ℕ → ℕ → OrderMessage F
  submission sequence direction price quantity time_ns = record {
    order_id = sequence;
    timestamp_ns = time_ns;
    price = price;
    qty = quantity;
    side = if direction == "BUY" then 1 else 2;
  }

  -- `submit_order`: the sequence number is used up also where `struct.pack` raises, which is
  -- `none`; otherwise the payload is handed to `ws.send`.
  unfoldable pub submit_order : String → F → ℕ → ℕ → Exchange → Exchange × Option (List ℕ)
  unfolding submission
  submit_order direction price quantity time_ns x =
      let next = x.order_sequence + 1 in
      (record { order_sequence = next }, pack fl (submission next direction price quantity time_ns))

  -- `market_snapshot.get("price", 100)`
  unfoldable pub snapshot_price : Option ℕ → ℕ
  snapshot_price none = 100
  snapshot_price (some price) = price

  -- `on_market_update`: the orders that it submits, at most one.
  unfoldable pub on_market_update : Option ℕ → ℕ → Exchange → Exchange × List (Option (List ℕ))
  on_market_update price time_ns x =
      let current = snapshot_price price in
      let (x', payload) = submit_order "BUY" (of_int (current + 1)) 1 time_ns x in
      if ltb current 152 then (x', payload ∷ []) else (x, [])

  -- The rounds of `run_sandbox_harness`: each has a price and a reading of the time.
  unfoldable pub run_sandbox_harness : List (ℕ × ℕ) → Exchange → Exchange × List (Option (List ℕ))
  run_sandbox_harness [] x = (x, [])
  run_sandbox_harness ((price, time_ns) ∷ ticks) x =
      let (x', sent) = on_market_update (some price) time_ns x in
      let (x'', later) = run_sandbox_harness ticks x' in (x'', sent ++ later)
