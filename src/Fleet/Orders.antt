-- ===== src/Fleet/Orders.antt =====
-- bot-fleet/main.py: `generate_order_id`, `format_order` and the order that the gateway reads.
use trade_plat.Common.{
  ℕ, zero, suc, ◌+◌, ◌≤◌, ◌<◌, ◌≡◌, ◌∙◌, sym, ap, subst, get_elem?, List, [], ◌∷◌, ◌++◌, Option,
  some, arith, ◌==◌, if◌then◌else◌, All-append,
}
use mathlib.Core.List.{append-nil}
use trade_plat.Common.Floats.{Floats, Codec}
use trade_plat.Wire.Bytes.{IsBytes, to_bytes, to_bytes-IsBytes}
use trade_plat.Wire.Order.{OrderMessage, layout, pack, unpack, is_buy}
use trade_plat.Wire.Order.RoundTrip.{unpack-pack, pack-layout}
use trade_plat.Wire.Frame.{Mask, websocket_binary_frame, parse_frame, binary}
use trade_plat.Wire.Frame.RoundTrip.{IsMask, parse_frame-websocket_binary_frame}
use trade_plat.Fleet.Bot.{Bot, init}

-- The state, and the new id.
unfoldable pub generate_order_id : Bot → Bot × ℕ
generate_order_id b =
    (record b { order_id_counter = b.order_id_counter + 1 }, b.order_id_counter + 1)

-- `1 if side == 'B' else 2`
unfoldable pub side_code : ℕ → ℕ
side_code side = if side == b'B' then 1 else 2

module _ (fl : Floats) where
  open fl use {F}

  -- The values that `format_order` packs, at a reading of `time.time_ns`.
  unfoldable pub order_message : ℕ → ℕ → ℕ → F → ℕ → OrderMessage F
  unfolding side_code
  order_message id side qty price time_ns = record {
    order_id = id;
    timestamp_ns = time_ns;
    price = price;
    qty = qty;
    side = side_code side;
  }

  -- `format_order`: an id is used up also where `struct.pack` raises.
  unfoldable pub format_order : ℕ → ℕ → F → ℕ → Bot → Bot × Option (List ℕ)
  unfolding generate_order_id order_message
  format_order side qty price time_ns b =
      let (b', id) = generate_order_id b in (b', pack fl (order_message id side qty price time_ns))

-- The ids of the orders that a bot formats one after the other.
unfoldable pub ids_of : ℕ → Bot → List ℕ
unfolding generate_order_id
ids_of zero b = []
ids_of (suc n) b = let (b', id) = generate_order_id b in id ∷ ids_of n b'

is_buy-side_code : (side : ℕ) → is_buy (side_code side) ≡ (side == b'B')
unfolding is_buy side_code
is_buy-side_code side = ground arith

pub side_code-lt : (side : ℕ) → side_code side < 256
unfolding side_code
side_code-lt side = ground arith

module _ (fl : Floats) (codec : Codec fl) where
  open fl use {F}

  layout-IsBytes : (m : OrderMessage F) → m.side < 256 → IsBytes (layout fl m)
  unfolding layout
  layout-IsBytes m h = All-append _ (to_bytes 8 m.order_id) _ (to_bytes-IsBytes 8 m.order_id) (
      All-append _ (to_bytes 8 m.timestamp_ns) _ (to_bytes-IsBytes 8 m.timestamp_ns) (
        All-append _ (fl.to_bytes m.price) _ (codec.to_bytes-IsBytes m.price)
          (All-append _ (to_bytes 4 m.qty) _ (to_bytes-IsBytes 4 m.qty) (omega arith))))

  -- An order that a bot formats and frames reaches the gateway: the frame is read whole, whatever
  -- follows it, and its payload is an order with the new id, the time, the price and the quantity
  -- of the bot, which the gateway takes for a buy exactly if the side is 'B'.
  pub format_order_delivered :
      (side qty : ℕ) (price : F) (time_ns : ℕ) (b b' : Bot) (mask : Mask) (payload rest : List ℕ)
      → IsMask mask
      → format_order fl side qty price time_ns b ≡ (b', some payload)
      → (parse_frame (websocket_binary_frame mask payload ++ rest) ≡ binary payload rest)
        × (unpack fl payload ≡ order_message fl (b.order_id_counter + 1) side qty price time_ns)
        × (is_buy (unpack fl payload).side ≡ (side == b'B'))
        × (b'.order_id_counter ≡ b.order_id_counter + 1)
  unfolding format_order order_message
  format_order_delivered side qty price time_ns b b' mask payload rest k h =
      let m = order_message fl (b.order_id_counter + 1) side qty price time_ns in
      let packed : pack fl m ≡ some payload = ap (λ r. r.1) h in
      let (fits, same) = pack-layout fl codec m payload packed in
      let (back, size) = unpack-pack fl codec m payload [] packed in
      let read : unpack fl payload ≡ m = rw append-nil at back in
      (
        parse_frame-websocket_binary_frame mask payload rest k
            (subst IsBytes same (layout-IsBytes m (side_code-lt side))) (omega (arith, size)),
        read,
        ap (λ n. is_buy n.side) read ∙ is_buy-side_code side,
        sym (ap (λ r. r.0.order_id_counter) h),
      )

ids_of-get_elem? :
    (n i x : ℕ) (b : Bot)
    → get_elem? (ids_of n b) i ≡ some x
    → (i < n) × (x ≡ b.order_id_counter + 1 + i)
unfolding ids_of
ids_of-get_elem? zero i x b h = cc
ids_of-get_elem? (suc n) zero x b h = ground arith
ids_of-get_elem? (suc n) (suc i) x b h =
    omega (arith, ids_of-get_elem? n i x (record b { order_id_counter = b.order_id_counter + 1 }) h)

-- Two orders of a fleet with one id are one order: while no bot formats more than a million
-- orders, equal ids come from the same bot, and from the same place in its sequence.
pub ids_of_unique :
    (i j n m p q x : ℕ)
    → n ≤ 1000000
    → m ≤ 1000000
    → get_elem? (ids_of n (init i)) p ≡ some x
    → get_elem? (ids_of m (init j)) q ≡ some x
    → (i ≡ j) × (p ≡ q)
unfolding init
ids_of_unique i j n m p q x hn hm hp hq =
    omega (arith, ids_of-get_elem? n p x (init i) hp, ids_of-get_elem? m q x (init j) hq)
