-- ===== src/Wire/Order.antt =====
-- The 32-byte order frame `<QQdIB3x`: bot-fleet/main.py `format_order`, sample_bot/sandbox_sdk.py
-- `submit_order` and the struct `OrderMessage` of matching-engine/Protocol.h.
pub mod RoundTrip
use trade_plat.Common.{
  ℕ, ◌^◌, ◌<◌, List, [], ◌∷◌, ◌++◌, Option, none, some, Bool, true, false, ◌&&◌, ◌||◌, ltb, ◌==◌,
  if◌then◌else◌, get_elem?,
}
use trade_plat.Common.Floats.{Floats}
use trade_plat.Wire.Bytes.{to_bytes, from_bytes, slice}

pub record OrderMessage (F : Type 0) : Type 0 where
  pub order_id : ℕ
  pub timestamp_ns : ℕ
  pub price : F
  pub qty : ℕ
  pub side : ℕ

abbrev pub message_size : ℕ
message_size = 32

-- The values that the formats `Q`, `I` and `B` take; `struct.pack` raises `struct.error` otherwise.
unfoldable pub packable : {F : Type 0} → OrderMessage F → Bool
packable m =
    ltb m.order_id (2 ^ 64) && ltb m.timestamp_ns (2 ^ 64) && ltb m.qty (2 ^ 32) && ltb m.side 256

module _ (fl : Floats) where
  open fl use {F, of_bytes}

  -- The bytes of a message.
  unfoldable pub layout : OrderMessage F → List ℕ
  layout m =
      to_bytes 8 m.order_id
      ++ (to_bytes 8 m.timestamp_ns
          ++ (fl.to_bytes m.price ++ (to_bytes 4 m.qty ++ m.side ∷ 0 ∷ 0 ∷ 0 ∷ [])))

  -- `struct.pack`; `none` is `struct.error`.
  unfoldable pub pack : OrderMessage F → Option (List ℕ)
  pack m = if packable m then some (layout m) else none

  -- The `memcpy` of the gateway into an `OrderMessage`.
  unfoldable pub unpack : List ℕ → OrderMessage F
  unpack bs = record {
    order_id = from_bytes (slice 0 8 bs);
    timestamp_ns = from_bytes (slice 8 8 bs);
    price = of_bytes (slice 16 8 bs);
    qty = from_bytes (slice 24 4 bs);
    side = from_bytes (slice 28 1 bs);
  }

-- `msg.side == 'B' || msg.side == 'b' || msg.side == 1`
unfoldable pub is_buy : ℕ → Bool
is_buy side = side == b'B' || side == b'b' || side == 1
