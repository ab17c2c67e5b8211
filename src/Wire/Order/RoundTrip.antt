-- ===== src/Wire/Order/RoundTrip.antt =====
-- The gateway reads back the order that a bot packs.
use mathlib.Core.List.{append_assoc}
use trade_plat.Common.{
  ℕ, ◌+◌, ◌^◌, ◌<◌, ◌≡◌, ◌∙◌, ap, List, [], ◌∷◌, ◌++◌, some, true, arith, length, length-append,
}
use trade_plat.Common.Floats.{Floats, Codec}
use trade_plat.Wire.Bytes.{
  to_bytes, from_bytes, slice, slice-skip, slice-head, from_bytes-head, slice-to_bytes,
  from_bytes_one,
}
use trade_plat.Wire.Order.{OrderMessage, message_size, packable, layout, pack, unpack}

module _ (fl : Floats) (codec : Codec fl) where
  open fl use {F, of_bytes}

  -- The layout with what follows it.
  abbrev onto : OrderMessage F → List ℕ → List ℕ
  onto m rest =
      to_bytes 8 m.order_id
      ++ (to_bytes 8 m.timestamp_ns
          ++ (fl.to_bytes m.price ++ (to_bytes 4 m.qty ++ m.side ∷ 0 ∷ 0 ∷ 0 ∷ rest)))

  layout-onto : (m : OrderMessage F) (rest : List ℕ) → layout fl m ++ rest ≡ onto m rest
  unfolding layout
  layout-onto m rest = simp append_assoc

  pub length-layout : (m : OrderMessage F) → length (layout fl m) ≡ 32
  unfolding layout to_bytes
  length-layout m = omega (
    arith,
    length-append (fl.to_bytes m.price) (to_bytes 4 m.qty ++ m.side ∷ 0 ∷ 0 ∷ 0 ∷ []),
    codec.length-to_bytes m.price,
  )

  packable-bounds :
      (m : OrderMessage F)
      → packable m ≡ true
      → (m.order_id < 256 ^ 8) × (m.timestamp_ns < 256 ^ 8) × (m.qty < 256 ^ 4) × (m.side < 256)
  unfolding packable
  packable-bounds m h = ground arith

  price-onto : (m : OrderMessage F) (rest : List ℕ) → of_bytes (slice 16 8 (onto m rest)) ≡ m.price
  price-onto m rest =
      ap of_bytes (
        slice-to_bytes 8 m.order_id 8 8 _
        ∙ slice-to_bytes 8 m.timestamp_ns 0 8 _
        ∙ slice-head (fl.to_bytes m.price) _ 8 (codec.length-to_bytes m.price))
      ∙ codec.of_bytes-to_bytes m.price

  tail-onto :
      (m : OrderMessage F) (rest : List ℕ) (offset count : ℕ)
      → slice (24 + offset) count (onto m rest)
        ≡ slice offset count (to_bytes 4 m.qty ++ m.side ∷ 0 ∷ 0 ∷ 0 ∷ rest)
  tail-onto m rest offset count =
      let e : 24 + offset ≡ 8 + (8 + (8 + offset)) = omega arith in
      rw e (
        slice-to_bytes 8 m.order_id (8 + (8 + offset)) count _
        ∙ slice-to_bytes 8 m.timestamp_ns (8 + offset) count _
        ∙ slice-skip (fl.to_bytes m.price) _ 8 offset count (codec.length-to_bytes m.price))

  id-onto :
      (m : OrderMessage F) (rest : List ℕ)
      → m.order_id < 256 ^ 8
      → from_bytes (slice 0 8 (onto m rest)) ≡ m.order_id
  id-onto m rest h = from_bytes-head 8 m.order_id _ h

  timestamp-onto :
      (m : OrderMessage F) (rest : List ℕ)
      → m.timestamp_ns < 256 ^ 8
      → from_bytes (slice 8 8 (onto m rest)) ≡ m.timestamp_ns
  timestamp-onto m rest h =
      ap from_bytes (slice-to_bytes 8 m.order_id 0 8 _) ∙ from_bytes-head 8 m.timestamp_ns _ h

  qty-onto :
      (m : OrderMessage F) (rest : List ℕ)
      → m.qty < 256 ^ 4
      → from_bytes (slice 24 4 (onto m rest)) ≡ m.qty
  qty-onto m rest h = ap from_bytes (tail-onto m rest 0 4) ∙ from_bytes-head 4 m.qty _ h

  side-onto : (m : OrderMessage F) (rest : List ℕ) → from_bytes (slice 28 1 (onto m rest)) ≡ m.side
  side-onto m rest =
      ap from_bytes (tail-onto m rest 4 1 ∙ slice-to_bytes 4 m.qty 0 1 _) ∙ from_bytes_one m.side

  unpack-onto :
      (m : OrderMessage F) (rest : List ℕ) → packable m ≡ true → unpack fl (onto m rest) ≡ m
  unfolding unpack
  unpack-onto m rest h =
      let (id, stamp, qty, side) = packable-bounds m h in
      λ i. record {
        order_id = id-onto m rest id i;
        timestamp_ns = timestamp-onto m rest stamp i;
        price = price-onto m rest i;
        qty = qty-onto m rest qty i;
        side = side-onto m rest i;
      }

  pub pack-layout :
      (m : OrderMessage F) (frame : List ℕ)
      → pack fl m ≡ some frame
      → (packable m ≡ true) × (layout fl m ≡ frame)
  unfolding pack
  pack-layout m frame h = ground arith

  -- The gateway reads an order that `struct.pack` accepts back as it was, whatever follows it in
  -- the buffer, and its frame is 32 bytes long.
  pub unpack-pack :
      (m : OrderMessage F) (frame rest : List ℕ)
      → pack fl m ≡ some frame
      → (unpack fl (frame ++ rest) ≡ m) × (length frame ≡ message_size)
  unpack-pack m frame rest h =
      let (fits, same) = pack-layout m frame h in
      (rw (← same, layout-onto m rest) (unpack-onto m rest fits), rw (← same) (length-layout m))
