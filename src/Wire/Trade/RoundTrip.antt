-- ===== src/Wire/Trade/RoundTrip.antt =====
-- The scoring engine reads back the trades that the engine publishes.
use mathlib.Core.List.{append_assoc}
use trade_plat.Common.{
  ℕ, zero, suc, ◌+◌, ◌*◌, ◌/◌, ◌%◌, ◌^◌, ◌<◌, ◌≡◌, ◌∙◌, refl, ap, ap₂, List, [], ◌∷◌, ◌++◌, some,
  arith, drop, get_elem?, Bool-cases, ==_iff, subst, none, ◌⊎◌, ◌≢◌, inl, inr, length,
  length-append, drop-append, ◌==◌, All,
}
use trade_plat.Common.Floats.{Floats, Codec}
use trade_plat.Wire.Bytes.{
  to_bytes, from_bytes, slice, slice-skip, slice-head, from_bytes-head, slice-to_bytes,
}
use trade_plat.Wire.Trade.{trade_bytes}
use trade_plat.Scoring.Event.{
  TradeEvent, trade_event_size, unpack_event, unpack_frames, unpack_trade_events,
}

-- The fields fit the types of the struct.
pub record IsTrade {F : Type 0} (e : TradeEvent F) : Type 0 where
  pub match_id : e.match_id < 256 ^ 8
  pub buy_order_id : e.buy_order_id < 256 ^ 8
  pub sell_order_id : e.sell_order_id < 256 ^ 8
  pub t0_ns : e.t0_ns < 256 ^ 8
  pub t1_ns : e.t1_ns < 256 ^ 8
  pub t2_ns : e.t2_ns < 256 ^ 8
  pub qty : e.qty < 256 ^ 4

-- Numbers of eight bytes in a row, and what follows them.
abbrev words : List ℕ → List ℕ → List ℕ
words [] rest = rest
words (x ∷ xs) rest = to_bytes 8 x ++ words xs rest

words-field :
    (xs : List ℕ) (k x : ℕ) (rest : List ℕ)
    → get_elem? xs k ≡ some x
    → x < 256 ^ 8
    → from_bytes (slice (k * 8) 8 (words xs rest)) ≡ x
words-field [] k x rest e h = cc
words-field (y ∷ xs) zero x rest e h =
    let same : x ≡ y = ground arith in rw same (from_bytes-head 8 y (words xs rest) (omega arith))
words-field (y ∷ xs) (suc k) x rest e h =
    let step : suc k * 8 ≡ 8 + k * 8 = omega arith in
    rw step
      (ap from_bytes (slice-to_bytes 8 y (k * 8) 8 (words xs rest)) ∙ words-field xs k x rest e h)

slice-words :
    (xs : List ℕ) (offset count : ℕ) (rest : List ℕ)
    → slice (length xs * 8 + offset) count (words xs rest) ≡ slice offset count rest
slice-words [] offset count rest = let e : 0 * 8 + offset ≡ offset = omega arith in rw e
slice-words (x ∷ xs) offset count rest =
    let step : suc (length xs) * 8 + offset ≡ 8 + (length xs * 8 + offset) = omega arith in
    rw step (
      slice-to_bytes 8 x (length xs * 8 + offset) count (words xs rest)
      ∙ slice-words xs offset count rest)

abbrev numbers : {F : Type 0} → TradeEvent F → List ℕ
numbers e = e.match_id ∷ e.buy_order_id ∷ e.sell_order_id ∷ e.t0_ns ∷ e.t1_ns ∷ e.t2_ns ∷ []

module _ (fl : Floats) where
  open fl use {F, of_bytes}

  -- The bytes of a stream of trades.
  unfoldable pub stream_bytes : List (TradeEvent F) → List ℕ
  stream_bytes [] = []
  stream_bytes (e ∷ es) = trade_bytes fl e ++ stream_bytes es

  module _ (codec : Codec fl) where
    tail : TradeEvent F → List ℕ → List ℕ
    tail e rest = fl.to_bytes e.price ++ (to_bytes 4 e.qty ++ rest)

    trade_bytes-words :
        (e : TradeEvent F) (rest : List ℕ)
        → trade_bytes fl e ++ rest ≡ words (numbers e) (tail e rest)
    unfolding trade_bytes tail
    trade_bytes-words e rest = simp append_assoc

    length-trade_bytes : (e : TradeEvent F) → length (trade_bytes fl e) ≡ trade_event_size
    unfolding trade_bytes to_bytes
    length-trade_bytes e = omega (
      arith,
      length-append (fl.to_bytes e.price) (to_bytes 4 e.qty),
      codec.length-to_bytes e.price,
    )

    price-field :
        (e : TradeEvent F) (rest : List ℕ)
        → of_bytes (slice 48 8 (words (numbers e) (tail e rest))) ≡ e.price
    unfolding tail
    price-field e rest =
        ap of_bytes (
          slice-words (numbers e) 0 8 (tail e rest)
          ∙ slice-head (fl.to_bytes e.price) (to_bytes 4 e.qty ++ rest) 8
              (codec.length-to_bytes e.price))
        ∙ codec.of_bytes-to_bytes e.price

    qty-field :
        (e : TradeEvent F) (rest : List ℕ)
        → e.qty < 256 ^ 4
        → from_bytes (slice 56 4 (words (numbers e) (tail e rest))) ≡ e.qty
    unfolding tail
    qty-field e rest h =
        ap from_bytes (
          slice-words (numbers e) 8 4 (tail e rest)
          ∙ slice-skip (fl.to_bytes e.price) (to_bytes 4 e.qty ++ rest) 8 0 4
              (codec.length-to_bytes e.price))
        ∙ from_bytes-head 4 e.qty rest h

    unpack_event-words :
        (e : TradeEvent F) (rest : List ℕ)
        → IsTrade e
        → unpack_event fl (words (numbers e) (tail e rest)) ≡ e
    unfolding unpack_event
    unpack_event-words e rest t = λ i. record {
      match_id = words-field (numbers e) 0 e.match_id (tail e rest) refl t.match_id i;
      buy_order_id = words-field (numbers e) 1 e.buy_order_id (tail e rest) refl t.buy_order_id i;
      sell_order_id =
          words-field (numbers e) 2 e.sell_order_id (tail e rest) refl t.sell_order_id i;
      t0_ns = words-field (numbers e) 3 e.t0_ns (tail e rest) refl t.t0_ns i;
      t1_ns = words-field (numbers e) 4 e.t1_ns (tail e rest) refl t.t1_ns i;
      t2_ns = words-field (numbers e) 5 e.t2_ns (tail e rest) refl t.t2_ns i;
      price = price-field e rest i;
      qty = qty-field e rest t.qty i;
    }

    unpack_event-trade_bytes :
        (e : TradeEvent F) (rest : List ℕ)
        → IsTrade e
        → unpack_event fl (trade_bytes fl e ++ rest) ≡ e
    unpack_event-trade_bytes e rest t = rw (trade_bytes-words e rest) (unpack_event-words e rest t)

    drop-trade_bytes :
        (e : TradeEvent F) (rest : List ℕ) → drop trade_event_size (trade_bytes fl e ++ rest) ≡ rest
    drop-trade_bytes e rest =
        subst (λ n. drop n (trade_bytes fl e ++ rest) ≡ rest) (length-trade_bytes e)
          (drop-append (trade_bytes fl e) rest)

    length-stream_bytes :
        (es : List (TradeEvent F)) → length (stream_bytes es) ≡ length es * trade_event_size
    unfolding stream_bytes
    length-stream_bytes [] = omega arith
    length-stream_bytes (e ∷ es) = omega (
      arith,
      length-append (trade_bytes fl e) (stream_bytes es),
      length-trade_bytes e,
      length-stream_bytes es,
    )

    unpack_frames-stream_bytes :
        (es : List (TradeEvent F))
        → All IsTrade es
        → unpack_frames fl (length es) (stream_bytes es) ≡ es
    unfolding unpack_frames stream_bytes
    unpack_frames-stream_bytes [] h = refl
    unpack_frames-stream_bytes (e ∷ es) h =
        ap₂ ◌∷◌ (unpack_event-trade_bytes e (stream_bytes es) h.0)
          (rw (drop-trade_bytes e (stream_bytes es)) (unpack_frames-stream_bytes es h.1))

    -- The scoring engine unpacks the trades that the engine lays out in one message, in order and
    -- none missing, when the fields fit their types.
    pub unpack_trade_events-stream_bytes :
        (es : List (TradeEvent F))
        → All IsTrade es
        → unpack_trade_events fl (stream_bytes es) ≡ some es
    unfolding unpack_trade_events
    unpack_trade_events-stream_bytes es h =
        let n : length (stream_bytes es) / trade_event_size ≡ length es =
          omega (arith, length-stream_bytes es) in
        let r : length (stream_bytes es) % trade_event_size ≡ 0 =
          omega (arith, length-stream_bytes es) in
        rw (n, r) (ap some (unpack_frames-stream_bytes es h))

length-unpack_frames : (fl : Floats) (n : ℕ) (bs : List ℕ) → length (unpack_frames fl n bs) ≡ n
unfolding unpack_frames
length-unpack_frames fl zero bs = refl
length-unpack_frames fl (suc n) bs = ap suc (length-unpack_frames fl n (drop trade_event_size bs))

-- A message whose length is no multiple of 60 raises before any trade is seen, and any other
-- message yields one trade for each 60 bytes.
unpack_trade_events_cases :
    (fl : Floats) (payload : List ℕ)
    → (unpack_trade_events fl payload ≡ none × (length payload % trade_event_size ≢ 0))
      ⊎ ((es : List (TradeEvent fl.F)) × (unpack_trade_events fl payload ≡ some es)
          × (length payload ≡ length es * trade_event_size))
unfolding unpack_trade_events
unpack_trade_events_cases fl payload = elim (Bool-cases (length payload % trade_event_size == 0)) [
  | inl whole ↦
      let n = length payload / trade_event_size in
      inr (
        unpack_frames fl n payload,
        rw whole,
        omega (arith, length-unpack_frames fl n payload, (==_iff _ 0).0 whole),
      )
  | inr cut ↦ inl (rw cut, ground arith)
]
