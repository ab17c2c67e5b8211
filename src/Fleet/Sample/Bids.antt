-- ===== src/Fleet/Sample/Bids.antt =====
-- What the sample contestant sends.
use mathlib.Core.List.{append-nil}
use trade_plat.Common.{
  ℕ, ◌+◌, ◌^◌, ◌≤◌, ◌<◌, ◌≡◌, refl, ap, List, [], ◌∷◌, Option, some, true, arith, ltb, Bool-cases,
  inl, inr, All, All-append, length, length-append,
}
use trade_plat.Common.Floats.{Floats, Codec}
use trade_plat.Wire.Order.{packable, layout, pack, unpack, is_buy}
use trade_plat.Wire.Order.RoundTrip.{unpack-pack}
use trade_plat.Fleet.Sample.{
  Exchange, submission, submit_order, snapshot_price, on_market_update, run_sandbox_harness,
}

module _ (fl : Floats) where
  open fl use {F, of_int}

  -- A payload that the gateway reads as a bid for one unit at a price of at most 152.
  abbrev pub IsBid : Option (List ℕ) → Type 0
  IsBid payload =
      (bytes : List ℕ) × (price : ℕ) × (payload ≡ some bytes)
      × (price ≤ 152)
      × ((unpack fl bytes).price ≡ of_int price)
      × ((unpack fl bytes).qty ≡ 1)
      × (is_buy (unpack fl bytes).side ≡ true)

  module _ (codec : Codec fl) where
    submission-pack :
        (sequence price time_ns : ℕ)
        → sequence < 2 ^ 64
        → time_ns < 2 ^ 64
        → pack fl (submission fl sequence "BUY" (of_int price) 1 time_ns)
          ≡ some (layout fl (submission fl sequence "BUY" (of_int price) 1 time_ns))
    unfolding pack packable submission
    submission-pack sequence price time_ns h k = ground arith

    IsBid-submission :
        (sequence price time_ns : ℕ)
        → sequence < 2 ^ 64
        → time_ns < 2 ^ 64
        → price ≤ 152
        → IsBid (pack fl (submission fl sequence "BUY" (of_int price) 1 time_ns))
    unfolding submission is_buy
    IsBid-submission sequence price time_ns h k cheap =
        let m = submission fl sequence "BUY" (of_int price) 1 time_ns in
        let packed = submission-pack sequence price time_ns h k in
        let back : unpack fl (layout fl m) ≡ m =
          rw append-nil at ((unpack-pack fl codec m (layout fl m) [] packed).0) in
        (
          layout fl m,
          price,
          packed,
          cheap,
          ap (λ n. n.price) back,
          ap (λ n. n.qty) back,
          ap (λ n. is_buy n.side) back,
        )

    on_market_update-bids :
        (price time_ns : ℕ) (x : Exchange)
        → x.order_sequence + 1 < 2 ^ 64
        → time_ns < 2 ^ 64
        → let r = on_market_update fl (some price) time_ns x in
          All IsBid r.1 × (r.0.order_sequence ≡ x.order_sequence + length r.1) × (length r.1 ≤ 1)
    unfolding on_market_update submit_order snapshot_price
    on_market_update-bids price time_ns x h k = elim (Bool-cases (ltb price 152)) [
      | inl low ↦ rw low (
        (IsBid-submission (x.order_sequence + 1) (price + 1) time_ns h k (ground arith), tt),
        refl,
        omega arith,
      )
      | inr high ↦ rw high (tt, omega arith, omega arith)
    ]

    -- However the prices go, all that the sample contestant sends are bids for one unit at no
    -- more than 152 that the gateway can read, and its sequence number counts them. The sequence
    -- numbers and the times are to fit 64 bits.
    pub run_sandbox_harness-bids :
        (ticks : List (ℕ × ℕ)) (x : Exchange)
        → x.order_sequence + length ticks < 2 ^ 64
        → All (λ t. t.1 < 2 ^ 64) ticks
        → let r = run_sandbox_harness fl ticks x in
          All IsBid r.1 × (r.0.order_sequence ≡ x.order_sequence + length r.1)
    unfolding run_sandbox_harness
    run_sandbox_harness-bids [] x h k = (tt, omega arith)
    run_sandbox_harness-bids ((price, time_ns) ∷ ticks) x h k =
        let first = on_market_update fl (some price) time_ns x in
        let (bids, counted, one) = on_market_update-bids price time_ns x (omega arith) k.0 in
        let (later, counted') = run_sandbox_harness-bids ticks first.0 (omega arith) k.1 in
        (
          All-append IsBid first.1 _ bids later,
          omega (
            arith,
            counted,
            counted',
            length-append first.1 (run_sandbox_harness fl ticks first.0).1,
          ),
        )
