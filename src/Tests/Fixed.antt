-- ===== src/Tests/Fixed.antt =====
-- Two concrete readings of `Floats`, which show that its laws can hold: fixed-point numbers in
-- billionths, and a few doubles with their bytes.
use native.Mathlib.Nat.{mul-le-mul_left}
use trade_plat.Common.{
  ℕ, ◌+◌, ◌-◌, ◌*◌, ◌/◌, ◌^◌, ◌≤◌, ◌<◌, ◌≡◌, ◌⊎◌, refl, List, [], ◌∷◌, Bool, true, false, arith,
  length, ltb, leb, All, ◌==◌, if◌then◌else◌,
}
use trade_plat.Common.Floats.{Floats, LinearOrder, IsPrice, PriceOrder, Tolerance, Scaling, Codec}

-- A value in billionths, or the one negative literal of the code.
pub data Fixed : Type 0 where
  units : ℕ → Fixed
  negative : Fixed

abbrev pub billion : ℕ
billion = 1_000_000_000

abbrev lt_fixed : Fixed → Fixed → Bool
lt_fixed (units a) (units b) = ltb a b
lt_fixed (units a) negative = false
lt_fixed negative (units b) = true
lt_fixed negative negative = false

abbrev le_fixed : Fixed → Fixed → Bool
le_fixed (units a) (units b) = leb a b
le_fixed (units a) negative = false
le_fixed negative b = true

abbrev both : (ℕ → ℕ → ℕ) → Fixed → Fixed → Fixed
both f (units a) (units b) = units (f a b)
both f (units a) negative = negative
both f negative b = negative

abbrev whole : Fixed → ℕ
whole (units a) = a / billion
whole negative = 0

abbrev pub fixed : Floats
fixed = record {
  F = Fixed;
  lt = lt_fixed;
  le = le_fixed;
  add = both (λ a b. a + b);
  sub = both (λ a b. a - b);
  mul = both (λ a b. a * b / billion);
  div = both (λ a b. a * billion / b);
  ratio = λ n m. units (n * billion / m);
  of_int = λ n. units (n * billion);
  decimal = λ digits places. units (digits * billion / 10 ^ places);
  minus_one = negative;
  trunc = whole;
  is_finite = λ x. true;
  round = λ x places. x;
  to_bytes = λ x. [];
  of_bytes = λ bs. units (10 * billion);
}

cotrans : (a b c : Fixed) → lt_fixed a c ≡ true → (lt_fixed a b ≡ true) ⊎ (lt_fixed b c ≡ true)
cotrans a b c h = ground arith

pub fixed_order : LinearOrder fixed
fixed_order = record { lt_cotrans = λ a b c f h. cotrans a b c h }

irrefl : (a : Fixed) → lt_fixed a a ≡ false
irrefl a = ground arith

trans : (a b c : Fixed) → lt_fixed a b ≡ true → lt_fixed b c ≡ true → lt_fixed a c ≡ true
trans a b c h g = ground arith

total :
    (a b : Fixed)
    → IsPrice fixed a
    → IsPrice fixed b
    → lt_fixed a b ≡ false
    → lt_fixed b a ≡ false
    → a ≡ b
total a b p q h g = ground arith

pub fixed_prices : PriceOrder fixed
fixed_prices = record { lt_irrefl = irrefl; lt_trans = trans; lt_total = total }

below : (a b : Fixed) → lt_fixed a b ≡ false → lt_fixed a (both (λ x y. x - y) b (units 1)) ≡ false
below a b h = ground arith

above : (a b : Fixed) → lt_fixed b a ≡ false → lt_fixed (both (λ x y. x + y) b (units 1)) a ≡ false
above a b h = ground arith

pub fixed_tolerance : Tolerance fixed
fixed_tolerance = record { lt-sub = below; add-lt = above }

scaled : (digits : ℕ) → digits * billion / 100 ≡ digits * 10_000_000
scaled digits = omega arith

scale_le :
    (n digits : ℕ) → digits < 100 → n * billion * (digits * billion / 100) / billion / billion ≤ n
scale_le n digits h =
    rw (scaled digits)
      (let most : n * digits ≤ n * 99 = mul-le-mul_left n (omega arith) in omega arith)

scale_mono :
    (n d d' : ℕ)
    → d ≤ d'
    → n * billion * (d * billion / 100) / billion / billion
      ≤ n * billion * (d' * billion / 100) / billion / billion
scale_mono n d d' h =
    rw (scaled d, scaled d') (let most : n * d ≤ n * d' = mul-le-mul_left n h in omega arith)

scale_near :
    (n digits : ℕ)
    → n < 2 ^ 45
    → digits < 100
    → (100 * (n * billion * (digits * billion / 100) / billion / billion) ≤ n * digits)
      × (n * digits ≤ 100 * (n * billion * (digits * billion / 100) / billion / billion + 1))
scale_near n digits g h = rw (scaled digits) (omega arith, omega arith)

pub fixed_scaling : Scaling fixed
fixed_scaling = record {
  trunc-mul = scale_near;
  trunc-mul-le = scale_le;
  trunc-mul_mono = scale_mono;
}

-- Three doubles: 100.0, 100.5 and a NaN.
pub data Tick : Type 0 where
  hundred hundred_half not_a_number : Tick

abbrev tick_bytes : Tick → List ℕ
tick_bytes hundred = 0 ∷ 0 ∷ 0 ∷ 0 ∷ 0 ∷ 0 ∷ 0x59 ∷ 0x40 ∷ []
tick_bytes hundred_half = 0 ∷ 0 ∷ 0 ∷ 0 ∷ 0 ∷ 0x20 ∷ 0x59 ∷ 0x40 ∷ []
tick_bytes not_a_number = 0 ∷ 0 ∷ 0 ∷ 0 ∷ 0 ∷ 0 ∷ 0xF8 ∷ 0x7F ∷ []

abbrev bytes_tick : List ℕ → Tick
bytes_tick (_ ∷ _ ∷ _ ∷ _ ∷ _ ∷ b ∷ c ∷ _) =
    if c == 0x59 then (if b == 0x20 then hundred_half else hundred) else not_a_number
bytes_tick _ = not_a_number

abbrev pub ticks : Floats
ticks = record {
  F = Tick;
  lt = λ a b. elim a [ hundred ↦ elim b [ hundred_half ↦ true | _ ↦ false ] | _ ↦ false ];
  le = λ a b. false;
  add = λ a b. a;
  sub = λ a b. a;
  mul = λ a b. a;
  div = λ a b. a;
  ratio = λ n m. hundred;
  of_int = λ n. hundred;
  decimal = λ digits places. hundred;
  minus_one = not_a_number;
  trunc = λ x. 100;
  is_finite = λ x. elim x [ not_a_number ↦ false | _ ↦ true ];
  round = λ x places. x;
  to_bytes = tick_bytes;
  of_bytes = bytes_tick;
}

tick_length : (x : Tick) → length (tick_bytes x) ≡ 8
tick_length hundred = refl
tick_length _ = refl

tick_IsBytes : (x : Tick) → All (λ b. b < 256) (tick_bytes x)
tick_IsBytes hundred = omega arith
tick_IsBytes _ = omega arith

tick_back : (x : Tick) → bytes_tick (tick_bytes x) ≡ x
tick_back hundred = refl
tick_back _ = refl

pub ticks_codec : Codec ticks
ticks_codec = record {
  length-to_bytes = tick_length;
  to_bytes-IsBytes = tick_IsBytes;
  of_bytes-to_bytes = tick_back;
}
