-- ===== src/Common/Floats.antt =====
-- The double-precision operations that the Python code uses, as an interface: the language has no
-- model of IEEE 754, so the arithmetic is a parameter. `LinearOrder` and `Scaling` state the few
-- documented facts about it on which theorems rest.
use Prim.Native.Nat.{ℕ, ◌+◌, ◌*◌, ◌^◌, ◌≤◌, ◌<◌}
use mathlib.Core.Path.{◌≡◌}
use mathlib.Core.Logic.{◌⊎◌}
use mathlib.Core.Bool.{Bool, true, false}
use mathlib.Core.List.{List}
use trade_plat.Common.Lists.{length, All}

pub record Floats : Type 1 where
  pub F : Type 0
  -- `<`, which is false if an operand is NaN
  pub lt : F → F → Bool
  -- `<=`
  pub le : F → F → Bool
  pub add : F → F → F
  pub sub : F → F → F
  pub mul : F → F → F
  pub div : F → F → F
  -- `n / m` of two integers
  pub ratio : ℕ → ℕ → F
  -- `float(n)`
  pub of_int : ℕ → F
  -- the literal `digits * 10 ** -places`
  pub decimal : ℕ → ℕ → F
  -- the literal `-1.0`
  pub minus_one : F
  -- `int(x)` of a value that is not negative
  pub trunc : F → ℕ
  -- `math.isfinite`
  pub is_finite : F → Bool
  -- `round(x, places)`
  pub round : F → ℕ → F
  -- the eight little-endian bytes of the format `d`
  pub to_bytes : F → List ℕ
  pub of_bytes : List ℕ → F

-- Comparison among values of which the middle one is finite.
pub record LinearOrder (fl : Floats) : Type 0 where
  pub lt_cotrans :
      (a b c : fl.F)
      → fl.is_finite b ≡ true
      → fl.lt a c ≡ true
      → (fl.lt a b ≡ true) ⊎ (fl.lt b c ≡ true)

-- A number that an order can carry as its price: finite, and above zero.
abbrev pub IsPrice : (fl : Floats) → fl.F → Type 0
IsPrice fl x = (fl.is_finite x ≡ true) × (fl.le x (fl.of_int 0) ≡ false)

-- Comparison among prices.
pub record PriceOrder (fl : Floats) : Type 0 where
  pub lt_irrefl : (a : fl.F) → fl.lt a a ≡ false
  pub lt_trans : (a b c : fl.F) → fl.lt a b ≡ true → fl.lt b c ≡ true → fl.lt a c ≡ true
  pub lt_total :
      (a b : fl.F) → IsPrice fl a → IsPrice fl b → fl.lt a b ≡ false → fl.lt b a ≡ false → a ≡ b

-- A difference of 1e-9 does not turn a comparison round.
pub record Tolerance (fl : Floats) : Type 0 where
  pub lt-sub : (a b : fl.F) → fl.lt a b ≡ false → fl.lt a (fl.sub b (fl.decimal 1 9)) ≡ false
  pub add-lt : (a b : fl.F) → fl.lt b a ≡ false → fl.lt (fl.add b (fl.decimal 1 9)) a ≡ false

-- A count times a decimal fraction of two places that is below one, with its fraction cut off. The
-- cut product is the whole part of the exact one, or one less where that has no fraction, as long
-- as the error of the product, at most 2^-52 of it, is less than a hundredth.
pub record Scaling (fl : Floats) : Type 0 where
  pub trunc-mul :
      (n digits : ℕ)
      → n < 2 ^ 45
      → digits < 100
      → (100 * fl.trunc (fl.mul (fl.of_int n) (fl.decimal digits 2)) ≤ n * digits)
        × (n * digits ≤ 100 * (fl.trunc (fl.mul (fl.of_int n) (fl.decimal digits 2)) + 1))
  pub trunc-mul-le :
      (n digits : ℕ) → digits < 100 → fl.trunc (fl.mul (fl.of_int n) (fl.decimal digits 2)) ≤ n
  pub trunc-mul_mono :
      (n digits digits' : ℕ)
      → digits ≤ digits'
      → fl.trunc (fl.mul (fl.of_int n) (fl.decimal digits 2))
        ≤ fl.trunc (fl.mul (fl.of_int n) (fl.decimal digits' 2))

-- The format `d` of the `struct` module.
pub record Codec (fl : Floats) : Type 0 where
  pub length-to_bytes : (x : fl.F) → length (fl.to_bytes x) ≡ 8
  pub to_bytes-IsBytes : (x : fl.F) → All (λ b. b < 256) (fl.to_bytes x)
  pub of_bytes-to_bytes : (x : fl.F) → fl.of_bytes (fl.to_bytes x) ≡ x
