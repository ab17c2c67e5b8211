-- ===== src/Common/Decimal.antt =====
-- Decimal numerals: `format(n, ",")` and the reading of digits by `int` and `float`.
pub mod RoundTrip
use trade_plat.Common.{
  ℕ, zero, suc, ◌+◌, ◌-◌, ◌*◌, ◌/◌, ◌%◌, List, [], ◌∷◌, ◌++◌, Option, none, some, Bool, ◌&&◌, ◌==◌,
  ltb, leb, if◌then◌else◌, length,
}
use trade_plat.Common.Text.{Name}

-- The digits of a number with at most `fuel` more than one.
unfoldable pub digits_from : (fuel : ℕ) → ℕ → Name
digits_from zero n = (48 + n % 10) ∷ []
digits_from (suc fuel) n =
    let more = digits_from fuel (n / 10) in
    if ltb n 10 then (48 + n) ∷ [] else more ++ (48 + n % 10) ∷ []

-- A number has no more digits than its value and one.
unfoldable pub digits : ℕ → Name
unfolding digits_from
digits n = digits_from n n

-- A comma stands before each three digits that end the numeral.
unfoldable pub grouped : Name → Name
grouped [] = []
grouped (x ∷ []) = x ∷ []
grouped (x ∷ y ∷ ys) =
    let rest = grouped (y ∷ ys) in if length (y ∷ ys) % 3 == 0 then x ∷ b',' ∷ rest else x ∷ rest

-- `f"{n:,}"`
unfoldable pub with_commas : ℕ → Name
unfolding digits grouped
with_commas n = grouped (digits n)

unfoldable pub is_digit : ℕ → Bool
is_digit c = leb 48 c && leb c 57

unfoldable pub read_from : ℕ → Name → Option ℕ
read_from n [] = some n
read_from n (c ∷ cs) =
    let rest = read_from (n * 10 + (c - 48)) cs in if is_digit c then rest else none

-- `int(text)`; `none` is the ValueError. The code reads counters, so signs and underscores, which
-- `int` also takes, are no digits here.
unfoldable pub read_number : Name → Option ℕ
unfolding read_from
read_number [] = none
read_number (c ∷ cs) = read_from 0 (c ∷ cs)
