-- ===== src/Bench/Statistics.antt =====
-- The calls of `min`, `max`, `sorted` and `statistics.median` in bench/run_loadtest.py.
use trade_plat.Common.{
  ℕ, ◌-◌, ◌/◌, ◌%◌, List, [], ◌∷◌, Option, none, some, Bool, true, false, ◌==◌, ltb, if◌then◌else◌,
  length, get_elem?,
}
use trade_plat.Common.Floats.{Floats}
use trade_plat.Common.Text.{Name}

-- `min(x, *xs)` and `max(x, *xs)` of integers.
unfoldable pub lowest : ℕ → List ℕ → ℕ
lowest x [] = x
lowest x (y ∷ ys) = lowest (if ltb y x then y else x) ys

unfoldable pub highest : ℕ → List ℕ → ℕ
highest x [] = x
highest x (y ∷ ys) = highest (if ltb x y then y else x) ys

-- `a < b` of two texts.
unfoldable pub before : Name → Name → Bool
before a [] = false
before [] (y ∷ ys) = true
before (x ∷ xs) (y ∷ ys) = let rest = before xs ys in if x == y then rest else ltb x y

-- The first of `sorted(texts)`.
unfoldable pub least : List Name → Option Name
least [] = none
least (t ∷ ts) = elim (least ts) [ none ↦ some t | some u ↦ some (if before u t then u else t) ]

module _ (fl : Floats) where
  open fl use {F, lt, add, div, of_int}

  unfoldable pub insert_value : F → List F → List F
  insert_value x [] = x ∷ []
  insert_value x (y ∷ ys) = let rest = insert_value x ys in if lt y x then y ∷ rest else x ∷ y ∷ ys

  unfoldable pub sorted_values : List F → List F
  sorted_values [] = []
  sorted_values (x ∷ xs) = insert_value x (sorted_values xs)

  -- `max(x, *xs)` and `min(x, *xs)`.
  unfoldable pub greatest_value : F → List F → F
  greatest_value x [] = x
  greatest_value x (y ∷ ys) = greatest_value (if lt x y then y else x) ys

  unfoldable pub least_value : F → List F → F
  least_value x [] = x
  least_value x (y ∷ ys) = least_value (if lt y x then y else x) ys

  abbrev pub value_at : List F → ℕ → F
  value_at xs i = elim (get_elem? xs i) [ none ↦ of_int 0 | some x ↦ x ]

  -- `statistics.median(values) if values else 0`: the middle value, or half the sum of two.
  unfoldable pub median : List F → F
  unfolding sorted_values
  median [] = of_int 0
  median (x ∷ xs) =
      let ordered = sorted_values (x ∷ xs) in
      let half = length ordered / 2 in
      if length ordered % 2 == 0
      then div (add (value_at ordered (half - 1)) (value_at ordered half)) (of_int 2)
      else value_at ordered half

  -- `max(values) if values else 0`
  unfoldable pub peak : List F → F
  unfolding greatest_value
  peak [] = of_int 0
  peak (x ∷ xs) = greatest_value x xs
