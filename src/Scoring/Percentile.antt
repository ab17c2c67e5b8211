-- ===== src/Scoring/Percentile.antt =====
-- telemetry/scoring_engine.py: `percentile`, over Python's `sorted`.
pub mod Order
pub mod Rank
use trade_plat.Common.{ℕ, ◌-◌, List, [], ◌∷◌, Option, some, leb, length, get_elem?, if◌then◌else◌}
use trade_plat.Common.Floats.{Floats}

-- `sorted` of integers, by insertion.
unfoldable pub insert : ℕ → List ℕ → List ℕ
insert x [] = x ∷ []
insert x (y ∷ ys) = if leb x y then x ∷ y ∷ ys else y ∷ insert x ys

unfoldable pub sorted : List ℕ → List ℕ
unfolding insert
sorted [] = []
sorted (x ∷ xs) = insert x (sorted xs)

module _ (fl : Floats) where
  open fl use {F, of_int, mul, trunc}

  -- `int((len(ordered) - 1) * p)`
  unfoldable pub rank_index : List ℕ → F → ℕ
  rank_index values p = trunc (mul (of_int (length values - 1)) p)

  -- `none` is the IndexError of `ordered[idx]`.
  unfoldable pub percentile : List ℕ → F → Option ℕ
  unfolding sorted rank_index
  percentile [] p = some 0
  percentile (x ∷ xs) p = get_elem? (sorted (x ∷ xs)) (rank_index (x ∷ xs) p)
