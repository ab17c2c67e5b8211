-- ===== src/Scoring/Percentile/Rank.antt =====
-- `percentile` returns the order statistic at its index, and never runs out of the list.
use trade_plat.Common.{
  ℕ, ◌-◌, ◌≤◌, ◌<◌, ◌≡◌, List, [], ◌∷◌, some, arith, length, get_elem?-lt_length,
}
use trade_plat.Common.Floats.{Floats, Scaling}
use trade_plat.Scoring.Percentile.{sorted, rank_index, percentile}
use trade_plat.Scoring.Percentile.Order.{length-sorted, sorted-IsSorted, get_elem?-mono}

module _ (fl : Floats) (scaling : Scaling fl) where
  open fl use {decimal}

  rank_index-lt :
      (x : ℕ) (xs : List ℕ) (digits : ℕ)
      → digits < 100
      → rank_index fl (x ∷ xs) (decimal digits 2) < length (sorted (x ∷ xs))
  unfolding rank_index
  rank_index-lt x xs digits h =
      omega (arith, scaling.trunc-mul-le (length xs) digits h, length-sorted (x ∷ xs))

  pub percentile-total :
      (x : ℕ) (xs : List ℕ) (digits : ℕ)
      → digits < 100
      → (v : ℕ) × (percentile fl (x ∷ xs) (decimal digits 2) ≡ some v)
  unfolding percentile
  percentile-total x xs digits h =
      get_elem?-lt_length (sorted (x ∷ xs)) (rank_index fl (x ∷ xs) (decimal digits 2))
        (rank_index-lt x xs digits h)

  -- The percentiles of one list come in order: a higher fraction gives no lower value.
  percentile_mono :
      (values : List ℕ) (digits digits' v w : ℕ)
      → digits ≤ digits'
      → percentile fl values (decimal digits 2) ≡ some v
      → percentile fl values (decimal digits' 2) ≡ some w
      → v ≤ w
  unfolding percentile rank_index
  percentile_mono [] digits digits' v w h e f = ground arith
  percentile_mono (x ∷ xs) digits digits' v w h e f =
      get_elem?-mono (sorted (x ∷ xs)) _ _ v w (sorted-IsSorted (x ∷ xs))
        (scaling.trunc-mul_mono (length (x ∷ xs) - 1) digits digits' h) e f
