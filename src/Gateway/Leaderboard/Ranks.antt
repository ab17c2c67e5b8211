-- ===== src/Gateway/Leaderboard/Ranks.antt =====
-- The rows of the leaderboard.
use mathlib.Core.Option.{some-injective}
use trade_plat.Common.{ℕ, ◌+◌, ◌≡◌, refl, subst, List, [], ◌∷◌, Option, some, >>=-eq-some}
use trade_plat.Common.Floats.{Floats}
use trade_plat.Common.Text.{Name}
use trade_plat.Gateway.Leaderboard.{Meta, Row, number_at, row_of, rows_from, read_leaderboard}

-- One row for each entry of the ranking, numbered from `rank` on.
abbrev Ranked : {F : Type 0} → ℕ → List (Name × F) → List (Row F) → Type 0
Ranked rank [] [] = Unit {0}
Ranked rank [] (r ∷ rows) = ◌≡◌ {A = ℕ} 0 1
Ranked rank (s ∷ scores) [] = ◌≡◌ {A = ℕ} 0 1
Ranked rank ((id, score) ∷ scores) (r ∷ rows) =
    (r.rank ≡ rank) × (r.id ≡ id) × (r.score ≡ score) × Ranked (rank + 1) scores rows

module _ (fl : Floats) (float_of : Name → Option fl.F) where
  open fl use {F}

  row_of-named :
      (rank : ℕ) (id : Name) (score : F) (hash : Meta) (row : Row F)
      → row_of fl float_of rank id score hash ≡ some row
      → (row.rank ≡ rank) × (row.id ≡ id) × (row.score ≡ score)
  unfolding row_of
  row_of-named rank id score hash row h =
      let (tps, _, h1) = >>=-eq-some (number_at fl float_of _ hash) _ h in
      let (p50, _, h2) = >>=-eq-some (number_at fl float_of _ hash) _ h1 in
      let (p90, _, h3) = >>=-eq-some (number_at fl float_of _ hash) _ h2 in
      let (p99, _, h4) = >>=-eq-some (number_at fl float_of _ hash) _ h3 in
      let (events, _, h5) = >>=-eq-some (number_at fl float_of _ hash) _ h4 in
      let (last, _, h6) = >>=-eq-some (number_at fl float_of _ hash) _ h5 in
      let same = some-injective _ _ h6 in
      subst (λ (r : Row F). (r.rank ≡ rank) × (r.id ≡ id) × (r.score ≡ score)) same
        (refl, refl, refl)

  rows_from-Ranked :
      (hgetall : Name → Option Meta) (scores : List (Name × F)) (rank : ℕ) (rows : List (Row F))
      → rows_from fl float_of hgetall rank scores ≡ some rows
      → Ranked rank scores rows
  unfolding rows_from
  rows_from-Ranked hgetall [] rank rows h = subst (Ranked rank []) (some-injective _ _ h) tt
  rows_from-Ranked hgetall ((id, score) ∷ scores) rank rows h =
      let (hash, _, h1) = >>=-eq-some (hgetall id) _ h in
      let (row, made, h2) = >>=-eq-some (row_of fl float_of rank id score hash) _ h1 in
      let (later, rest, h3) = >>=-eq-some (rows_from fl float_of hgetall (rank + 1) scores) _ h2 in
      let (a, b, c) = row_of-named rank id score hash row made in
      subst (Ranked rank ((id, score) ∷ scores)) (some-injective _ _ h3)
        (a, b, c, rows_from-Ranked hgetall scores (rank + 1) later rest)

  -- Where no call fails, the rows are those of the ranking, in its order, and the k-th of them
  -- has the rank k.
  read_leaderboard-Ranked :
      (ranking : List (Name × F)) (hgetall : Name → Option Meta) (rows : List (Row F))
      → (read_leaderboard fl float_of (some ranking) hgetall).rows ≡ some rows
      → Ranked 1 ranking rows
  unfolding read_leaderboard
  read_leaderboard-Ranked ranking hgetall rows h = rows_from-Ranked hgetall ranking 1 rows h
