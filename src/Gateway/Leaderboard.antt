-- ===== src/Gateway/Leaderboard.antt =====
-- telemetry/api.py: `read_leaderboard`. What Redis answers is an argument: `ranking` what
-- `zrevrange(key, 0, limit - 1)` gives, and `hgetall` the hash of a contestant, with `none` for an
-- exception; `float_of` is `float(text)`, with `none` for a ValueError.
pub mod Ranks
use trade_plat.Common.{
  ℕ, ◌+◌, ◌≡◌, refl, List, [], ◌∷◌, Option, none, some, Bool, true, false, ◌>>=◌, if◌then◌else◌,
  map, >>=-eq-some, ap, ap₂, sym, ◌∙◌, length,
}
use mathlib.Core.Option.{some-injective}
use trade_plat.Common.Floats.{Floats}
use trade_plat.Common.Text.{Name, codes, same}

-- The hash that the scoring engine stores.
abbrev pub Meta : Type 0
Meta = List (Name × Name)

-- `meta.get(key)`
unfoldable pub meta_get : Name → Meta → Option Name
meta_get key [] = none
meta_get key ((k, text) ∷ rest) =
    let later = meta_get key rest in if same key k then some text else later

pub record Row (F : Type 0) : Type 0 where
  pub rank : ℕ
  pub id : Name
  pub score : F
  pub tps : F
  pub p50_lat_us : F
  pub p90_lat_us : F
  pub p99_lat_us : F
  pub correctness : Name
  pub total_events : ℕ
  pub last_match_id : ℕ

-- The answer, `none` for an exception, and whether the client is closed.
pub record Reading (F : Type 0) : Type 0 where
  pub rows : Option (List (Row F))
  pub client_closed : Bool

module _ (fl : Floats) (float_of : Name → Option fl.F) where
  open fl use {F, of_int, trunc}

  -- `float(meta.get(key, 0))`
  unfoldable pub number_at : Name → Meta → Option F
  unfolding meta_get
  number_at key hash = elim (meta_get key hash) [
    | none ↦ some (of_int 0)
    | some text ↦ float_of text
  ]

  -- `meta.get("correctness", "UNKNOWN")`
  unfoldable pub verdict_of : Meta → Name
  unfolding meta_get
  verdict_of hash = elim (meta_get (codes "correctness") hash) [
    | none ↦ codes "UNKNOWN"
    | some text ↦ text
  ]

  unfoldable pub row_of : ℕ → Name → F → Meta → Option (Row F)
  unfolding number_at verdict_of
  row_of rank id score hash = do
    tps ← number_at (codes "tps") hash
    p50 ← number_at (codes "p50_lat_us") hash
    p90 ← number_at (codes "p90_lat_us") hash
    p99 ← number_at (codes "p99_lat_us") hash
    events ← number_at (codes "total_events") hash
    last ← number_at (codes "last_match_id") hash
    some record {
      rank = rank;
      id = id;
      score = score;
      tps = tps;
      p50_lat_us = p50;
      p90_lat_us = p90;
      p99_lat_us = p99;
      correctness = verdict_of hash;
      total_events = trunc events;
      last_match_id = trunc last;
    }

  -- The loop over `enumerate(scores, start=1)`.
  unfoldable pub rows_from : (Name → Option Meta) → ℕ → List (Name × F) → Option (List (Row F))
  unfolding row_of
  rows_from hgetall rank [] = some []
  rows_from hgetall rank ((id, score) ∷ scores) = do
    hash ← hgetall id
    row ← row_of rank id score hash
    rows ← rows_from hgetall (rank + 1) scores
    some (row ∷ rows)

  unfoldable pub read_leaderboard :
      (ranking : Option (List (Name × F))) → (hgetall : Name → Option Meta) → Reading F
  unfolding rows_from
  read_leaderboard ranking hgetall = record {
    rows = ranking >>= rows_from hgetall 1;
    client_closed = true;
  }
