-- ===== src/Bench/Parsing.antt =====
-- bench/run_loadtest.py: what is read from the output of the fleet and of the scoring engine. The
-- arguments are the lines of `stdout.splitlines()`.
pub mod RoundTrip
use trade_plat.Common.{
  ℕ, List, [], ◌∷◌, Option, none, some, Bool, true, false, not, ◌||◌, if◌then◌else◌, ◌>>=◌,
}
use trade_plat.Common.Text.{
  Name, codes, starts_with, occurs_in, after_first, before_first, without, strip,
}
use trade_plat.Common.Decimal.{read_number}
use trade_plat.Bench.Summary.{Sample, FleetTotals}

-- `line.split(field, 1)[1].split("|", 1)[0]`; `none` is the IndexError.
unfoldable pub field_text : Name → Name → Option Name
field_text field line = do rest ← after_first field line; some (before_first (codes "|") rest)

-- `float(...)` of the field behind `OPS:`. `float_of` is the built-in `float` on a text, with `none`
-- for a ValueError.
unfoldable pub read_ops : {F : Type 0} → (float_of : Name → Option F) → Name → Option F
unfolding field_text
read_ops float_of line = do
  field ← field_text (codes "OPS:") line
  float_of (strip (without (codes "/sec") (without (codes ",") field)))

-- `int(...)` of another field.
unfoldable pub read_field : Name → Name → Option ℕ
unfolding field_text
read_field field line = do
  text ← field_text field line
  read_number (strip (without (codes ",") text))

unfoldable pub parse_fleet_ops : {F : Type 0} → (float_of : Name → Option F) → List Name → List F
parse_fleet_ops float_of [] = []
parse_fleet_ops float_of (line ∷ lines) =
    let readings = parse_fleet_ops float_of lines in
    if not (occurs_in (codes "[Metrics]") line) || not (occurs_in (codes "OPS:") line)
    then readings
    else elim (read_ops float_of line) [ none ↦ readings | some ops ↦ ops ∷ readings ]

-- The dictionary `totals`.
pub record Found : Type 0 where
  pub sent : Option ℕ
  pub drops : Option ℕ
  pub fails : Option ℕ

-- The body of the inner loop for one field; `none` is an exception.
unfoldable pub scan : Name → (ℕ → Found → Found) → Name → Found → Option Found
scan field store line found =
    if occurs_in field line
    then (do n ← read_field field line; some (store n found))
    else some found

-- The inner loop: an exception leaves what is stored and goes on with the next line.
unfoldable pub scan_line : Name → Found → Found
scan_line line found =
    elim (scan (codes "Total Sent:") (λ n f. record f { sent = some n }) line found) [
      | none ↦ found
      | some f ↦ elim (scan (codes "Drops:") (λ n g. record g { drops = some n }) line f) [
        | none ↦ f
        | some g ↦ elim (scan (codes "Fails:") (λ n h. record h { fails = some n }) line g) [
          | none ↦ g
          | some h ↦ h
        ]
      ]
    ]

unfoldable pub scan_lines : List Name → Found → Found
scan_lines [] found = found
scan_lines (line ∷ lines) found =
    if not (occurs_in (codes "[Metrics]") line)
    then scan_lines lines found
    else scan_lines lines (scan_line line found)

unfoldable pub parse_fleet_totals : List Name → Found
parse_fleet_totals lines = scan_lines lines (record { sent = none; drops = none; fails = none })

-- `fleet_totals.get(key, 0)` of the three keys.
unfoldable pub count_of : Option ℕ → ℕ
count_of none = 0
count_of (some n) = n

unfoldable pub fleet_totals_of : Found → FleetTotals
unfolding count_of
fleet_totals_of f = record {
  sent = count_of f.sent;
  drops = count_of f.drops;
  fails = count_of f.fails;
}

-- `harvest_scoring_samples`: `loads` is `json.loads`, with `none` for a JSONDecodeError and for an
-- object without `tps`.
unfoldable pub harvest_scoring_samples :
    {F : Type 0} → (loads : Name → Option (Sample F)) → List Name → List (Sample F)
harvest_scoring_samples loads [] = []
harvest_scoring_samples loads (line ∷ lines) =
    let samples = harvest_scoring_samples loads lines in
    if not (starts_with (codes "{") (strip line))
    then samples
    else elim (loads (strip line)) [ none ↦ samples | some sample ↦ sample ∷ samples ]
