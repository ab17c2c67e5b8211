-- ===== src/Bench/Parsing/RoundTrip/Output.antt =====
-- What `parse_fleet_ops` and `parse_fleet_totals` find in the whole output of the fleet.
use trade_plat.Common.{ℕ, ◌≡◌, ◌∙◌, refl, ap, List, [], ◌∷◌, Option, none, some, false, map, All}
use trade_plat.Common.Floats.{Floats}
use trade_plat.Common.Text.{Name, codes, occurs_in}
use trade_plat.Common.Text.Search.{occurs_in-after_first}
use trade_plat.Common.Decimal.{digits}
use trade_plat.Fleet.Report.{Line, line_text}
use trade_plat.Bench.Summary.{FleetTotals}
use trade_plat.Bench.Parsing.{
  parse_fleet_ops, Found, scan_lines, parse_fleet_totals, count_of, fleet_totals_of,
}
use trade_plat.Bench.Parsing.RoundTrip.{
  after_ops, read_ops-line_text, stored, scan_line-line_text, line_text-metrics,
}

-- A line of the output: one of the reporter, or another one, such as `Starting Bot Fleet...`.
pub data Printed : Type 0 where
  reporter : Line → Printed
  other : Name → Printed

abbrev pub text_of : Printed → Name
text_of (reporter l) = line_text l
text_of (other line) = line

abbrev pub IsMarked : Printed → Type 0
IsMarked (reporter l) = Unit {0}
IsMarked (other line) = occurs_in (codes "[Metrics]") line ≡ false

-- The rates of the reporter, in order.
abbrev pub rates : List Printed → List ℕ
rates [] = []
rates (reporter l ∷ ps) = l.ops ∷ rates ps
rates (other line ∷ ps) = rates ps

-- The totals of the last line of the reporter behind those of `before`.
abbrev pub last_totals : FleetTotals → List Printed → FleetTotals
last_totals before [] = before
last_totals before (reporter l ∷ ps) =
    last_totals (record { sent = l.totals.sent; drops = l.totals.drops; fails = l.totals.fails }) ps
last_totals before (other line ∷ ps) = last_totals before ps

scan_lines-text_of :
    (ps : List Printed) (found : Found)
    → All IsMarked ps
    → fleet_totals_of (scan_lines (map text_of ps) found) ≡ last_totals (fleet_totals_of found) ps
unfolding scan_lines fleet_totals_of count_of stored
scan_lines-text_of [] found h = refl
scan_lines-text_of (reporter l ∷ ps) found (_, h) =
    rw (line_text-metrics l, scan_line-line_text l found, scan_lines)
      (scan_lines-text_of ps (stored l) h)
scan_lines-text_of (other line ∷ ps) found (m, h) =
    rw (m, scan_lines) (scan_lines-text_of ps found h)

module _ (fl : Floats) (float_of : Name → Option fl.F)
    (float_of-digits : (n : ℕ) → float_of (digits n) ≡ some (fl.of_int n)) where
  open fl use {of_int}

  parse_fleet_ops-text_of :
      (ps : List Printed)
      → All IsMarked ps
      → parse_fleet_ops float_of (map text_of ps) ≡ map of_int (rates ps)
  unfolding parse_fleet_ops
  parse_fleet_ops-text_of [] h = refl
  parse_fleet_ops-text_of (reporter l ∷ ps) (_, h) =
      let has_ops = occurs_in-after_first (codes "OPS:") (line_text l) _ (after_ops l) in
      let read = read_ops-line_text float_of l ∙ float_of-digits l.ops in
      rw (line_text-metrics l, has_ops, read, parse_fleet_ops)
        (ap (λ fs. of_int l.ops ∷ fs) (parse_fleet_ops-text_of ps h))
  parse_fleet_ops-text_of (other line ∷ ps) (m, h) =
      rw (m, parse_fleet_ops) (parse_fleet_ops-text_of ps h)

  -- The load test reads what the fleet prints, whatever the counts and whatever other lines that
  -- do not say [Metrics] stand before, between and behind the lines of the reporter: it reads the
  -- rate of each of those, in order, and the totals of the last of them, or 0 if there is none.
  -- `float` reads the decimal digits of an integer as that integer.
  pub parse-line_text :
      (ps : List Printed)
      → All IsMarked ps
      → (parse_fleet_ops float_of (map text_of ps) ≡ map of_int (rates ps))
        × (fleet_totals_of (parse_fleet_totals (map text_of ps))
            ≡ last_totals (record { sent = 0; drops = 0; fails = 0 }) ps)
  unfolding parse_fleet_totals fleet_totals_of count_of
  parse-line_text ps h = (
    parse_fleet_ops-text_of ps h,
    scan_lines-text_of ps (record { sent = none; drops = none; fails = none }) h,
  )
