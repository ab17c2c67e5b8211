-- ===== src/Fleet/Report.antt =====
-- bot-fleet/main.py: the line that `metrics_reporter` prints after each interval.
use trade_plat.Common.{ℕ, ◌-◌, List, [], ◌∷◌, ◌++◌}
use trade_plat.Common.Floats.{Floats}
use trade_plat.Common.Text.{Name, codes}
use trade_plat.Common.Decimal.{with_commas}
use trade_plat.Fleet.Roster.{Totals}

-- The figures behind one line.
pub record Line : Type 0 where
  pub totals : Totals
  pub ops : ℕ

-- The text of the f-string.
unfoldable pub line_text : Line → Name
line_text l =
    codes "[Metrics] Total Sent: "
    ++ (with_commas l.totals.sent
        ++ (codes " | OPS: "
            ++ (with_commas l.ops
                ++ (codes "/sec | Drops: "
                    ++ (with_commas l.totals.drops
                        ++ (codes " | Fails: " ++ with_commas l.totals.fails))))))

module _ (fl : Floats) where
  open fl use {F, div, of_int, trunc, round}

  -- The line of an interval; `:,.0f` rounds the rate to a whole number.
  unfoldable pub interval_line : (interval : F) → (last_sent : ℕ) → Totals → Line
  interval_line interval last_sent t = record {
    totals = t;
    ops = trunc (round (div (of_int (t.sent - last_sent)) interval) 0);
  }

  -- The lines of `metrics_reporter`, over the totals at the end of each interval.
  unfoldable pub report_lines : (interval : F) → (last_sent : ℕ) → List Totals → List Line
  unfolding interval_line
  report_lines interval last_sent [] = []
  report_lines interval last_sent (t ∷ ts) =
      interval_line interval last_sent t ∷ report_lines interval t.sent ts
