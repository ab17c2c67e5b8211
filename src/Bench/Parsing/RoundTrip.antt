-- ===== src/Bench/Parsing/RoundTrip.antt =====
-- The load test reads what the fleet prints.
pub mod Output
use mathlib.Core.List.{append_assoc, append-nil}
use trade_plat.Common.{
  ℕ, ◌≤◌, ◌<◌, ◌≡◌, ◌∙◌, refl, sym, ap, List, [], ◌∷◌, ◌++◌, Option, none, some, true, arith, map,
  All, inl, inr, Bool-cases, length, ◌==◌, ◌%◌,
}
use trade_plat.Common.Text.{
  Name, codes, starts_with, occurs_in, after_first, before_first, without, without_from, strip,
  strip_right, is_space,
}
use trade_plat.Common.Text.Search.{
  absent, absent-below, absent-append, after_first-skip, after_first-here, before_first-append,
  before_first-absent, occurs_in-after_first,
}
use trade_plat.Common.Decimal.{digits, grouped, with_commas, read_number}
use trade_plat.Common.Decimal.RoundTrip.{
  IsDigit, digits-IsDigit, without_commas, without_digits, strip-digits, read_number-digits,
}
use trade_plat.Fleet.Report.{Line, line_text}
use trade_plat.Bench.Parsing.{field_text, read_ops, read_field, Found, scan, scan_line}

grouped-below : (xs : Name) → All IsDigit xs → All (λ c. c ≤ 57) (grouped xs)
unfolding grouped
grouped-below [] h = tt
grouped-below (x ∷ []) (d, ds) = (d.1, tt)
grouped-below (x ∷ y ∷ ys) (d, ds) = elim (Bool-cases (length (y ∷ ys) % 3 == 0)) [
  | inl e ↦ rw (e, grouped) (d.1, (omega arith, grouped-below (y ∷ ys) ds))
  | inr e ↦ rw (e, grouped) (d.1, grouped-below (y ∷ ys) ds)
]

numeral-absent : (p n : ℕ) → 57 < p → absent p (with_commas n) ≡ true
unfolding with_commas
numeral-absent p n h = absent-below p 57 _ h (grouped-below (digits n) (digits-IsDigit n))

-- The pieces of a line behind each number.
abbrev behind_drops : Line → Name
behind_drops l = codes " | Fails: " ++ with_commas l.totals.fails

abbrev behind_ops : Line → Name
behind_ops l = codes "/sec | Drops: " ++ (with_commas l.totals.drops ++ behind_drops l)

abbrev behind_sent : Line → Name
behind_sent l = codes " | OPS: " ++ (with_commas l.ops ++ behind_ops l)

after_sent :
    (l : Line)
    → after_first (codes "Total Sent:") (line_text l)
      ≡ some (32 ∷ with_commas l.totals.sent ++ behind_sent l)
unfolding line_text absent
after_sent l =
    after_first-skip b'T' (codes "otal Sent:") (codes "[Metrics] ") _ refl
    ∙ after_first-here b'T' (codes "otal Sent:") (32 ∷ with_commas l.totals.sent ++ behind_sent l)

pub after_ops :
    (l : Line)
    → after_first (codes "OPS:") (line_text l) ≡ some (32 ∷ with_commas l.ops ++ behind_ops l)
unfolding line_text absent
after_ops l =
    after_first-skip b'O' (codes "PS:") (codes "[Metrics] Total Sent: ") _ refl
    ∙ after_first-skip b'O' (codes "PS:") (with_commas l.totals.sent) _
        (numeral-absent b'O' l.totals.sent (omega arith))
    ∙ after_first-skip b'O' (codes "PS:") (codes " | ") _ refl
    ∙ after_first-here b'O' (codes "PS:") (32 ∷ with_commas l.ops ++ behind_ops l)

-- A field with the first character `p`, which is no digit and stands in none of the pieces that
-- come before the number of drops.
past_ops :
    (p : ℕ) (part : Name) (l : Line)
    → 57 < p
    → absent p (codes "[Metrics] Total Sent: ") ≡ true
    → absent p (codes " | OPS: ") ≡ true
    → after_first (p ∷ part) (line_text l) ≡ after_first (p ∷ part) (behind_ops l)
unfolding line_text
past_ops p part l h a b =
    after_first-skip p part (codes "[Metrics] Total Sent: ") _ a
    ∙ after_first-skip p part (with_commas l.totals.sent) _ (numeral-absent p l.totals.sent h)
    ∙ after_first-skip p part (codes " | OPS: ") _ b
    ∙ after_first-skip p part (with_commas l.ops) _ (numeral-absent p l.ops h)

after_drops :
    (l : Line)
    → after_first (codes "Drops:") (line_text l)
      ≡ some (32 ∷ with_commas l.totals.drops ++ behind_drops l)
unfolding absent
after_drops l =
    past_ops b'D' (codes "rops:") l (omega arith) refl refl
    ∙ after_first-skip b'D' (codes "rops:") (codes "/sec | ") _ refl
    ∙ after_first-here b'D' (codes "rops:") (32 ∷ with_commas l.totals.drops ++ behind_drops l)

after_fails :
    (l : Line) → after_first (codes "Fails:") (line_text l) ≡ some (32 ∷ with_commas l.totals.fails)
unfolding absent
after_fails l =
    past_ops b'F' (codes "ails:") l (omega arith) refl refl
    ∙ after_first-skip b'F' (codes "ails:") (codes "/sec | Drops: ") _ refl
    ∙ after_first-skip b'F' (codes "ails:") (with_commas l.totals.drops) _
        (numeral-absent b'F' l.totals.drops (omega arith))
    ∙ after_first-skip b'F' (codes "ails:") (codes " | ") _ refl
    ∙ after_first-here b'F' (codes "ails:") (32 ∷ with_commas l.totals.fails)

-- The number of a field, up to the bar.
cut_bar :
    (n : ℕ) (unit rest : Name)
    → absent b'|' unit ≡ true
    → before_first (codes "|") (32 ∷ with_commas n ++ (unit ++ b'|' ∷ rest))
      ≡ 32 ∷ with_commas n ++ unit
unfolding absent
cut_bar n unit rest h =
    let piece = 32 ∷ with_commas n ++ unit in
    ap (before_first (codes "|")) (sym (append_assoc (32 ∷ with_commas n) unit (b'|' ∷ rest)))
    ∙ before_first-append b'|' piece rest
        (absent-append b'|' (with_commas n) unit (numeral-absent b'|' n (omega arith)) h)

-- `replace(",", "")` of a number with a blank before it.
without_numeral :
    (n : ℕ) (unit : Name)
    → without (codes ",") (32 ∷ with_commas n ++ unit) ≡ 32 ∷ digits n ++ without (codes ",") unit
unfolding with_commas without without_from starts_with
without_numeral n unit = ap (λ zs. 32 ∷ zs) (without_commas (digits n) unit (digits-IsDigit n))

read_plain :
    (n : ℕ) (unit : Name)
    → strip_right (without (codes ",") unit) ≡ []
    → read_number (strip (without (codes ",") (32 ∷ with_commas n ++ unit))) ≡ some n
read_plain n unit h =
    ap (λ zs. read_number (strip zs)) (without_numeral n unit)
    ∙ ap read_number (strip-digits n (without (codes ",") unit) h)
    ∙ read_number-digits n

-- The unit of the rate goes, too.
without_unit :
    (n : ℕ) → without (codes "/sec") (32 ∷ digits n ++ codes "/sec ") ≡ 32 ∷ digits n ++ codes " "
unfolding without without_from starts_with
without_unit n =
    ap (λ zs. 32 ∷ zs)
      (without_digits b'/' (codes "sec") (digits n) (codes "/sec ") (omega arith)
        (digits-IsDigit n))

rate_text :
    (n : ℕ)
    → strip (without (codes "/sec") (without (codes ",") (32 ∷ with_commas n ++ codes "/sec ")))
      ≡ digits n
unfolding strip_right is_space without without_from starts_with
rate_text n =
    ap (λ zs. strip (without (codes "/sec") zs)) (without_numeral n (codes "/sec "))
    ∙ ap (λ zs. strip zs) (without_unit n)
    ∙ strip-digits n (codes " ") refl

field_text-after_first :
    (field line rest : Name)
    → after_first field line ≡ some rest
    → field_text field line ≡ some (before_first (codes "|") rest)
unfolding field_text
field_text-after_first field line rest h = rw h refl

read_field-text :
    (field line text : Name) (n : ℕ)
    → field_text field line ≡ some text
    → read_number (strip (without (codes ",") text)) ≡ some n
    → read_field field line ≡ some n
unfolding read_field
read_field-text field line text n h g = rw h g

pub read_ops-line_text :
    {F : Type 0}
    → (float_of : Name → Option F) (l : Line)
    → read_ops float_of (line_text l) ≡ float_of (digits l.ops)
unfolding read_ops absent
read_ops-line_text float_of l =
    let piece =
      cut_bar l.ops (codes "/sec ")
        (codes " Drops: " ++ (with_commas l.totals.drops ++ behind_drops l)) refl in
    rw (field_text-after_first (codes "OPS:") (line_text l) _ (after_ops l), piece)
      (ap float_of (rate_text l.ops))

-- A field whose number stands before a bar.
read_before_bar :
    (field rest : Name) (l : Line) (n : ℕ)
    → after_first field (line_text l) ≡ some (32 ∷ with_commas n ++ (codes " |" ++ rest))
    → read_field field (line_text l) ≡ some n
unfolding strip_right is_space without without_from starts_with absent
read_before_bar field rest l n h =
    read_field-text field (line_text l) _ n
      (field_text-after_first field (line_text l) _ h ∙ ap some (cut_bar n (codes " ") rest refl))
      (read_plain n (codes " ") refl)

read_last :
    (field : Name) (l : Line) (n : ℕ)
    → after_first field (line_text l) ≡ some (32 ∷ with_commas n)
    → read_field field (line_text l) ≡ some n
unfolding strip_right without without_from absent
read_last field l n h =
    let whole = append-nil (32 ∷ with_commas n) in
    read_field-text field (line_text l) (32 ∷ with_commas n) n
      (field_text-after_first field (line_text l) _ h
        ∙ ap some
            (before_first-absent b'|' (32 ∷ with_commas n) (numeral-absent b'|' n (omega arith))))
      (ap (λ zs. read_number (strip (without (codes ",") zs))) (sym whole) ∙ read_plain n [] refl)

-- What is stored of a line that the fleet prints.
unfoldable pub stored : Line → Found
stored l = record {
  sent = some l.totals.sent;
  drops = some l.totals.drops;
  fails = some l.totals.fails;
}

scan-read :
    (field line rest : Name) (store : ℕ → Found → Found) (found : Found) (n : ℕ)
    → after_first field line ≡ some rest
    → read_field field line ≡ some n
    → scan field store line found ≡ some (store n found)
unfolding scan
scan-read field line rest store found n h g = rw (occurs_in-after_first field line rest h, g) refl

scan_line-scan :
    (line : Name) (found f g h : Found)
    → scan (codes "Total Sent:") (λ n k. record k { sent = some n }) line found ≡ some f
    → scan (codes "Drops:") (λ n k. record k { drops = some n }) line f ≡ some g
    → scan (codes "Fails:") (λ n k. record k { fails = some n }) line g ≡ some h
    → scan_line line found ≡ h
unfolding scan_line
scan_line-scan line found f g h a b c =
    rw (a, scan_line) (rw (b, scan_line) (rw (c, scan_line) refl))

pub scan_line-line_text : (l : Line) (found : Found) → scan_line (line_text l) found ≡ stored l
unfolding stored
scan_line-line_text l found =
    scan_line-scan (line_text l) found _ _ _
      (scan-read (codes "Total Sent:") (line_text l) _ (λ n f. record f { sent = some n }) found
        l.totals.sent (after_sent l)
        (read_before_bar (codes "Total Sent:") _ l l.totals.sent (after_sent l)))
      (scan-read (codes "Drops:") (line_text l) _ (λ n f. record f { drops = some n })
        (record found { sent = some l.totals.sent }) l.totals.drops (after_drops l)
        (read_before_bar (codes "Drops:") _ l l.totals.drops (after_drops l)))
      (scan-read (codes "Fails:") (line_text l) _ (λ n f. record f { fails = some n })
        (record found { sent = some l.totals.sent; drops = some l.totals.drops }) l.totals.fails
        (after_fails l) (read_last (codes "Fails:") l l.totals.fails (after_fails l)))

pub line_text-metrics : (l : Line) → occurs_in (codes "[Metrics]") (line_text l) ≡ true
unfolding line_text
line_text-metrics l =
    occurs_in-after_first (codes "[Metrics]") (line_text l) _
      (after_first-here b'[' (codes "Metrics]") _)
