-- ===== src/Bench/Campaign/Verdict.antt =====
-- The verdict of the report: one violation in any sample of any run that counts shows.
use mathlib.Core.Option.{some-injective}
use trade_plat.Common.{
  ◌≡◌, ◌↔◌, refl, sym, ap, ◌∙◌, List, [], ◌∷◌, map, Option, some, Bool, true, false, not,
  if◌then◌else◌, All,
}
use trade_plat.Common.Floats.{Floats}
use trade_plat.Common.Text.{Name}
use trade_plat.Bench.Summary.{
  Sample, FleetTotals, Figures, Failure, Summary, Report, error, figures_of, under_load, reduce,
  summarize, passed_text, overall, completed, aggregate,
}
use trade_plat.Bench.Summary.Verdict.{IsClean, overall_iff}
use trade_plat.Bench.Campaign.{Trial, restarted, run_trial, campaign}
use trade_plat.Bench.Campaign.Exit.{Good, Productive, run_trial-Good}

All-map_iff :
    {A B : Type 0}
    → (P : B → Type 0) (f : A → B) (xs : List A) → All P (map f xs) ↔ All (λ x. P (f x)) xs
All-map_iff P f [] = (λ h. tt, λ h. tt)
All-map_iff P f (x ∷ xs) = let (a, b) = All-map_iff P f xs in (λ h. (h.0, a h.1), λ h. (h.0, b h.1))

module _ (fl : Floats) where
  open fl use {F}

  -- No sample of the list reports a violation.
  abbrev pub AllClean : List (Sample F) → Type 0
  AllClean ss = All (λ s. IsClean s.correctness) ss

  -- A summary with figures passes exactly if `C`.
  abbrev Judged : Type 0 → Summary F → Type 0
  Judged C (error e) = Unit
  Judged C (figures_of f) = (f.correctness ≡ passed_text) ↔ C

  reduce-Judged :
      (s : Sample F) (ss loaded : List (Sample F)) (ops : List F) (fleet : FleetTotals)
      → Judged (AllClean (s ∷ ss)) (figures_of (reduce fl s ss loaded ops fleet))
  unfolding reduce
  reduce-Judged s ss loaded ops fleet =
      let (a, b) = overall_iff (map (λ t. t.correctness) (s ∷ ss)) in
      let (c, d) = All-map_iff IsClean (λ (t : Sample F). t.correctness) (s ∷ ss) in
      (λ h. c (a h), λ h. b (d h))

  summarize-Judged_from :
      (s : Sample F) (ss : List (Sample F)) (ops : List F) (fleet : FleetTotals)
      (loaded : List (Sample F))
      → under_load fl (s ∷ ss) ≡ loaded
      → Judged (AllClean (s ∷ ss)) (summarize fl (s ∷ ss) ops fleet)
  unfolding summarize
  summarize-Judged_from s ss ops fleet [] e = rw (e, summarize) tt
  summarize-Judged_from s ss ops fleet (t ∷ ts) e =
      rw (e, summarize) (reduce-Judged s ss (t ∷ ts) ops fleet)

  summarize-Judged :
      (ss : List (Sample F)) (ops : List F) (fleet : FleetTotals)
      → Judged (AllClean ss) (summarize fl ss ops fleet)
  unfolding summarize
  summarize-Judged [] ops fleet = tt
  summarize-Judged (s ∷ ss) ops fleet =
      summarize-Judged_from s ss ops fleet (under_load fl (s ∷ ss)) refl

  gate-Judged :
      (b : Bool) (e : Failure) (r : Summary F) (C : Type 0)
      → Judged C r
      → Judged C (if not b then error e else r)
  gate-Judged true e r C h = h
  gate-Judged false e r C h = tt

  run_trial-Judged :
      (no_restart : Bool) (t : Trial F) → Judged (AllClean t.samples) (run_trial fl no_restart t)
  unfolding run_trial
  run_trial-Judged true t =
      gate-Judged t.ready _ (summarize fl t.samples t.fleet_ops t.fleet_totals) _
        (summarize-Judged t.samples t.fleet_ops t.fleet_totals)
  run_trial-Judged false t =
      gate-Judged (restarted t) _ (summarize fl t.samples t.fleet_ops t.fleet_totals) _
        (summarize-Judged t.samples t.fleet_ops t.fleet_totals)

  abbrev verdicts : List (Summary F) → List (Option Name)
  verdicts rs = map (λ g. some g.correctness) (completed fl rs)

  verdicts-cons :
      (r : Summary F) (rs : List (Summary F)) (P C R : Type 0)
      → Good fl r ↔ P
      → Judged C r
      → All IsClean (verdicts rs) ↔ R
      → All IsClean (verdicts (r ∷ rs)) ↔ ((P → C) × R)
  unfolding completed
  verdicts-cons (error e) rs P C R (a, b) j (c, d) = (λ h. (λ p. elim (b p) [ ], c h), λ h. d h.1)
  verdicts-cons (figures_of f) rs P C R (a, b) (j, k) (c, d) =
      (λ h. (λ p. j h.0, c h.1), λ h. (k (h.0 (a tt)), d h.1))

  -- Each run that counts has no violation in any of its samples.
  abbrev pub Unblemished : (no_restart : Bool) → List (Trial F) → Type 0
  Unblemished no_restart ts = All (λ t. Productive fl no_restart t → AllClean t.samples) ts

  verdicts-Unblemished :
      (no_restart : Bool) (ts : List (Trial F))
      → All IsClean (verdicts (map (run_trial fl no_restart) ts)) ↔ Unblemished no_restart ts
  unfolding completed
  verdicts-Unblemished no_restart [] = (λ h. tt, λ h. tt)
  verdicts-Unblemished no_restart (t ∷ ts) =
      verdicts-cons (run_trial fl no_restart t) (map (run_trial fl no_restart) ts)
        (Productive fl no_restart t) (AllClean t.samples) (Unblemished no_restart ts)
        (run_trial-Good fl no_restart t) (run_trial-Judged no_restart t)
        (verdicts-Unblemished no_restart ts)

  aggregate-correctness :
      (summaries : List (Summary F)) (fs : List (Figures F)) (r : Report fl)
      → completed fl summaries ≡ fs
      → aggregate fl summaries ≡ some r
      → overall (map (λ g. some g.correctness) fs) ≡ r.correctness
  unfolding aggregate
  aggregate-correctness summaries [] r e h = cc (rw (e, aggregate) at h)
  aggregate-correctness summaries (f ∷ fs) r e h =
      ap (λ (x : Report fl). x.correctness) (some-injective _ r (rw (e, aggregate) at h))

  -- The verdict of the report is PASSED exactly if no sample of any run that counts reports a
  -- violation, under load or not: a run counts if its stack came up and some sample of it was
  -- taken under load. A verdict that is missing is no violation.
  pub correctness_iff :
      (no_restart : Bool) (ts : List (Trial F)) (r : Report fl)
      → campaign fl no_restart ts ≡ some r
      → (r.correctness ≡ passed_text) ↔ Unblemished no_restart ts
  unfolding campaign
  correctness_iff no_restart ts r h =
      let summaries = map (run_trial fl no_restart) ts in
      let same_verdict = aggregate-correctness summaries (completed fl summaries) r refl h in
      let (a, b) = overall_iff (verdicts summaries) in
      let (c, d) = verdicts-Unblemished no_restart ts in
      (λ g. c (a (same_verdict ∙ g)), λ g. sym same_verdict ∙ b (d g))
