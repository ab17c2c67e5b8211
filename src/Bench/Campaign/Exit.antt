-- ===== src/Bench/Campaign/Exit.antt =====
-- When the load test succeeds.
use mathlib.Core.Bool.{false≢true}
use trade_plat.Common.{
  ℕ, ◌≡◌, ◌⊎◌, ◌↔◌, refl, inl, inr, List, [], ◌∷◌, map, Bool, true, false, not, ◌==◌, if◌then◌else◌,
  arith, Bool-cases,
}
use trade_plat.Common.Floats.{Floats}
use trade_plat.Bench.Summary.{
  Sample, FleetTotals, Figures, Failure, stack_not_ready, stack_failed, Summary, error, figures_of,
  under_load, summarize, completed, aggregate,
}
use trade_plat.Bench.Campaign.{Trial, restarted, run_trial, exit_status, campaign}

module _ (fl : Floats) where
  open fl use {F, lt, of_int}

  -- Some sample was taken under load.
  abbrev pub Loaded : List (Sample F) → Type 0
  Loaded [] = ⊥
  Loaded (s ∷ ss) = (lt (of_int 0) s.tps ≡ true) ⊎ Loaded ss

  -- The stack of a trial came up, and the engine was under load.
  abbrev pub Productive : (no_restart : Bool) → Trial F → Type 0
  Productive true t = (t.ready ≡ true) × Loaded t.samples
  Productive false t = (t.returncode ≡ 0) × (t.ready ≡ true) × Loaded t.samples

  abbrev pub AnyProductive : (no_restart : Bool) → List (Trial F) → Type 0
  AnyProductive no_restart [] = ⊥
  AnyProductive no_restart (t ∷ ts) = Productive no_restart t ⊎ AnyProductive no_restart ts

  -- A summary without an error.
  abbrev pub Good : Summary F → Type 0
  Good (error e) = ⊥
  Good (figures_of f) = Unit

  abbrev NonEmpty : List (Figures F) → Type 0
  NonEmpty [] = ⊥
  NonEmpty (f ∷ fs) = Unit

  abbrev Filled : List (Sample F) → Type 0
  Filled [] = ⊥
  Filled (s ∷ ss) = Unit

  under_load-Filled : (ss : List (Sample F)) → Filled (under_load fl ss) ↔ Loaded ss
  unfolding under_load
  under_load-Filled [] = (λ h. h, λ h. h)
  under_load-Filled (s ∷ ss) = elim (Bool-cases (lt (of_int 0) s.tps)) [
    | inl e ↦ rw (e, under_load) (λ h. inl refl, λ h. tt)
    | inr e ↦
        let (a, b) = under_load-Filled ss in
        rw (e, under_load)
          (λ h. inr (a h), λ h. elim h [ inl f ↦ elim (false≢true f) [ ] | inr g ↦ b g ])
  ]

  summarize-Filled :
      (s : Sample F) (ss : List (Sample F)) (ops : List F) (fleet : FleetTotals)
      (xs : List (Sample F))
      → under_load fl (s ∷ ss) ≡ xs
      → Good (summarize fl (s ∷ ss) ops fleet) ↔ Filled xs
  unfolding summarize
  summarize-Filled s ss ops fleet [] e = rw (e, summarize) (λ h. h, λ h. h)
  summarize-Filled s ss ops fleet (x ∷ xs) e = rw (e, summarize) (λ h. tt, λ h. tt)

  summarize-Good :
      (ss : List (Sample F)) (ops : List F) (fleet : FleetTotals)
      → Good (summarize fl ss ops fleet) ↔ Loaded ss
  unfolding summarize
  summarize-Good [] ops fleet = (λ h. h, λ h. h)
  summarize-Good (s ∷ ss) ops fleet =
      let (a, b) = summarize-Filled s ss ops fleet (under_load fl (s ∷ ss)) refl in
      let (c, d) = under_load-Filled (s ∷ ss) in (λ h. c (a h), λ h. b (d h))

  -- A test before a summary.
  gate :
      (b : Bool) (e : Failure) (r : Summary F) (P : Type 0)
      → Good r ↔ P
      → Good (if not b then error e else r) ↔ ((b ≡ true) × P)
  gate true e r P (a, b) = (λ h. (refl, a h), λ h. b h.1)
  gate false e r P (a, b) = (λ h. elim h [ ], λ h. elim (false≢true h.0) [ ])

  restarted_iff :
      (code : ℕ) (ready : Bool)
      → ((if not (code == 0) then false else ready) ≡ true) ↔ ((code ≡ 0) × (ready ≡ true))
  restarted_iff code ready = (λ h. ground arith, λ h. ground arith)

  pub run_trial-Good :
      (no_restart : Bool) (t : Trial F) → Good (run_trial fl no_restart t) ↔ Productive no_restart t
  unfolding run_trial restarted
  run_trial-Good true t =
      gate t.ready stack_not_ready (summarize fl t.samples t.fleet_ops t.fleet_totals) _
        (summarize-Good t.samples t.fleet_ops t.fleet_totals)
  run_trial-Good false t =
      let (a, b) =
        gate (restarted t) stack_failed (summarize fl t.samples t.fleet_ops t.fleet_totals) _
          (summarize-Good t.samples t.fleet_ops t.fleet_totals) in
      let (c, d) = restarted_iff t.returncode t.ready in
      (λ h. ((c (a h).0).0, (c (a h).0).1, (a h).1), λ h. b (d (h.0, h.1), h.2))

  completed-cons :
      (r : Summary F) (rs : List (Summary F))
      → NonEmpty (completed fl (r ∷ rs)) ↔ (Good r ⊎ NonEmpty (completed fl rs))
  unfolding completed
  completed-cons (error e) rs = (λ h. inr h, λ h. elim h [ inl f ↦ elim f [ ] | inr g ↦ g ])
  completed-cons (figures_of f) rs = (λ h. inl tt, λ h. tt)

  completed-NonEmpty :
      (no_restart : Bool) (ts : List (Trial F))
      → NonEmpty (completed fl (map (run_trial fl no_restart) ts)) ↔ AnyProductive no_restart ts
  unfolding completed
  completed-NonEmpty no_restart [] = (λ h. h, λ h. h)
  completed-NonEmpty no_restart (t ∷ ts) =
      let (a, b) = completed-cons (run_trial fl no_restart t) (map (run_trial fl no_restart) ts) in
      let (c, d) = run_trial-Good no_restart t in
      let (e, f) = completed-NonEmpty no_restart ts in
      (
        λ h. elim (a h) [ inl g ↦ inl (c g) | inr g ↦ inr (e g) ],
        λ h. elim h [ inl g ↦ b (inl (d g)) | inr g ↦ b (inr (f g)) ],
      )

  aggregate-NonEmpty :
      (summaries : List (Summary F)) (fs : List (Figures F))
      → completed fl summaries ≡ fs
      → (exit_status (aggregate fl summaries) ≡ 0) ↔ NonEmpty fs
  unfolding exit_status aggregate
  aggregate-NonEmpty summaries [] e = rw (e, aggregate) (λ h. ground arith, λ h. elim h [ ])
  aggregate-NonEmpty summaries (f ∷ fs) e = rw (e, aggregate) (λ h. tt, λ h. ground arith)

  -- The exit status is 0 exactly if a report has runs.
  exit_status-aggregate :
      (summaries : List (Summary F))
      → (exit_status (aggregate fl summaries) ≡ 0) ↔ NonEmpty (completed fl summaries)
  exit_status-aggregate summaries = aggregate-NonEmpty summaries (completed fl summaries) refl

  -- The load test exits with 0 exactly if some run of it found its stack ready, after a restart
  -- that succeeded unless restarts are off, and took a sample of the engine under load.
  pub exit_status_iff :
      (no_restart : Bool) (ts : List (Trial F))
      → (exit_status (campaign fl no_restart ts) ≡ 0) ↔ AnyProductive no_restart ts
  unfolding campaign
  exit_status_iff no_restart ts =
      let (a, b) = exit_status-aggregate (map (run_trial fl no_restart) ts) in
      let (c, d) = completed-NonEmpty no_restart ts in (λ h. c (a h), λ h. b (d h))
