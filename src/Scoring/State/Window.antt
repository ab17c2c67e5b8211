-- ===== src/Scoring/State/Window.antt =====
-- `prune`, which stops at the first sample of the window, against a filter of all samples.
use trade_plat.Common.{
  ℕ, ◌≡◌, refl, inl, inr, List, [], ◌∷◌, ◌++◌, true, false, arith, All, All-append, if◌then◌else◌,
  Bool-cases,
}
use trade_plat.Common.Floats.{Floats, LinearOrder}
use trade_plat.Scoring.State.{ContestantState, drop_stale, prune}

module _ (fl : Floats) where
  open fl use {F, lt, sub, is_finite}

  -- The samples that are not stale.
  unfoldable pub fresh : F → List (F × ℕ) → List (F × ℕ)
  fresh cutoff [] = []
  fresh cutoff ((t, latency) ∷ rest) =
      if lt t cutoff then fresh cutoff rest else (t, latency) ∷ fresh cutoff rest

  -- The times are finite, and no later sample has an earlier time.
  abbrev pub Chronological : List (F × ℕ) → Type 0
  Chronological [] = Unit {0}
  Chronological ((t, latency) ∷ rest) =
      (is_finite t ≡ true) × All (λ s. lt s.0 t ≡ false) rest × Chronological rest

  pub fresh-append : (c : F) (xs ys : List (F × ℕ)) → fresh c (xs ++ ys) ≡ fresh c xs ++ fresh c ys
  unfolding fresh
  fresh-append c [] ys = refl
  fresh-append c ((t, l) ∷ xs) ys = ground (arith, fresh-append c xs ys)

  pub All-fresh {κ} :
      (P : F × ℕ → Type κ) (c : F) (xs : List (F × ℕ)) → All P xs → All P (fresh c xs)
  unfolding fresh
  All-fresh P c [] h = tt
  All-fresh P c ((t, l) ∷ xs) h = elim (Bool-cases (lt t c)) [
    | inl stale ↦ rw (stale, fresh) (All-fresh P c xs h.1)
    | inr kept ↦ rw (kept, fresh) (h.0, All-fresh P c xs h.1)
  ]

  pub Chronological-fresh :
      (c : F) (xs : List (F × ℕ)) → Chronological xs → Chronological (fresh c xs)
  unfolding fresh
  Chronological-fresh c [] h = tt
  Chronological-fresh c ((t, l) ∷ xs) h = elim (Bool-cases (lt t c)) [
    | inl stale ↦ rw (stale, fresh) (Chronological-fresh c xs h.2)
    | inr kept ↦
        rw (kept, fresh)
          (h.0, All-fresh (λ s. lt s.0 t ≡ false) c xs h.1, Chronological-fresh c xs h.2)
  ]

  pub Chronological-append :
      (xs : List (F × ℕ)) (t : F) (l : ℕ)
      → Chronological xs
      → All (λ s. lt t s.0 ≡ false) xs
      → is_finite t ≡ true
      → Chronological (xs ++ (t, l) ∷ [])
  Chronological-append [] t l c a f = (f, tt, tt)
  Chronological-append ((u, n) ∷ xs) t l c a f = (
    c.0,
    All-append (λ s. lt s.0 u ≡ false) xs ((t, l) ∷ []) c.1 (a.0, tt),
    Chronological-append xs t l c.2 a.1 f,
  )

  module _ (order : LinearOrder fl) where
    not_stale : (a b c : F) → is_finite a ≡ true → lt a c ≡ false → lt b a ≡ false → lt b c ≡ false
    not_stale a b c f h k = ground (arith, order.lt_cotrans b a c f)

    fresh-All :
        (c t : F) (xs : List (F × ℕ))
        → is_finite t ≡ true
        → lt t c ≡ false
        → All (λ s. lt s.0 t ≡ false) xs
        → fresh c xs ≡ xs
    unfolding fresh
    fresh-All c t [] f h a = refl
    fresh-All c t ((u, l) ∷ xs) f h a = rw (not_stale t u c f h a.0, fresh-All c t xs f h a.1) refl

    pub drop_stale-fresh :
        (c : F) (xs : List (F × ℕ)) → Chronological xs → drop_stale fl c xs ≡ fresh c xs
    unfolding drop_stale fresh
    drop_stale-fresh c [] h = refl
    drop_stale-fresh c ((t, l) ∷ xs) h = elim (Bool-cases (lt t c)) [
      | inl stale ↦ rw (stale, drop_stale-fresh c xs h.2)
      | inr kept ↦ rw (kept, fresh-All c t xs h.0 kept h.1)
    ]

    -- On samples in the order of time, `prune` keeps exactly those that are not older than the
    -- window, wherever they stand, and changes nothing else of the state.
    pub prune-fresh :
        (now : F) (s : ContestantState F)
        → Chronological s.samples
        → prune fl now s ≡ record s { samples = fresh (sub now s.window_seconds) s.samples }
    unfolding prune
    prune-fresh now s h = rw (drop_stale-fresh (sub now s.window_seconds) s.samples h)

    -- A cutoff that is no earlier makes an earlier pass idle.
    pub fresh-fresh :
        (c d : F) (xs : List (F × ℕ))
        → is_finite d ≡ true
        → lt d c ≡ false
        → fresh d (fresh c xs) ≡ fresh d xs
    unfolding fresh
    fresh-fresh c d [] f h = refl
    fresh-fresh c d ((t, l) ∷ xs) f h =
        ground (arith, order.lt_cotrans t d c f, fresh-fresh c d xs f h)
