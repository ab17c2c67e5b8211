-- ===== src/Bench/Summary/Verdict.antt =====
-- The verdict over a list of verdicts: one violation anywhere shows.
use mathlib.Core.Bool.{false≢true}
use trade_plat.Common.{
  ◌≡◌, ◌∙◌, ◌↔◌, refl, sym, ap, ap₂, ◌==◌, inl, inr, List, [], ◌∷◌, Option, none, some, true, false,
  if◌then◌else◌, arith, Bool-cases, All,
}
use trade_plat.Common.Text.{Name, same}
use trade_plat.Bench.Statistics.{before, least}
use trade_plat.Bench.Summary.{passed_text, violations, overall}

-- No verdict, or `PASSED`.
abbrev pub IsClean : Option Name → Type 0
IsClean none = Unit
IsClean (some text) = text ≡ passed_text

abbrev Foul : Name → Type 0
Foul text = same text passed_text ≡ false

violations-Foul : (vs : List (Option Name)) → All Foul (violations vs)
unfolding violations
violations-Foul [] = tt
violations-Foul (none ∷ vs) = violations-Foul vs
violations-Foul (some text ∷ vs) = elim (Bool-cases (same text passed_text)) [
  | inl h ↦ rw (h, violations) (violations-Foul vs)
  | inr h ↦ rw (h, violations) (h, violations-Foul vs)
]

-- The least of a list is one of it.
OfFoul : Option Name → Type 0
OfFoul none = Unit
OfFoul (some text) = Foul text

abbrev pick : Name → Option Name → Option Name
pick t none = some t
pick t (some u) = some (if before u t then u else t)

pick-Foul : (t : Name) (o : Option Name) → Foul t → OfFoul o → OfFoul (pick t o)
unfolding OfFoul
pick-Foul t none h g = h
pick-Foul t (some u) h g = elim (Bool-cases (before u t)) [ inl e ↦ rw e g | inr e ↦ rw e h ]

least-cons : (t : Name) (ts : List Name) → least (t ∷ ts) ≡ pick t (least ts)
unfolding least
least-cons t ts = same_pick (least ts)
  where
    same_pick :
        (o : Option Name)
        → elim o [ none ↦ some t | some u ↦ some (if before u t then u else t) ] ≡ pick t o
    same_pick none = refl
    same_pick (some u) = refl

least-Foul : (ts : List Name) → All Foul ts → OfFoul (least ts)
unfolding least OfFoul
least-Foul [] h = tt
least-Foul (t ∷ ts) (h, hs) = rw (least-cons t ts) (pick-Foul t (least ts) h (least-Foul ts hs))

least-eq-none : (ts : List Name) → least ts ≡ none → ts ≡ []
unfolding least
least-eq-none [] h = refl
least-eq-none (t ∷ ts) h = elim (never (least ts) (sym (least-cons t ts) ∙ h)) [ ]
  where
    never : (o : Option Name) → pick t o ≡ none → ⊥
    never none g = ground arith
    never (some u) g = ground arith

abbrev name_of : Option Name → Name
name_of none = passed_text
name_of (some text) = text

name_of-eq-passed : (o : Option Name) → OfFoul o → name_of o ≡ passed_text → o ≡ none
unfolding OfFoul same
name_of-eq-passed none h g = refl
name_of-eq-passed (some text) h g =
    let clash : same passed_text passed_text ≡ false = rw g at h in
    elim (false≢true (sym clash)) [ ]

same-eq : (xs ys : Name) → same xs ys ≡ true → xs ≡ ys
unfolding same
same-eq [] [] h = refl
same-eq [] (y ∷ ys) h = elim (false≢true h) [ ]
same-eq (x ∷ xs) [] h = elim (false≢true h) [ ]
same-eq (x ∷ xs) (y ∷ ys) h = elim (Bool-cases (x == y)) [
  | inl e ↦
      let first : x ≡ y = ground arith in
      let rest : same xs ys ≡ true = rw e at h in ap₂ (λ z zs. z ∷ zs) first (same-eq xs ys rest)
  | inr e ↦ let never : false ≡ true = rw e at h in elim (false≢true never) [ ]
]

violations-IsClean : (vs : List (Option Name)) → (violations vs ≡ []) ↔ All IsClean vs
unfolding violations same
violations-IsClean [] = (λ h. tt, λ h. refl)
violations-IsClean (none ∷ vs) = let (a, b) = violations-IsClean vs in (λ h. (tt, a h), λ h. b h.1)
violations-IsClean (some text ∷ vs) = elim (Bool-cases (same text passed_text)) [
  | inl h ↦
      let (a, b) = violations-IsClean vs in
      rw (h, violations) (λ e. (same-eq text passed_text h, a e), λ k. b k.1)
  | inr h ↦
      rw (h, violations)
        (
          λ e. ground arith,
          λ k.
              let clash : same passed_text passed_text ≡ false = rw k.0 at h in
              elim (false≢true (sym clash)) [ ],
        )
]

overall-name_of : (vs : List (Option Name)) → overall vs ≡ name_of (least (violations vs))
unfolding overall
overall-name_of vs = same_name (least (violations vs))
  where
    same_name : (o : Option Name) → elim o [ none ↦ passed_text | some text ↦ text ] ≡ name_of o
    same_name none = refl
    same_name (some text) = refl

-- The verdict over the samples of a run, and over the runs, is PASSED exactly if every verdict
-- among them is PASSED or missing.
pub overall_iff : (vs : List (Option Name)) → (overall vs ≡ passed_text) ↔ All IsClean vs
unfolding least
overall_iff vs =
    let (a, b) = violations-IsClean vs in
    let o = least (violations vs) in
    (
      λ h. a (
          least-eq-none (violations vs) (
            name_of-eq-passed o (least-Foul (violations vs) (violations-Foul vs))
              (sym (overall-name_of vs) ∙ h))),
      λ h. overall-name_of vs ∙ ap (λ ts. name_of (least ts)) (b h),
    )
