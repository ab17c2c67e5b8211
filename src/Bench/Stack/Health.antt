-- ===== src/Bench/Stack/Health.antt =====
-- `wait_until_ready` on a service that Docker reports as unhealthy.
use mathlib.Core.Bool.{false≢true}
use trade_plat.Common.{
  ℕ, ◌≡◌, refl, inl, inr, List, [], ◌∷◌, Bool, true, false, ◌&&◌, ◌||◌, ◌==◌, if◌then◌else◌,
  Bool-cases,
}
use trade_plat.Common.Text.{Name, codes, starts_with, occurs_in}
use trade_plat.Bench.Stack.{healthchecked, service_ok}

and-right : (a b : Bool) → (a && b) ≡ true → b ≡ true
and-right true b h = h
and-right false b h = elim (false≢true h) [ ]

occurs_in-starts_with :
    (part text : Name) → starts_with part text ≡ true → occurs_in part text ≡ true
unfolding occurs_in
occurs_in-starts_with part [] h = h
occurs_in-starts_with part (y ∷ ys) h = rw h refl

occurs_in-later :
    (part : Name) (x : ℕ) (xs : List ℕ) → occurs_in part xs ≡ true → occurs_in part (x ∷ xs) ≡ true
unfolding occurs_in
occurs_in-later part x xs h = rw h (or-true (starts_with part (x ∷ xs)))
  where
    or-true : (b : Bool) → (b || true) ≡ true
    or-true true = refl
    or-true false = refl

starts_with-rest :
    (a : ℕ) (part text : Name) → starts_with (a ∷ part) text ≡ true → occurs_in part text ≡ true
unfolding starts_with
starts_with-rest a part [] h = elim (false≢true h) [ ]
starts_with-rest a part (x ∷ xs) h =
    occurs_in-later part x xs
      (occurs_in-starts_with part xs (and-right (a == x) (starts_with part xs) h))

starts_with-rest_rest :
    (a b : ℕ) (part text : Name)
    → starts_with (a ∷ b ∷ part) text ≡ true
    → occurs_in part text ≡ true
unfolding starts_with
starts_with-rest_rest a b part [] h = elim (false≢true h) [ ]
starts_with-rest_rest a b part (x ∷ xs) h =
    occurs_in-later part x xs
      (starts_with-rest b part xs (and-right (a == x) (starts_with (b ∷ part) xs) h))

occurs_in-unhealthy :
    (text : Name)
    → occurs_in (codes "unhealthy") text ≡ true
    → occurs_in (codes "healthy") text ≡ true
unfolding occurs_in starts_with
occurs_in-unhealthy [] h = elim (false≢true h) [ ]
occurs_in-unhealthy (x ∷ xs) h = elim (Bool-cases (starts_with (codes "unhealthy") (x ∷ xs))) [
  | inl here ↦ starts_with-rest_rest b'u' b'n' (codes "healthy") (x ∷ xs) here
  | inr elsewhere ↦
      occurs_in-later (codes "healthy") x xs (occurs_in-unhealthy xs (rw elsewhere at h))
]

-- A service that is up passes the check also where Docker reports it as `unhealthy`: the word
-- has `healthy` in it.
pub service_ok-unhealthy :
    (service status : Name)
    → starts_with (codes "Up") status ≡ true
    → occurs_in (codes "unhealthy") status ≡ true
    → service_ok service status ≡ true
unfolding service_ok
service_ok-unhealthy service status up ill =
    rw (up, occurs_in-unhealthy status ill) (checked (healthchecked service))
  where
    checked : (b : Bool) → (if b && false then false else true) ≡ true
    checked true = refl
    checked false = refl
