-- ===== src/Common/Text/Search.antt =====
-- Searching a text behind pieces that hold no first character of what is looked for.
use trade_plat.Common.{
  ℕ, ◌≤◌, ◌<◌, ◌≡◌, refl, ap, [], ◌∷◌, ◌++◌, some, Bool, true, false, not, ◌&&◌, ◌==◌, length,
  arith, Bool-cases, inl, inr, All,
}
use trade_plat.Common.Text.{Name, starts_with, occurs_in, skip, after_first, before_first}

-- A character does not stand in a text.
unfoldable pub absent : ℕ → Name → Bool
absent p [] = true
absent p (x ∷ xs) = not (p == x) && absent p xs

pub absent-below : (p b : ℕ) (xs : Name) → b < p → All (λ c. c ≤ b) xs → absent p xs ≡ true
unfolding absent
absent-below p b [] h g = refl
absent-below p b (x ∷ xs) h (g, gs) =
    let test : (p == x) ≡ false = ground (arith, g) in rw test (absent-below p b xs h gs)

pub absent-append :
    (p : ℕ) (xs ys : Name) → absent p xs ≡ true → absent p ys ≡ true → absent p (xs ++ ys) ≡ true
unfolding absent
absent-append p [] ys h g = g
absent-append p (x ∷ xs) ys h g = ground (arith, absent-append p xs ys)

absent-head : (p x : ℕ) (xs : Name) → absent p (x ∷ xs) ≡ true → (p == x) ≡ false
unfolding absent
absent-head p x xs h = ground arith

absent-tail : (p x : ℕ) (xs : Name) → absent p (x ∷ xs) ≡ true → absent p xs ≡ true
unfolding absent
absent-tail p x xs h = ground arith

pub after_first-skip :
    (p : ℕ) (part xs ys : Name)
    → absent p xs ≡ true
    → after_first (p ∷ part) (xs ++ ys) ≡ after_first (p ∷ part) ys
unfolding after_first starts_with
after_first-skip p part [] ys h = refl
after_first-skip p part (x ∷ xs) ys h =
    rw (absent-head p x xs h, after_first) (after_first-skip p part xs ys (absent-tail p x xs h))

starts_with-append : (part ys : Name) → starts_with part (part ++ ys) ≡ true
unfolding starts_with
starts_with-append [] ys = refl
starts_with-append (x ∷ part) ys =
    let same_head : (x == x) ≡ true = ground arith in rw same_head (starts_with-append part ys)

skip-append : (part ys : Name) → skip (length part) (part ++ ys) ≡ ys
skip-append [] ys = refl
skip-append (x ∷ part) ys = skip-append part ys

pub after_first-here : (p : ℕ) (part ys : Name) → after_first (p ∷ part) (p ∷ part ++ ys) ≡ some ys
unfolding after_first
after_first-here p part ys = rw (starts_with-append (p ∷ part) ys) (ap some (skip-append part ys))

pub before_first-append :
    (p : ℕ) (xs ys : Name) → absent p xs ≡ true → before_first (p ∷ []) (xs ++ p ∷ ys) ≡ xs
unfolding before_first starts_with
before_first-append p [] ys h = let same_head : (p == p) ≡ true = ground arith in rw same_head refl
before_first-append p (x ∷ xs) ys h =
    rw (absent-head p x xs h, before_first)
      (ap (λ zs. x ∷ zs) (before_first-append p xs ys (absent-tail p x xs h)))

pub before_first-absent : (p : ℕ) (xs : Name) → absent p xs ≡ true → before_first (p ∷ []) xs ≡ xs
unfolding before_first starts_with
before_first-absent p [] h = refl
before_first-absent p (x ∷ xs) h =
    rw (absent-head p x xs h, before_first)
      (ap (λ zs. x ∷ zs) (before_first-absent p xs (absent-tail p x xs h)))

-- What `split` finds occurs in the text.
pub occurs_in-after_first :
    (part text rest : Name) → after_first part text ≡ some rest → occurs_in part text ≡ true
unfolding after_first occurs_in
occurs_in-after_first part [] rest h = ground arith
occurs_in-after_first part (x ∷ xs) rest h = elim (Bool-cases (starts_with part (x ∷ xs))) [
  | inl e ↦ rw e refl
  | inr e ↦ rw e (occurs_in-after_first part xs rest (rw e at h))
]
