-- ===== src/Orchestrator/Trace.antt =====
-- Counting and ordering the effects of a run.
use mathlib.Core.List.{append-nil}
use trade_plat.Common.{
  ℕ, ◌+◌, ◌≡◌, refl, List, [], ◌∷◌, ◌++◌, Option, none, some, Bool, true, false, arith,
  if◌then◌else◌, All, All-append, subst, sym,
}
use trade_plat.Orchestrator.Effects.{
  Effect, start_scoring, terminate_scoring, create_pod, Ending, done, raised, waiting, Run, after,
  ◌>>◌, finish,
}

abbrev pub count : (Effect → Bool) → List Effect → ℕ
count p [] = 0
count p (e ∷ es) = (if p e then 1 else 0) + count p es

abbrev pub last : List Effect → Option Effect
last [] = none
last (e ∷ []) = some e
last (e ∷ f ∷ es) = last (f ∷ es)

abbrev pub is_start : Effect → Bool
is_start start_scoring = true
is_start _ = false

abbrev pub is_terminate : Effect → Bool
is_terminate terminate_scoring = true
is_terminate _ = false

abbrev pub is_create : Effect → Bool
is_create create_pod = true
is_create _ = false

pub count-append :
    (p : Effect → Bool) (xs ys : List Effect) → count p (xs ++ ys) ≡ count p xs + count p ys
count-append p [] ys = omega arith
count-append p (x ∷ xs) ys = omega (arith, count-append p xs ys)

pub last-append : (xs : List Effect) (e : Effect) → last (xs ++ e ∷ []) ≡ some e
last-append [] e = refl
last-append (x ∷ []) e = refl
last-append (x ∷ y ∷ xs) e = last-append (y ∷ xs) e

-- A run has no effect that `p` picks out.
abbrev pub Silent : {A : Type 0} → (Effect → Bool) → Run A → Type 0
Silent p m = All (λ e. p e ≡ false) m.effects

pub count-Silent :
    (p : Effect → Bool) (es : List Effect) → All (λ e. p e ≡ false) es → count p es ≡ 0
count-Silent p [] h = refl
count-Silent p (e ∷ es) (h, hs) = rw h (omega (arith, count-Silent p es hs))

after-Silent :
    (p : Effect → Bool) (es : List Effect) (o : Ending Unit) (k : Run Unit)
    → All (λ e. p e ≡ false) es
    → Silent p k
    → Silent p (after es o (λ _. k))
after-Silent p es (done x) k h g = All-append (λ e. p e ≡ false) es k.effects h g
after-Silent p es (raised x) k h g = h
after-Silent p es waiting k h g = h

pub Silent->> : (p : Effect → Bool) (m k : Run Unit) → Silent p m → Silent p k → Silent p (m >> k)
Silent->> p m k h g = after-Silent p m.effects m.ending k h g

-- A run comes to its end.
abbrev pub is_waiting : {A : Type 0} → Ending A → Bool
is_waiting waiting = true
is_waiting _ = false

abbrev pub Ended : {A : Type 0} → Run A → Type 0
Ended m = is_waiting m.ending ≡ false

after-Ended :
    (es : List Effect) (o : Ending Unit) (k : Run Unit)
    → is_waiting o ≡ false
    → Ended k
    → Ended (after es o (λ _. k))
after-Ended es (done x) k h g = g
after-Ended es (raised x) k h g = refl
after-Ended es waiting k h g = h

pub Ended->> : (m k : Run Unit) → Ended m → Ended k → Ended (m >> k)
Ended->> m k h g = after-Ended m.effects m.ending k h g

-- What a run did, once it is over.
abbrev pub Closes : (List Effect → Type 0) → List Effect → Ending Unit → Type 0
Closes P es waiting = Unit
Closes P es _ = P es

pub finish-Closes :
    (P : List Effect → Type 0) (es fs : List Effect) (o q : Ending Unit)
    → P (es ++ fs)
    → Closes P
        (finish es o (record { effects = fs; ending = q })).effects
        (finish es o (record { effects = fs; ending = q })).ending
finish-Closes P es fs waiting q p = tt
finish-Closes P es fs (done x) (done y) p = subst (λ xs. P (es ++ xs)) (sym (append-nil fs)) p
finish-Closes P es fs (done z) (raised x) p = p
finish-Closes P es fs (done x) waiting p = tt
finish-Closes P es fs (raised x) (done y) p = subst (λ xs. P (es ++ xs)) (sym (append-nil fs)) p
finish-Closes P es fs (raised x) (raised y) p = p
finish-Closes P es fs (raised x) waiting p = tt

pub finish-effects :
    (P : List Effect → Type 0) (es fs : List Effect) (o q : Ending Unit)
    → P es
    → P (es ++ fs)
    → P (finish es o (record { effects = fs; ending = q })).effects
finish-effects P es fs waiting q e p = e
finish-effects P es fs (done x) (done y) e p = subst (λ xs. P (es ++ xs)) (sym (append-nil fs)) p
finish-effects P es fs (done z) (raised x) e p = p
finish-effects P es fs (done x) waiting e p = p
finish-effects P es fs (raised x) (done y) e p = subst (λ xs. P (es ++ xs)) (sym (append-nil fs)) p
finish-effects P es fs (raised x) (raised y) e p = p
finish-effects P es fs (raised x) waiting e p = p

pub finish-Ended :
    (es : List Effect) (o : Ending Unit) (fs : List Effect) (q : Ending Unit)
    → is_waiting o ≡ false
    → is_waiting q ≡ false
    → Ended (finish es o (record { effects = fs; ending = q }))
finish-Ended es waiting fs q h g = h
finish-Ended es (done z) fs (done tt) h g = refl
finish-Ended es (done z) fs (raised x) h g = refl
finish-Ended es (done z) fs waiting h g = g
finish-Ended es (raised x) fs (done y) h g = refl
finish-Ended es (raised x) fs (raised y) h g = refl
finish-Ended es (raised x) fs waiting h g = g
