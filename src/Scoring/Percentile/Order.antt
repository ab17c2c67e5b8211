-- ===== src/Scoring/Percentile/Order.antt =====
-- The sort under `percentile`: an ordered list with the elements of the input.
use trade_plat.Common.{
  ℕ, zero, suc, ◌+◌, ◌≤◌, ◌<◌, ◌≡◌, refl, List, [], ◌∷◌, some, arith, leb, ltb, if◌then◌else◌,
  length, All, get_elem?, All-get_elem?,
}
use trade_plat.Scoring.Percentile.{insert, sorted}

-- How many values are at most, or less than, `v`.
abbrev pub count_le : ℕ → List ℕ → ℕ
count_le v [] = 0
count_le v (x ∷ xs) = (if leb x v then 1 else 0) + count_le v xs

abbrev pub count_lt : ℕ → List ℕ → ℕ
count_lt v [] = 0
count_lt v (x ∷ xs) = (if ltb x v then 1 else 0) + count_lt v xs

abbrev pub IsSorted : List ℕ → Type 0
IsSorted [] = Unit {0}
IsSorted (x ∷ xs) = All (λ y. x ≤ y) xs × IsSorted xs

count_le-insert : (v x : ℕ) (ys : List ℕ) → count_le v (insert x ys) ≡ count_le v (x ∷ ys)
unfolding insert
count_le-insert v x [] = refl
count_le-insert v x (y ∷ ys) = ground (arith, count_le-insert v x ys)

count_lt-insert : (v x : ℕ) (ys : List ℕ) → count_lt v (insert x ys) ≡ count_lt v (x ∷ ys)
unfolding insert
count_lt-insert v x [] = refl
count_lt-insert v x (y ∷ ys) = ground (arith, count_lt-insert v x ys)

length-insert : (x : ℕ) (ys : List ℕ) → length (insert x ys) ≡ suc (length ys)
unfolding insert
length-insert x [] = refl
length-insert x (y ∷ ys) = ground (arith, length-insert x ys)

pub count_le-sorted : (v : ℕ) (xs : List ℕ) → count_le v (sorted xs) ≡ count_le v xs
unfolding sorted
count_le-sorted v [] = refl
count_le-sorted v (x ∷ xs) = omega (arith, count_le-insert v x (sorted xs), count_le-sorted v xs)

pub count_lt-sorted : (v : ℕ) (xs : List ℕ) → count_lt v (sorted xs) ≡ count_lt v xs
unfolding sorted
count_lt-sorted v [] = refl
count_lt-sorted v (x ∷ xs) = omega (arith, count_lt-insert v x (sorted xs), count_lt-sorted v xs)

pub length-sorted : (xs : List ℕ) → length (sorted xs) ≡ length xs
unfolding sorted
length-sorted [] = refl
length-sorted (x ∷ xs) = omega (arith, length-insert x (sorted xs), length-sorted xs)

All-le_trans : (x y : ℕ) (ys : List ℕ) → x ≤ y → All (λ z. y ≤ z) ys → All (λ z. x ≤ z) ys
All-le_trans x y [] h a = tt
All-le_trans x y (z ∷ ys) h a = (omega arith, All-le_trans x y ys h a.1)

All-insert : (b x : ℕ) (ys : List ℕ) → b ≤ x → All (λ z. b ≤ z) ys → All (λ z. b ≤ z) (insert x ys)
unfolding insert
All-insert b x [] h a = (h, tt)
All-insert b x (y ∷ ys) h a = ground (arith, All-insert b x ys h a.1)

insert-IsSorted : (x : ℕ) (ys : List ℕ) → IsSorted ys → IsSorted (insert x ys)
unfolding insert
insert-IsSorted x [] s = (tt, tt)
insert-IsSorted x (y ∷ ys) s =
    ground (arith, insert-IsSorted x ys s.1, All-le_trans x y ys, All-insert y x ys)

pub sorted-IsSorted : (xs : List ℕ) → IsSorted (sorted xs)
unfolding sorted
sorted-IsSorted [] = tt
sorted-IsSorted (x ∷ xs) = insert-IsSorted x (sorted xs) (sorted-IsSorted xs)

count_lt-lower : (x : ℕ) (ys : List ℕ) → All (λ z. x ≤ z) ys → count_lt x ys ≡ 0
count_lt-lower x [] a = refl
count_lt-lower x (y ∷ ys) a = ground (arith, count_lt-lower x ys a.1)

-- The element at an index of an ordered list has no more than that many below it.
pub rank-get_elem? :
    (xs : List ℕ) (i v : ℕ)
    → IsSorted xs
    → get_elem? xs i ≡ some v
    → (count_lt v xs ≤ i) × (i < count_le v xs)
rank-get_elem? [] i v s e = cc
rank-get_elem? (x ∷ xs) zero v s e = ground (arith, count_lt-lower x xs s.0)
rank-get_elem? (x ∷ xs) (suc i) v s e =
    let below : x ≤ v = All-get_elem? (λ z. x ≤ z) xs i v s.0 e in
    ground (arith, rank-get_elem? xs i v s.1 e)

pub get_elem?-mono :
    (xs : List ℕ) (i j v w : ℕ)
    → IsSorted xs
    → i ≤ j
    → get_elem? xs i ≡ some v
    → get_elem? xs j ≡ some w
    → v ≤ w
get_elem?-mono [] i j v w s h e f = cc
get_elem?-mono (x ∷ xs) zero zero v w s h e f = ground arith
get_elem?-mono (x ∷ xs) zero (suc j) v w s h e f =
    let below : x ≤ w = All-get_elem? (λ z. x ≤ z) xs j w s.0 f in ground arith
get_elem?-mono (x ∷ xs) (suc i) zero v w s h e f = absurd (omega arith)
get_elem?-mono (x ∷ xs) (suc i) (suc j) v w s h e f =
    get_elem?-mono xs i j v w s.1 (omega arith) e f
