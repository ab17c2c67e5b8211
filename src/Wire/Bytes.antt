-- ===== src/Wire/Bytes.antt =====
-- Unsigned numbers as bytes, in the two orders that the formats use.
use native.Mathlib.Nat.{pow-suc}
use trade_plat.Common.{
  ℕ, zero, suc, ◌+◌, ◌*◌, ◌/◌, ◌%◌, ◌^◌, ◌<◌, ◌≡◌, ◌∙◌, refl, ap, subst, List, [], ◌∷◌, ◌++◌, take,
  drop, length, arith, All, take-append,
}

-- `n` little-endian bytes.
unfoldable pub to_bytes : ℕ → ℕ → List ℕ
to_bytes zero x = []
to_bytes (suc n) x = (x % 256) ∷ to_bytes n (x / 256)

-- The number of little-endian bytes.
unfoldable pub from_bytes : List ℕ → ℕ
from_bytes [] = 0
from_bytes (b ∷ bs) = b + 256 * from_bytes bs

abbrev pub slice {ℓ} : {A : Type ℓ} → ℕ → ℕ → List A → List A
slice offset n bs = take n (drop offset bs)

abbrev pub IsBytes : List ℕ → Type 0
IsBytes = All (λ b. b < 256)

pub length-to_bytes : (n x : ℕ) → length (to_bytes n x) ≡ n
unfolding to_bytes
length-to_bytes zero x = refl
length-to_bytes (suc n) x = ap suc (length-to_bytes n (x / 256))

pub from_bytes-to_bytes : (n x : ℕ) → x < 256 ^ n → from_bytes (to_bytes n x) ≡ x
unfolding to_bytes from_bytes
from_bytes-to_bytes zero x h = omega arith
from_bytes-to_bytes (suc n) x h =
    omega (arith, from_bytes-to_bytes n (x / 256) (omega (arith, pow-suc 256 n)))

pub to_bytes-IsBytes : (n x : ℕ) → IsBytes (to_bytes n x)
unfolding to_bytes
to_bytes-IsBytes zero x = tt
to_bytes-IsBytes (suc n) x = (omega arith, to_bytes-IsBytes n (x / 256))

-- A field behind `n` bytes, and the first field.
pub slice-skip {ℓ} :
    {A : Type ℓ} (xs ys : List A) (n offset count : ℕ)
    → length xs ≡ n
    → slice (n + offset) count (xs ++ ys) ≡ slice offset count ys
slice-skip [] ys n offset count h = let e : n + offset ≡ offset = omega arith in rw e
slice-skip (x ∷ xs) ys zero offset count h = absurd (omega arith)
slice-skip (x ∷ xs) ys (suc n) offset count h =
    let e : suc n + offset ≡ suc (n + offset) = omega arith in
    rw e (slice-skip xs ys n offset count (omega arith))

pub slice-head {ℓ} :
    {A : Type ℓ} (xs ys : List A) (n : ℕ) → length xs ≡ n → slice 0 n (xs ++ ys) ≡ xs
slice-head xs ys n h = subst (λ k. take k (xs ++ ys) ≡ xs) h (take-append xs ys)

-- The number in a field of `n` bytes, and in the fields behind it.
pub from_bytes-head :
    (n x : ℕ) (rest : List ℕ) → x < 256 ^ n → from_bytes (slice 0 n (to_bytes n x ++ rest)) ≡ x
from_bytes-head n x rest h =
    ap from_bytes (slice-head (to_bytes n x) rest n (length-to_bytes n x))
    ∙ from_bytes-to_bytes n x h

pub slice-to_bytes :
    (n x offset count : ℕ) (rest : List ℕ)
    → slice (n + offset) count (to_bytes n x ++ rest) ≡ slice offset count rest
slice-to_bytes n x offset count rest =
    slice-skip (to_bytes n x) rest n offset count (length-to_bytes n x)

pub from_bytes_one : (b : ℕ) → from_bytes (b ∷ []) ≡ b
unfolding from_bytes
from_bytes_one b = omega arith
