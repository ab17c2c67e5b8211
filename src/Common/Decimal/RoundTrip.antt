-- ===== src/Common/Decimal/RoundTrip.antt =====
-- A number that is printed with commas is read back once the commas are gone.
use trade_plat.Common.{
  ℕ, zero, suc, ◌+◌, ◌-◌, ◌*◌, ◌/◌, ◌%◌, ◌≤◌, ◌<◌, ◌≡◌, ◌∙◌, refl, ap, inl, inr, [], ◌∷◌, ◌++◌,
  some, true, false, ◌&&◌, ◌==◌, ltb, leb, length, length-append, arith, Bool-cases, All,
  All-append,
}
use trade_plat.Common.Text.{
  Name, codes, starts_with, without_from, without, is_space, strip_left, strip_right, strip,
}
use trade_plat.Common.Decimal.{digits_from, digits, grouped, is_digit, read_from, read_number}

-- A character of a numeral.
abbrev pub IsDigit : ℕ → Type 0
IsDigit c = (48 ≤ c) × (c ≤ 57)

digits_from-IsDigit : (fuel n : ℕ) → All IsDigit (digits_from fuel n)
unfolding digits_from
digits_from-IsDigit zero n = omega arith
digits_from-IsDigit (suc fuel) n = elim (Bool-cases (ltb n 10)) [
  | inl h ↦ let small : n < 10 = ground arith in rw (h, digits_from) (omega arith)
  | inr h ↦
      rw (h, digits_from)
        (All-append IsDigit (digits_from fuel (n / 10)) ((48 + n % 10) ∷ [])
          (digits_from-IsDigit fuel (n / 10)) (omega arith))
]

pub digits-IsDigit : (n : ℕ) → All IsDigit (digits n)
unfolding digits
digits-IsDigit n = digits_from-IsDigit n n

-- The number that a text of digits goes on to from `n`.
value : ℕ → Name → ℕ
value n [] = n
value n (c ∷ cs) = value (n * 10 + (c - 48)) cs

value-append : (n : ℕ) (xs ys : Name) → value n (xs ++ ys) ≡ value (value n xs) ys
unfolding value
value-append n [] ys = refl
value-append n (x ∷ xs) ys = value-append (n * 10 + (x - 48)) xs ys

value-digits_from : (fuel n : ℕ) → n ≤ fuel → value 0 (digits_from fuel n) ≡ n
unfolding digits_from value
value-digits_from zero n h = omega (arith, h)
value-digits_from (suc fuel) n h = elim (Bool-cases (ltb n 10)) [
  | inl e ↦ rw (e, digits_from) (omega arith)
  | inr e ↦
      let large : 10 ≤ n = ground arith in
      let less : n / 10 ≤ fuel = omega (arith, h) in
      rw
        (
          e,
          digits_from,
          value-append 0 (digits_from fuel (n / 10)) ((48 + n % 10) ∷ []),
          value-digits_from fuel (n / 10) less,
        )
        (omega arith)
]

read_from-value : (n : ℕ) (xs : Name) → All IsDigit xs → read_from n xs ≡ some (value n xs)
unfolding read_from value is_digit
read_from-value n [] h = refl
read_from-value n (x ∷ xs) (d, ds) =
    let test : (leb 48 x && leb x 57) ≡ true = ground (arith, d.0, d.1) in
    rw (test, read_from) (read_from-value (n * 10 + (x - 48)) xs ds)

digits_from-nonempty : (fuel n : ℕ) → 1 ≤ length (digits_from fuel n)
unfolding digits_from
digits_from-nonempty zero n = omega arith
digits_from-nonempty (suc fuel) n = elim (Bool-cases (ltb n 10)) [
  | inl h ↦ rw (h, digits_from) (omega arith)
  | inr h ↦
      rw (h, digits_from)
        (omega (arith, length-append (digits_from fuel (n / 10)) ((48 + n % 10) ∷ [])))
]

read_number-nonempty :
    (xs : Name) → 1 ≤ length xs → All IsDigit xs → read_number xs ≡ some (value 0 xs)
unfolding read_number
read_number-nonempty [] h d = absurd (omega arith)
read_number-nonempty (x ∷ xs) h d = read_from-value 0 (x ∷ xs) d

-- `int` reads the digits of a number back.
pub read_number-digits : (n : ℕ) → read_number (digits n) ≡ some n
unfolding digits
read_number-digits n =
    read_number-nonempty (digits_from n n) (digits_from-nonempty n n) (digits_from-IsDigit n n)
    ∙ ap some (value-digits_from n n (omega arith))

-- Behind a text of digits, `replace` goes on unless what it looks for starts with a digit.
pub without_digits :
    (c : ℕ) (part xs tail : Name)
    → c < 48
    → All IsDigit xs
    → without (c ∷ part) (xs ++ tail) ≡ xs ++ without (c ∷ part) tail
unfolding without without_from starts_with
without_digits c part [] tail h d = refl
without_digits c part (x ∷ xs) tail h (d, ds) =
    let test : (c == x) ≡ false = ground (arith, d.0) in
    rw (test, without_from) (ap (λ ys. x ∷ ys) (without_digits c part xs tail h ds))

-- `replace(",", "")` undoes the commas of a numeral.
pub without_commas :
    (xs tail : Name)
    → All IsDigit xs
    → without (codes ",") (grouped xs ++ tail) ≡ xs ++ without (codes ",") tail
unfolding without without_from grouped starts_with
without_commas [] tail h = refl
without_commas (x ∷ []) tail (d, ds) =
    let test : (b',' == x) ≡ false = ground (arith, d.0) in rw (test, without_from) refl
without_commas (x ∷ y ∷ ys) tail (d, ds) =
    let test : (b',' == x) ≡ false = ground (arith, d.0) in
    elim (Bool-cases (length (y ∷ ys) % 3 == 0)) [
      | inl e ↦ rw (e, test, without_from) (ap (λ zs. x ∷ zs) (without_commas (y ∷ ys) tail ds))
      | inr e ↦ rw (e, test, without_from) (ap (λ zs. x ∷ zs) (without_commas (y ∷ ys) tail ds))
    ]

digit-is_space : (c : ℕ) → IsDigit c → is_space c ≡ false
unfolding is_space
digit-is_space c d = ground (arith, d.0, d.1)

strip_right_digits :
    (xs tail : Name) → All IsDigit xs → strip_right tail ≡ [] → strip_right (xs ++ tail) ≡ xs
unfolding strip_right
strip_right_digits [] tail d h = h
strip_right_digits (x ∷ []) tail (d, ds) h = rw (h, digit-is_space x d, strip_right) refl
strip_right_digits (x ∷ y ∷ ys) tail (d, ds) h =
    rw (strip_right_digits (y ∷ ys) tail ds h, strip_right) refl

strip_left_digits :
    (xs tail : Name) → 1 ≤ length xs → All IsDigit xs → strip_left (xs ++ tail) ≡ xs ++ tail
unfolding strip_left
strip_left_digits [] tail h d = absurd (omega arith)
strip_left_digits (x ∷ xs) tail h (d, ds) = rw (digit-is_space x d, strip_left) refl

-- `strip` leaves the digits of a number that stands between white space.
pub strip-digits :
    (n : ℕ) (tail : Name) → strip_right tail ≡ [] → strip (32 ∷ digits n ++ tail) ≡ digits n
unfolding strip strip_left is_space digits
strip-digits n tail h =
    let some_digit = digits_from-nonempty n n in
    let all_digits = digits_from-IsDigit n n in
    rw (strip_left_digits (digits_from n n) tail some_digit all_digits)
      (strip_right_digits (digits_from n n) tail all_digits h)
