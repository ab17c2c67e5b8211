-- ===== src/Wire/Frame/RoundTrip.antt =====
-- The gateway reads back what a bot frames.
use Prim.Native.Nat.{bit_or}
use mathlib.Core.List.{append_assoc}
use native.Mathlib.Nat.{pow-suc}
use trade_plat.Common.{
  ℕ, zero, suc, ◌+◌, ◌*◌, ◌/◌, ◌%◌, ◌^◌, ◌≤◌, ◌<◌, ◌≡◌, ◌∙◌, refl, ap, List, [], ◌∷◌, ◌++◌, true,
  arith, take, drop, length, length-append, take-append, drop-append, Bool-cases, ltb, leb, inl,
  inr, subst,
}
use trade_plat.Wire.Bytes.{IsBytes}
use trade_plat.Wire.Frame.{
  Mask, mask_bytes, turn, apply_mask, to_big, shift_in, from_big, length_field,
  websocket_binary_frame, binary, max_payload, parse_body, parse_masked, parse_frame,
}
use trade_plat.Wire.Frame.Bits.{bit_xor_twice, bit_and-length, bit_and-masked}

-- Every byte of the mask is a byte.
abbrev pub IsMask : Mask → Type 0
IsMask m = (m.m0 < 256) × (m.m1 < 256) × (m.m2 < 256) × (m.m3 < 256)

pub apply_mask_twice :
    (bs : List ℕ) (m : Mask) → IsMask m → IsBytes bs → apply_mask m (apply_mask m bs) ≡ bs
unfolding apply_mask
apply_mask_twice [] m k h = refl
apply_mask_twice (b ∷ bs) m k h =
    cc (bit_xor_twice b m.m0 h.0 k.0, apply_mask_twice bs (turn m) (k.1, k.2, k.3, k.0) h.1)

length-apply_mask : (bs : List ℕ) (m : Mask) → length (apply_mask m bs) ≡ length bs
unfolding apply_mask
length-apply_mask [] m = refl
length-apply_mask (b ∷ bs) m = ap suc (length-apply_mask bs (turn m))

shift_in-append :
    (acc : ℕ) (bs : List ℕ) (b : ℕ) → shift_in acc (bs ++ b ∷ []) ≡ shift_in acc bs * 256 + b
unfolding shift_in
shift_in-append acc [] b = refl
shift_in-append acc (x ∷ bs) b = shift_in-append (acc * 256 + x) bs b

from_big-to_big : (n x : ℕ) → x < 256 ^ n → from_big (to_big n x) ≡ x
unfolding to_big shift_in
from_big-to_big zero x h = omega arith
from_big-to_big (suc n) x h = omega (
  arith,
  shift_in-append 0 (to_big n (x / 256)) (x % 256),
  from_big-to_big n (x / 256) (omega (arith, pow-suc 256 n)),
)

length-to_big : (n x : ℕ) → length (to_big n x) ≡ n
unfolding to_big
length-to_big zero x = refl
length-to_big (suc n) x =
    omega (arith, length-append (to_big n (x / 256)) ((x % 256) ∷ []), length-to_big n (x / 256))

take_exact {ℓ} : {A : Type ℓ} (n : ℕ) (xs ys : List A) → length xs ≡ n → take n (xs ++ ys) ≡ xs
take_exact n xs ys h = subst (λ k. take k (xs ++ ys) ≡ xs) h (take-append xs ys)

drop_exact {ℓ} : {A : Type ℓ} (n : ℕ) (xs ys : List A) → length xs ≡ n → drop n (xs ++ ys) ≡ ys
drop_exact n xs ys h = subst (λ k. drop k (xs ++ ys) ≡ ys) h (drop-append xs ys)

parse_masked-frame :
    (m : Mask) (payload rest : List ℕ)
    → IsMask m
    → IsBytes payload
    → length payload ≤ max_payload
    → parse_masked 2 true (length payload) (mask_bytes m ++ (apply_mask m payload ++ rest))
      ≡ binary payload rest
unfolding parse_masked parse_body
parse_masked-frame m payload rest k h fits =
    let same = length-apply_mask payload m in
    ground (
      arith,
      take_exact (length payload) (apply_mask m payload) rest same,
      drop_exact (length payload) (apply_mask m payload) rest same,
      length-append (apply_mask m payload) rest,
      same,
      apply_mask_twice payload m k h,
    )

parse_frame-short :
    (n : ℕ) (more : List ℕ)
    → n < 126
    → parse_frame (0x82 ∷ bit_or 0x80 n ∷ more) ≡ parse_masked 2 true n more
unfolding parse_frame
parse_frame-short n more h = ground (arith, bit_and-length n h, bit_and-masked n h)

parse_frame-medium :
    (n : ℕ) (more : List ℕ)
    → n ≤ 0xFFFF
    → parse_frame (0x82 ∷ bit_or 0x80 126 ∷ (to_big 2 n ++ more)) ≡ parse_masked 2 true n more
unfolding parse_frame
parse_frame-medium n more h = ground (
  arith,
  length-append (to_big 2 n) more,
  length-to_big 2 n,
  take_exact 2 (to_big 2 n) more (length-to_big 2 n),
  drop_exact 2 (to_big 2 n) more (length-to_big 2 n),
  from_big-to_big 2 n,
)

parse_frame-long :
    (n : ℕ) (more : List ℕ)
    → n < 256 ^ 8
    → parse_frame (0x82 ∷ bit_or 0x80 127 ∷ (to_big 8 n ++ more)) ≡ parse_masked 2 true n more
unfolding parse_frame
parse_frame-long n more h = ground (
  arith,
  length-append (to_big 8 n) more,
  length-to_big 8 n,
  take_exact 8 (to_big 8 n) more (length-to_big 8 n),
  drop_exact 8 (to_big 8 n) more (length-to_big 8 n),
  from_big-to_big 8 n,
)

parse_frame-length_field :
    (n : ℕ) (more : List ℕ)
    → n ≤ max_payload
    → parse_frame (0x82 ∷ (length_field n ++ more)) ≡ parse_masked 2 true n more
unfolding length_field
parse_frame-length_field n more h = elim (Bool-cases (ltb n 126)) [
  | inl short ↦ rw (short, length_field) (parse_frame-short n more (ground arith))
  | inr not_short ↦ elim (Bool-cases (leb n 0xFFFF)) [
    | inl medium ↦ rw (not_short, medium, length_field) (parse_frame-medium n more (ground arith))
    | inr long ↦ rw (not_short, long, length_field) (parse_frame-long n more (omega arith))
  ]
]

-- The gateway reads a masked binary frame of at most 2^20 bytes back as its payload, whatever
-- follows it: every length form, and every byte under the mask.
pub parse_frame-websocket_binary_frame :
    (m : Mask) (payload rest : List ℕ)
    → IsMask m
    → IsBytes payload
    → length payload ≤ max_payload
    → parse_frame (websocket_binary_frame m payload ++ rest) ≡ binary payload rest
unfolding websocket_binary_frame
parse_frame-websocket_binary_frame m payload rest k h fits =
    rw (append_assoc (length_field (length payload)) (mask_bytes m ++ apply_mask m payload) rest) (
      parse_frame-length_field (length payload) _ fits ∙ parse_masked-frame m payload rest k h fits)
