-- ===== src/Wire/Frame/Bits.antt =====
-- The bit operations of the frames over bytes, by evaluation of every value.
use Prim.Native.Nat.{bit_and, bit_or, bit_xor}
use trade_plat.Common.{ℕ, zero, suc, ◌<◌, ◌≡◌, refl, Bool, true, ◌&&◌, ◌==◌, ==_iff, arith}

-- `test` passes at every byte value below a bound.
passes : (test : ℕ → Bool) → (bound : ℕ) → Bool
passes test zero = true
passes test (suc k) = passes test k && test k

passes-at : (test : ℕ → Bool) (bound b : ℕ) → b < bound → passes test bound ≡ true → test b ≡ true
unfolding passes
passes-at test zero b in_range all = ground arith
passes-at test (suc k) b in_range all =
    let lower : b < k → passes test k ≡ true → test b ≡ true = passes-at test k b in
    ground (arith, lower)

xor_table : passes (λ m. passes (λ b. bit_xor (bit_xor b m) m == b) 256) 256 ≡ true
unfolding passes
xor_table = refl

-- A byte that is masked twice is the byte.
pub bit_xor_twice : (b m : ℕ) → b < 256 → m < 256 → bit_xor (bit_xor b m) m ≡ b
bit_xor_twice b m hb hm = (==_iff _ b).0 (
    passes-at _ 256 b hb
      (passes-at (λ m. passes (λ b. bit_xor (bit_xor b m) m == b) 256) 256 m hm xor_table))

length_table : passes (λ n. bit_and (bit_or 0x80 n) 0x7F == n) 126 ≡ true
unfolding passes
length_table = refl

masked_table : passes (λ n. bit_and (bit_or 0x80 n) 0x80 == 0x80) 126 ≡ true
unfolding passes
masked_table = refl

-- A short length under the mask bit, and the mask bit over it.
pub bit_and-length : (n : ℕ) → n < 126 → bit_and (bit_or 0x80 n) 0x7F ≡ n
bit_and-length n h = (==_iff _ n).0 (passes-at _ 126 n h length_table)

pub bit_and-masked : (n : ℕ) → n < 126 → bit_and (bit_or 0x80 n) 0x80 ≡ 0x80
bit_and-masked n h = (==_iff _ 0x80).0 (passes-at _ 126 n h masked_table)
