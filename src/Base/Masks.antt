-- ===== src/Base/Masks.antt =====
-- Selection by bit masks on a 64-bit `usize`: all ones keeps a word and all zeros clears it.
use Prim.Native.Nat.{
  ℕ, zero, suc, ◌-◌, ◌/◌, ◌%◌, ◌^◌, ◌≤◌, ◌<◌, min, max, bit_and, bit_or, digits, bit_and-bitwise,
  bit_or-bitwise,
}
use mathlib.Core.Path.{◌≡◌, refl, ◌∙◌}
use mathlib.Core.Bool.{Bool, true, false}
use native.Mathlib.Nat.{pow-suc}
use native.Mathlib.Omega.{arith}
use secretsd.Base.Tests.{if◌then◌else◌}
use secretsd.Base.Strings.{u64_max}

pow-pos : (k : ℕ) → 1 ≤ 2 ^ k
pow-pos zero = omega arith
pow-pos (suc k) = omega (arith, pow-suc 2 k, pow-pos k)

-- The lower digits of 2^(k+1) - 1 are those of 2^k - 1, and its last digit is 1.
ones-half : (k : ℕ) → ((2 ^ suc k - 1) / 2 ≡ 2 ^ k - 1) × ((2 ^ suc k - 1) % 2 ≡ 1)
ones-half k = rw (pow-suc 2 k) (omega (arith, pow-pos k))

and_ones : (fuel k a : ℕ) → a ≤ fuel → a < 2 ^ k → digits (λ _. 0) min fuel a (2 ^ k - 1) ≡ a
and_ones zero k a le lt = omega arith
and_ones (suc fuel) k zero le lt = refl
and_ones (suc fuel) zero (suc a) le lt = absurd (omega arith)
and_ones (suc fuel) (suc k) (suc a) le lt =
    rw ((ones-half k).0, (ones-half k).1)
      (omega (arith, and_ones fuel k (suc a / 2) (omega arith) (omega (arith, pow-suc 2 k))))

and_zeros : (fuel a : ℕ) → digits (λ _. 0) min fuel a 0 ≡ 0
and_zeros zero a = refl
and_zeros (suc fuel) zero = refl
and_zeros (suc fuel) (suc a) = omega (arith, and_zeros fuel (suc a / 2))

or_zeros : (fuel a : ℕ) → a ≤ fuel → digits (λ b. b) max fuel a 0 ≡ a
or_zeros zero a le = omega arith
or_zeros (suc fuel) zero le = refl
or_zeros (suc fuel) (suc a) le = omega (arith, or_zeros fuel (suc a / 2) (omega arith))

-- `0_usize.wrapping_sub(usize::from(bit))`
abbrev pub mask_of : Bool → ℕ
mask_of bit = (2 ^ 64 - (if bit then 1 else 0)) % 2 ^ 64

-- `(position & !mask) | (index & mask)`
unfoldable pub select : ℕ → ℕ → ℕ → ℕ
select mask position index = bit_or (bit_and position (u64_max - mask)) (bit_and index mask)

-- The mask of a bit selects one of two words.
pub select-mask_of :
    (bit : Bool) (position index : ℕ)
    → position ≤ u64_max
    → index ≤ u64_max
    → select (mask_of bit) position index ≡ (if bit then index else position)
unfolding select
select-mask_of true position index p i =
    rw (bit_and-bitwise position 0, bit_and-bitwise index (2 ^ 64 - 1))
      (rw (and_zeros position position, and_ones index 64 index (omega arith) (omega arith))
        (bit_or-bitwise 0 index))
select-mask_of false position index p i = rw (bit_and-bitwise index 0) (
    rw (and_zeros index index) (
      bit_or-bitwise (bit_and position u64_max) 0
      ∙ (or_zeros (bit_and position u64_max) (bit_and position u64_max) (omega arith)
          ∙ (bit_and-bitwise position u64_max
              ∙ and_ones position 64 position (omega arith) (omega arith)))))
