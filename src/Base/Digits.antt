-- ===== src/Base/Digits.antt =====
-- What a number is printed as.
use Prim.Native.Nat.{ℕ, zero, suc, ◌+◌, ◌/◌, ◌*◌, ◌%◌, ◌<◌, ◌≤◌}
use mathlib.Core.Path.{◌≡◌, refl, ◌∙◌}
use mathlib.Core.Logic.{inl, inr}
use mathlib.Core.Bool.{true}
use mathlib.Core.Option.{some}
use mathlib.Core.List.{[], ◌∷◌}
use native.Mathlib.Omega.{arith}
use secretsd.Base.Lists.{all}
use secretsd.Base.Strings.{
  Text, is_ascii_digit, decimal, decimal_from, read_digits, digit_value, from_str_radix,
}
use secretsd.Base.Tests.{ltb, Bool-cases}

decimal_from-digits :
    (fuel n : ℕ) (rest : Text)
    → all is_ascii_digit rest ≡ true
    → all is_ascii_digit (decimal_from fuel n rest) ≡ true
unfolding decimal_from
decimal_from-digits zero n rest h = h
decimal_from-digits (suc fuel) n rest h =
    let digit : is_ascii_digit (48 + n % 10) ≡ true = ground arith in
    let more = decimal_from-digits fuel (n / 10) ((48 + n % 10) ∷ rest) (ground arith) in
    ground arith

-- A number is printed as digits only.
pub decimal-digits : (n : ℕ) → all is_ascii_digit (decimal n) ≡ true
unfolding decimal
decimal-digits n = decimal_from-digits (suc n) n [] refl

digit_value-digit : (d : ℕ) → d < 10 → digit_value 10 (b'0' + d) ≡ some d
unfolding digit_value
digit_value-digit d h = ground arith

read_digits-digit :
    (d value n limit : ℕ) (rest : Text)
    → d < 10
    → value * 10 + d ≡ n
    → n ≤ limit
    → read_digits 10 limit value ((b'0' + d) ∷ rest) ≡ read_digits 10 limit n rest
unfolding read_digits
read_digits-digit d value n limit rest h e bound =
    rw (read_digits, digit_value-digit d h, e) (ground arith)

-- Reading on from what was printed.
read_digits-decimal_from :
    (fuel n limit : ℕ) (rest : Text)
    → n < fuel
    → n ≤ limit
    → read_digits 10 limit 0 (decimal_from fuel n rest) ≡ read_digits 10 limit n rest
unfolding decimal_from
read_digits-decimal_from zero n limit rest h bound = absurd (omega arith)
read_digits-decimal_from (suc fuel) n limit rest h bound = elim (Bool-cases (ltb n 10)) [
  | inl small ↦
      rw small (read_digits-digit (n % 10) 0 n limit rest (omega arith) (ground arith) bound)
  | inr large ↦
      let more =
        read_digits-decimal_from fuel (n / 10) limit ((b'0' + n % 10) ∷ rest) (ground arith)
          (omega arith) in
      rw large
        (more ∙ read_digits-digit (n % 10) (n / 10) n limit rest (omega arith) (omega arith) bound)
]

decimal_from-nonempty :
    (fuel n : ℕ) (c : ℕ) (rest : Text)
    → (first : ℕ) × (tail : Text) × (decimal_from fuel n (c ∷ rest) ≡ first ∷ tail)
unfolding decimal_from
decimal_from-nonempty zero n c rest = (c, rest, refl)
decimal_from-nonempty (suc fuel) n c rest = elim (Bool-cases (ltb n 10)) [
  | inl small ↦ ((b'0' + n % 10), c ∷ rest, rw small)
  | inr large ↦
      let (first, tail, e) = decimal_from-nonempty fuel (n / 10) (b'0' + n % 10) (c ∷ rest) in
      (first, tail, rw large e)
]

pub decimal-nonempty : (n : ℕ) → (first : ℕ) × (tail : Text) × (decimal n ≡ first ∷ tail)
unfolding decimal decimal_from
decimal-nonempty n = elim (Bool-cases (ltb n 10)) [
  | inl small ↦ ((b'0' + n % 10), [], rw small)
  | inr large ↦
      let (first, tail, e) = decimal_from-nonempty n (n / 10) (b'0' + n % 10) [] in
      (first, tail, rw large e)
]

plain_number :
    (limit : ℕ) (text : Text) (first : ℕ) (tail : Text)
    → text ≡ first ∷ tail
    → all is_ascii_digit text ≡ true
    → from_str_radix 10 limit text ≡ read_digits 10 limit 0 text
unfolding from_str_radix
plain_number limit [] first tail e h = absurd (ground arith)
plain_number limit (c ∷ cs) first tail e h = ground arith

-- A number that fits is read back from what it is printed as.
pub from_str_radix-decimal :
    (limit n : ℕ) → n ≤ limit → from_str_radix 10 limit (decimal n) ≡ some n
unfolding decimal read_digits
from_str_radix-decimal limit n bound =
    let (first, tail, e) = decimal-nonempty n in
    plain_number limit (decimal n) first tail e (decimal-digits n)
    ∙ read_digits-decimal_from (suc n) n limit [] (omega arith) bound
