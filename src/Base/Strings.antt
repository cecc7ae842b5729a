-- ===== src/Base/Strings.antt =====
-- Text as the bytes of a Rust `&str`, and the parts of `core::str` and `core::num` that the
-- program calls on it.
use Prim.Native.Char.{code}
use Prim.Native.Nat.{ℕ, zero, suc, ◌+◌, ◌-◌, ◌*◌, ◌/◌, ◌%◌}
use Prim.Native.String.{String}
use mathlib.Core.Bool.{Bool, true, false, ◌&&◌, ◌||◌}
use mathlib.Core.Option.{Option, none, some}
use mathlib.Core.List.{List, [], ◌∷◌}
use secretsd.Base.Tests.{leb, ltb, ◌==◌, if◌then◌else◌, ℕ_eq, Bytes_eq}

abbrev pub Text : Type 0
Text = List ℕ

-- The bytes of an ASCII literal.
abbrev pub bytes : String → Text
bytes String.[] = []
bytes (String.◌∷◌ c s) = code c ∷ bytes s

abbrev pub in_range : ℕ → ℕ → ℕ → Bool
in_range lo hi c = leb lo c && leb c hi

abbrev pub is_ascii_digit : ℕ → Bool
is_ascii_digit = in_range b'0' b'9'

abbrev pub is_ascii_lowercase : ℕ → Bool
is_ascii_lowercase = in_range b'a' b'z'

abbrev pub is_ascii_uppercase : ℕ → Bool
is_ascii_uppercase = in_range b'A' b'Z'

abbrev pub is_ascii_alphabetic : ℕ → Bool
is_ascii_alphabetic c = is_ascii_lowercase c || is_ascii_uppercase c

abbrev pub is_ascii_alphanumeric : ℕ → Bool
is_ascii_alphanumeric c = is_ascii_alphabetic c || is_ascii_digit c

abbrev pub is_ascii_hexdigit : ℕ → Bool
is_ascii_hexdigit c = is_ascii_digit c || (in_range b'a' b'f' c || in_range b'A' b'F' c)

abbrev pub to_ascii_uppercase : ℕ → ℕ
to_ascii_uppercase c = if is_ascii_lowercase c then c - 32 else c

-- `strip_prefix(prefix)`: the rest of the text behind `prefix`.
unfoldable pub strip_prefix : Text → Text → Option Text
strip_prefix [] text = some text
strip_prefix (p ∷ ps) [] = none
strip_prefix (p ∷ ps) (c ∷ cs) = if p == c then strip_prefix ps cs else none

abbrev pub is_some {ℓ} : {A : Type ℓ} → Option A → Bool
is_some none = false
is_some (some _) = true

unfoldable pub starts_with : Text → Text → Bool
unfolding strip_prefix
starts_with prefix text = is_some (strip_prefix prefix text)

-- `strip_suffix(suffix)`: the text before `suffix`, if it ends so.
unfoldable pub strip_suffix : Text → Text → Option Text
strip_suffix suffix [] = if suffix == [] then some [] else none
strip_suffix suffix (c ∷ cs) =
    let rest = strip_suffix suffix cs in
    if suffix == c ∷ cs
    then some []
    else elim rest [ none ↦ none | some before ↦ some (c ∷ before) ]

abbrev push_head : ℕ → List Text → List Text
push_head c [] = (c ∷ []) ∷ []
push_head c (part ∷ parts) = (c ∷ part) ∷ parts

-- `split(separator)`: one part more than there are separators.
unfoldable pub split : ℕ → Text → List Text
split separator [] = [] ∷ []
split separator (c ∷ cs) =
    let rest = split separator cs in if c == separator then [] ∷ rest else push_head c rest

-- `split_once(separator)`: the text before and after the first separator.
unfoldable pub split_once : ℕ → Text → Option (Text × Text)
split_once separator [] = none
split_once separator (c ∷ cs) =
    let rest = split_once separator cs in
    if c == separator
    then some ([], cs)
    else elim rest [ none ↦ none | some (before, after) ↦ some (c ∷ before, after) ]

-- The value of a digit in the given radix, which is at most 16.
unfoldable pub digit_value : ℕ → ℕ → Option ℕ
digit_value radix c =
    let value : Option ℕ =
      if is_ascii_digit c
      then some (c - b'0')
      else if in_range b'a' b'f' c
      then some (c - b'a' + 10)
      else if in_range b'A' b'F' c
      then some (c - b'A' + 10)
      else none in
    elim value [ none ↦ none | some v ↦ if ltb v radix then some v else none ]

-- The digits from the left, `none` past `limit` and at a byte that is no digit.
unfoldable pub read_digits : ℕ → ℕ → ℕ → Text → Option ℕ
unfolding digit_value
read_digits radix limit value [] = some value
read_digits radix limit value (c ∷ cs) = elim (digit_value radix c) [
  | none ↦ none
  | some d ↦
      let next = value * radix + d in
      if leb next limit then read_digits radix limit next cs else none
]

abbrev nonempty_digits : ℕ → ℕ → Text → Option ℕ
nonempty_digits radix limit [] = none
nonempty_digits radix limit (c ∷ cs) = read_digits radix limit 0 (c ∷ cs)

-- `from_str_radix` at an unsigned type with largest value `limit`: a leading `+` is accepted.
unfoldable pub from_str_radix : ℕ → ℕ → Text → Option ℕ
unfolding read_digits
from_str_radix radix limit [] = none
from_str_radix radix limit (c ∷ cs) =
    if c == b'+' then nonempty_digits radix limit cs else read_digits radix limit 0 (c ∷ cs)

abbrev pub u8_max : ℕ
u8_max = 255

abbrev pub u32_max : ℕ
u32_max = 4294967295

abbrev pub u64_max : ℕ
u64_max = 18446744073709551615

-- `saturating_add(1)` on a `u64`.
abbrev pub saturating_succ : ℕ → ℕ
saturating_succ n = if ltb n u64_max then n + 1 else u64_max

-- A signed integer; `negsuc n` is -(n + 1).
pub data ℤ : Type 0 where
  pos : ℕ → ℤ
  negsuc : ℕ → ℤ

abbrev negated : ℕ → ℤ
negated zero = pos 0
negated (suc n) = negsuc n

-- `parse::<i32>()`: a leading `+` or `-` is accepted.
unfoldable pub parse_i32 : Text → Option ℤ
unfolding read_digits
parse_i32 [] = none
parse_i32 (c ∷ cs) =
    if c == b'-'
    then elim (nonempty_digits 10 2147483648 cs) [ none ↦ none | some n ↦ some (negated n) ]
    else elim (from_str_radix 10 2147483647 (c ∷ cs)) [ none ↦ none | some n ↦ some (pos n) ]

-- The decimal digits of a number, as `{}` prints it; fuel `n` is more than it has digits.
unfoldable pub decimal_from : ℕ → ℕ → Text → Text
decimal_from zero n rest = rest
decimal_from (suc fuel) n rest =
    let digit = b'0' + n % 10 in
    let more = decimal_from fuel (n / 10) (digit ∷ rest) in if ltb n 10 then digit ∷ rest else more

unfoldable pub decimal : ℕ → Text
unfolding decimal_from
decimal n = decimal_from (suc n) n []
