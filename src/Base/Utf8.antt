-- ===== src/Base/Utf8.antt =====
-- UTF-8 as `std::str::from_utf8` accepts it.
use Prim.Native.Nat.{ℕ}
use mathlib.Core.Path.{◌≡◌, refl}
use native.Mathlib.Omega.{arith}
use mathlib.Core.Bool.{Bool, true, false}
use mathlib.Core.Option.{Option, none, some}
use mathlib.Core.List.{[], ◌∷◌}
use secretsd.Base.Tests.{leb, ◌==◌, if◌then◌else◌, ℕ_eq}
use secretsd.Base.Lists.{all}
use secretsd.Base.Strings.{Text, in_range}

-- The state of a UTF-8 decoder: how many continuation bytes are due, with the narrower range
-- that the lead bytes E0, ED, F0 and F4 leave to the next one.
pub data Due : Type 0 where
  lead one two three after_e0 after_ed after_f0 after_f4 : Due

lead_byte : ℕ → Option Due
lead_byte b =
    if leb b 127
    then some lead
    else if in_range 194 223 b
    then some one
    else if b == 224
    then some after_e0
    else if b == 237
    then some after_ed
    else if in_range 225 239 b
    then some two
    else if b == 240
    then some after_f0
    else if in_range 241 243 b
    then some three
    else if b == 244
    then some after_f4
    else none

abbrev within : ℕ → ℕ → ℕ → Due → Option Due
within lo hi b next = if in_range lo hi b then some next else none

utf8_step : Due → ℕ → Option Due
unfolding lead_byte
utf8_step lead b = lead_byte b
utf8_step one b = within 128 191 b lead
utf8_step two b = within 128 191 b one
utf8_step three b = within 128 191 b two
utf8_step after_e0 b = within 160 191 b one
utf8_step after_ed b = within 128 159 b one
utf8_step after_f0 b = within 144 191 b two
utf8_step after_f4 b = within 128 143 b two

is_utf8_from : Due → Text → Bool
unfolding utf8_step
is_utf8_from lead [] = true
is_utf8_from due [] = false
is_utf8_from due (b ∷ bs) = elim (utf8_step due b) [
  | none ↦ false
  | some next ↦ is_utf8_from next bs
]

-- Whether `std::str::from_utf8` accepts the bytes.
unfoldable pub is_utf8 : Text → Bool
unfolding is_utf8_from
is_utf8 = is_utf8_from lead

abbrev ascii : ℕ → Bool
ascii b = leb b 127

is_utf8_from-ascii : (text : Text) → all ascii text ≡ true → is_utf8_from lead text ≡ true
unfolding is_utf8_from utf8_step lead_byte
is_utf8_from-ascii [] h = refl
is_utf8_from-ascii (b ∷ bs) h = ground (arith, is_utf8_from-ascii bs)

-- ASCII bytes are UTF-8.
pub is_utf8-ascii : (text : Text) → all ascii text ≡ true → is_utf8 text ≡ true
unfolding is_utf8
is_utf8-ascii = is_utf8_from-ascii
