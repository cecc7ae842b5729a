-- ===== src/Receipts/Hex.antt =====
-- Receipts in hexadecimal: `hex` and `parse_hex` of src/receipts.rs.
use secretsd.Base.{
  ℕ, zero, suc, ◌*◌, ◌/◌, ◌%◌, ◌<◌, ◌≡◌, refl, Bool, true, false, ◌&&◌, List, [], ◌∷◌, Option, none,
  some, ◌==◌, ℕ_eq, all, length, arith, All, from_str_radix, u8_max, is_ascii_hexdigit, ℕ_discrete,
}
use secretsd.Receipts.{hex, hex_digit, parse_pairs, parse_hex, receipt_len}

all_passed : ℕ → (ℕ → Bool) → Bool
all_passed zero test = true
all_passed (suc bound) test = all_passed bound test && test bound

passes-all_passed :
    (bound : ℕ) (test : ℕ → Bool) (b : ℕ) → all_passed bound test ≡ true → b < bound → test b ≡ true
unfolding all_passed
passes-all_passed zero test b passed below = absurd (omega arith)
passes-all_passed (suc bound) test b passed below = ground (arith, passes-all_passed bound test b)

abbrev reads_as : ℕ → Option ℕ → Bool
reads_as n none = false
reads_as n (some m) = m == n

-- A byte as it is printed: two hexadecimal digits that read back as the byte.
prints_well : ℕ → Bool
prints_well byte =
    is_ascii_hexdigit (hex_digit (byte / 16))
    && (is_ascii_hexdigit (hex_digit (byte % 16))
        && reads_as byte
            (from_str_radix 16 u8_max (hex_digit (byte / 16) ∷ hex_digit (byte % 16) ∷ [])))

byte_table : all_passed 256 prints_well ≡ true
unfolding all_passed prints_well hex_digit from_str_radix ℕ_discrete
byte_table = refl

abbrev pub IsByte : ℕ → Type 0
IsByte b = b < 256

of_reads_as : (n : ℕ) (o : Option ℕ) → reads_as n o ≡ true → o ≡ some n
of_reads_as n none h = cc
of_reads_as n (some m) h = ground arith

byte_lem :
    (byte : ℕ)
    → byte < 256
    → (is_ascii_hexdigit (hex_digit (byte / 16)) ≡ true)
      × (is_ascii_hexdigit (hex_digit (byte % 16)) ≡ true)
      × (from_str_radix 16 u8_max (hex_digit (byte / 16) ∷ hex_digit (byte % 16) ∷ []) ≡ some byte)
unfolding prints_well
byte_lem byte h =
    let well = passes-all_passed 256 prints_well byte byte_table h in
    (ground (arith, well), ground (arith, well), of_reads_as byte _ (ground (arith, well)))

hex_lem :
    (id : List ℕ)
    → All IsByte id
    → (length (hex id) ≡ 2 * length id)
      × (all is_ascii_hexdigit (hex id) ≡ true)
      × (parse_pairs (hex id) ≡ some id)
unfolding hex parse_pairs
hex_lem [] h = (refl, refl, refl)
hex_lem (byte ∷ rest) h = ground (arith, hex_lem rest h.1, byte_lem byte h.0)

-- A receipt of 32 bytes reads back from its hexadecimal form.
pub parse_hex-hex :
    (id : List ℕ) → length id ≡ receipt_len → All IsByte id → parse_hex (hex id) ≡ some id
unfolding parse_hex
parse_hex-hex id len h =
    let (l, a, p) = hex_lem id h in
    let size : (length (hex id) == receipt_len * 2) ≡ true = ground (arith, l, len) in
    rw size (rw a p)
