-- ===== src/Names/Laws.antt =====
-- What the parsers of src/secret.rs and src/capability.rs accept, and how the names fit together.
use secretsd.Base.{
  suc, ◌≤◌, ◌≡◌, refl, ap, Bool, true, false, ◌||◌, List, [], ◌∷◌, map, Text, ◌==◌, ℕ_eq, Bytes_eq,
  Bytes-discrete, all, length, starts_with, is_ascii_alphabetic, to_ascii_uppercase, arith,
  ℕ_discrete,
}
use secretsd.Proto.ErrCode.{ok}
use secretsd.Names.SecretName.{SecretName, is_name_byte, parse_first}
use secretsd.Names.Capability.{
  Capability, capability_key_prefix, is_capability_byte, key_name, first_is_letter,
}

-- The first byte of a secret name.
abbrev pub starts_name : Text → Bool
starts_name [] = false
starts_name (c ∷ cs) = is_ascii_alphabetic c || c == b'_'

-- A name that `SecretName::parse` accepts is the text itself, of 1 to 128 bytes, which are ASCII
-- letters, digits and underscores and begin with no digit.
pub SecretName-parse_ok :
    (raw : Text) (name : SecretName)
    → secretsd.Names.SecretName.parse raw ≡ ok name
    → (name.as_str ≡ raw)
      × (1 ≤ length raw)
      × (length raw ≤ 128)
      × (starts_name raw ≡ true)
      × (all is_name_byte raw ≡ true)
unfolding secretsd.Names.SecretName.parse parse_first
SecretName-parse_ok [] name h = absurd (ground arith)
SecretName-parse_ok (c ∷ cs) name h = ground arith

all-upper :
    (raw : Text)
    → all is_capability_byte raw ≡ true
    → all is_name_byte (map to_ascii_uppercase raw) ≡ true
all-upper [] h = refl
all-upper (c ∷ cs) h = ground (arith, all-upper cs)

length-map {ℓ κ} :
    {A : Type ℓ} {B : Type κ} (f : A → B) (xs : List A) → length (map f xs) ≡ length xs
length-map f [] = refl
length-map f (x ∷ xs) = ap suc (length-map f xs)

-- The key of a capability that `Capability::parse` accepts begins with the prefix `CAP_`, and
-- `SecretName::parse` accepts it.
pub key_name-parse :
    (raw : Text) (name : Capability)
    → secretsd.Names.Capability.parse raw ≡ ok name
    → (starts_with capability_key_prefix (key_name name) ≡ true)
      × (secretsd.Names.SecretName.parse (key_name name) ≡ ok (record { as_str = key_name name }))
unfolding secretsd.Names.Capability.parse first_is_letter key_name secretsd.Names.SecretName.parse
    parse_first Bytes-discrete ℕ_discrete starts_with
key_name-parse raw name h =
    let same : name.as_str ≡ raw = ground arith in
    let bytes_ok : all is_capability_byte raw ≡ true = ground arith in
    let short : length raw ≤ 32 = ground arith in
    let size = length-map to_ascii_uppercase name.as_str in
    let upper : all is_name_byte (map to_ascii_uppercase name.as_str) ≡ true =
      rw same (all-upper raw bytes_ok) in
    (refl, ground arith)
