-- ===== src/Names/Capability.antt =====
-- Capability names and their key namespace: src/capability.rs.
use secretsd.Base.{
  ℕ, Bool, not, ◌||◌, [], ◌∷◌, ◌++◌, map, Text, bytes, ◌==◌, ℕ_eq, Bytes_eq, Eq, ltb, all, length,
  is_ascii_lowercase, is_ascii_digit, to_ascii_uppercase, ℕ_discrete,
}
use secretsd.Proto.ErrCode.{Result, ok, bad_request, ◌>>◌, reject_if}

abbrev pub capability_key_prefix : Text
capability_key_prefix = bytes "CAP_"

abbrev max_capability_len : ℕ
max_capability_len = 32

pub record Capability : Type 0 where
  pub as_str : Text

unfoldable pub Capability-discrete : Discrete Capability
Capability-discrete = hlevel ℕ_discrete

instance abbrev pub Capability_eq : Eq Capability
Capability_eq = record { dec = Capability-discrete }

abbrev pub is_capability_byte : ℕ → Bool
is_capability_byte c = is_ascii_lowercase c || is_ascii_digit c || c == b'_'

unfoldable pub first_is_letter : Text → Bool
first_is_letter [] = Bool.false
first_is_letter (c ∷ cs) = is_ascii_lowercase c

unfoldable pub parse : Text → Result Capability
unfolding first_is_letter
parse raw = do
  reject_if (raw == [] || ltb max_capability_len (length raw)) bad_request
  reject_if (not (first_is_letter raw) || not (all is_capability_byte raw)) bad_request
  ok (record { as_str = raw })

unfoldable pub key_name : Capability → Text
key_name cap = capability_key_prefix ++ map to_ascii_uppercase cap.as_str
