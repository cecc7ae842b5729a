-- ===== src/Names/SecretName.antt =====
-- Secret key names and the file names made of them: `SecretName` of src/secret.rs.
use secretsd.Base.{
  ℕ, Bool, true, false, if◌then◌else◌, not, ◌&&◌, ◌||◌, [], ◌∷◌, ◌++◌, Text, bytes, ◌==◌, ℕ_eq,
  Bytes_eq, Eq, ltb, all, length, is_ascii_alphabetic, is_ascii_alphanumeric, ℕ_discrete,
}
use secretsd.Proto.ErrCode.{Result, ok, err, bad_request, ◌>>◌, reject_if}

pub record SecretName : Type 0 where
  pub as_str : Text

unfoldable pub SecretName-discrete : Discrete SecretName
SecretName-discrete = hlevel ℕ_discrete

instance abbrev pub SecretName_eq : Eq SecretName
SecretName_eq = record { dec = SecretName-discrete }

abbrev max_name_len : ℕ
max_name_len = 128

abbrev pub is_name_byte : ℕ → Bool
is_name_byte c = is_ascii_alphanumeric c || c == b'_'

unfoldable pub parse_first : Text → Result (Unit {0})
parse_first [] = err bad_request
parse_first (first ∷ characters) = do
  reject_if (not (is_ascii_alphabetic first) && not (first == b'_')) bad_request
  reject_if (not (all is_name_byte characters)) bad_request

unfoldable pub parse : Text → Result SecretName
unfolding parse_first
parse raw = do
  reject_if (raw == [] || ltb max_name_len (length raw)) bad_request
  parse_first raw
  ok (record { as_str = raw })

unfoldable pub file_name : SecretName → Text
file_name name = name.as_str ++ bytes ".env"

unfoldable pub local_file_name : SecretName → Text
local_file_name name = name.as_str ++ bytes ".local.env"

-- The order of names is that of their bytes.
unfoldable pub precedes : Text → Text → Bool
precedes [] [] = false
precedes [] (d ∷ ds) = true
precedes (c ∷ cs) [] = false
precedes (c ∷ cs) (d ∷ ds) = let rest = precedes cs ds in if c == d then rest else ltb c d
