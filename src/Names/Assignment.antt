-- ===== src/Names/Assignment.antt =====
-- The decrypted plaintext of one key: `parse_single_assignment` of src/secret.rs.
pub mod Line
use secretsd.Base.{
  ℕ, Bool, true, false, not, ◌||◌, List, [], ◌∷◌, Option, none, some, Text, ◌==◌, ℕ_eq, Bytes_eq,
  if◌then◌else◌, any, is_some, split, split_once, strip_suffix,
}
use secretsd.Proto.ErrCode.{Result, ok, err, internal, ok_or}
use secretsd.Names.SecretName.{SecretName}

-- `line.strip_suffix(b"\r").unwrap_or(line)`
abbrev strip_cr : Text → Text
strip_cr line = elim (strip_suffix (b'\r' ∷ []) line) [ none ↦ line | some before ↦ before ]

is_skipped : Text → Bool
is_skipped [] = true
is_skipped (c ∷ cs) = c == b'#'

-- A line with the name before its first `=` and the value behind it.
assignment : SecretName → Option Text → Option (Text × Text) → Result (Option Text)
assignment expected found none = err internal
assignment expected found (some (name, value)) =
    if not (name == expected.as_str) || (is_some found || any (λ byte. byte == 0) value)
    then err internal
    else ok (some value)

pub scan_lines : SecretName → Option Text → List Text → Result (Option Text)
unfolding is_skipped assignment
scan_lines expected found [] = ok found
scan_lines expected found (line ∷ lines) = elim (is_skipped (strip_cr line)) [
  | true ↦ scan_lines expected found lines
  | false ↦ elim (assignment expected found (split_once b'=' (strip_cr line))) [
    | err e ↦ err e
    | ok found' ↦ scan_lines expected found' lines
  ]
]

finish : Result (Option Text) → Result (List ℕ)
finish (err e) = err e
finish (ok found) = ok_or found internal

unfoldable pub parse_single_assignment : List ℕ → SecretName → Result (List ℕ)
unfolding scan_lines finish
parse_single_assignment plaintext expected =
    finish (scan_lines expected none (split b'\n' plaintext))
