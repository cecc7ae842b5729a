-- ===== src/Names/HumanFile.antt =====
-- File names in a human-tier directory: `parse_human_file_name` of src/secret.rs.
use secretsd.Base.{Bool, true, false, none, some, Text, bytes, strip_suffix}
use secretsd.Proto.ErrCode.{ok, err}
use secretsd.Names.SecretName.{SecretName, parse}

pub data HumanFileName : Type 0 where
  ignored : HumanFileName
  key : SecretName → Bool → HumanFileName
  invalid : HumanFileName

abbrev raw_name : Text → Text × Bool
raw_name stem = elim (strip_suffix (bytes ".local") stem) [
  | none ↦ (stem, false)
  | some raw ↦ (raw, true)
]

abbrev classify : Text × Bool → HumanFileName
classify (raw, local) = elim (parse raw) [ err e ↦ invalid | ok name ↦ key name local ]

unfoldable pub parse_human_file_name : Text → HumanFileName
parse_human_file_name file_name = elim (strip_suffix (bytes ".env") file_name) [
  | none ↦ ignored
  | some stem ↦ classify (raw_name stem)
]
