-- ===== src/Names/Assignment/Line.antt =====
-- One assignment with an empty line behind it: `parse_single_assignment` of src/secret.rs.
use secretsd.Base.{
  ℕ, ◌≡◌, false, if◌then◌else◌, [], ◌∷◌, none, some, Text, ◌==◌, ℕ_eq, any, split, split_once,
  strip_suffix, arith, Bytes_eq,
}
use secretsd.Proto.ErrCode.{ok, err, internal}
use secretsd.Names.SecretName.{SecretName}
use secretsd.Names.Assignment.{parse_single_assignment, assignment, is_skipped, scan_lines, finish}

pub parse_single_assignment-line :
    (plaintext line value : Text) (expected : SecretName) (c : ℕ) (cs : Text)
    → split 10 plaintext ≡ line ∷ [] ∷ []
    → line ≡ c ∷ cs
    → (c == 35) ≡ false
    → strip_suffix (13 ∷ []) line ≡ none
    → split_once 61 line ≡ some (expected.as_str, value)
    → parse_single_assignment plaintext expected
      ≡ (if any (λ byte. byte == 0) value then err internal else ok value)
unfolding parse_single_assignment scan_lines assignment finish is_skipped strip_suffix
parse_single_assignment-line plaintext line value expected c cs parts shape plain whole cut =
    ground arith
