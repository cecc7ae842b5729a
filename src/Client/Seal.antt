-- ===== src/Client/Seal.antt =====
-- New sealed files: src/client/edit/new.rs. What sops, the editor and the file system answer are
-- parameters; the scrubbing of the scratch file is left out.
pub mod Piped
use secretsd.Base.{
  ◌*◌, ℕ, Bool, true, false, not, ◌&&◌, ◌||◌, [], ◌∷◌, ◌++◌, Option, none, some, Text, bytes, ◌==◌,
  ℕ_eq, Bytes_eq, if◌then◌else◌, any, ltb, length, strip_suffix, or_else,
}
use secretsd.Proto.ErrCode.{Result}
use secretsd.Names.SecretName.{SecretName}
use secretsd.Names.Assignment.{parse_single_assignment}
use secretsd.Config.Sources.{environment_path}
use secretsd.Hardening.{HardeningError}
use secretsd.Client.Error.{
  edit_temp, editor_start, editor_exited, install_edited_secret, piped_human_read,
  invalid_edited_human_secret, empty_edited_human_secret, empty_piped_human_secret,
  invalid_piped_human_secret, encrypt_edited_secret, sops_ciphertext_too_large, hardening, Outcome,
  ok, err, ◌>>=◌,
}

abbrev pub max_sops_ciphertext_bytes : ℕ
max_sops_ciphertext_bytes = 1024 * 1024

abbrev strip_cr : Text → Text
strip_cr line = elim (strip_suffix (b'\r' ∷ []) line) [ none ↦ line | some before ↦ before ]

-- The text without the line break at its end.
abbrev pub trimmed : Text → Text
trimmed input = elim (strip_suffix (b'\n' ∷ []) input) [
  | none ↦ input
  | some before ↦ strip_cr before
]

abbrev pub is_line_break : ℕ → Bool
is_line_break c = c == b'\n' || c == b'\r'

-- The line that assigns a value to a name.
abbrev pub line_of : SecretName → Text → Text
line_of name value = name.as_str ++ b'=' ∷ (value ++ b'\n' ∷ [])

unfoldable pub checked_line : SecretName → Text → Outcome Text
checked_line name line = elim (parse_single_assignment line name) [
  | Result.ok value ↦ ok line
  | Result.err error ↦ err (invalid_piped_human_secret name)
]

unfoldable pub piped_line : SecretName → Text → Outcome Text
unfolding checked_line
piped_line name value =
    if value == []
    then err (empty_piped_human_secret name)
    else if any is_line_break value
    then err (invalid_piped_human_secret name)
    else checked_line name (line_of name value)

-- What the standard input holds; none where it cannot be read.
unfoldable pub read_piped_assignment : SecretName → Option Text → Outcome Text
unfolding piped_line
read_piped_assignment name none = err piped_human_read
read_piped_assignment name (some input) = piped_line name (trimmed input)

-- A run of `sops encrypt`: whether it started, took the plaintext, had its errors and its output
-- read and exited with success, and what it wrote.
pub record SopsEncrypt : Type 0 where
  pub started : Bool
  pub took_input : Bool
  pub stderr_read : Bool
  pub succeeded : Bool
  pub stdout_read : Bool
  pub output : Text

pub data DrainFailure : Type 0 where
  read_failed too_large : DrainFailure

pub data Drained : Type 0 where
  drained : Text → Drained
  undrained : DrainFailure → Drained

-- One byte more than the limit is read at most, which tells whether there are more.
unfoldable pub drain_sops_stdout : Bool → Text → Drained
drain_sops_stdout false output = undrained read_failed
drain_sops_stdout true output =
    if ltb max_sops_ciphertext_bytes (length output) then undrained too_large else drained output

-- The target's directory and what the file system does there.
pub record Target : Type 0 where
  pub path : Text
  pub has_parent : Bool
  pub opens_and_locks : Bool
  pub makes_file : Bool
  pub writes : Bool
  pub exists : Bool
  pub renames : Bool

-- The ciphertext goes to a new file that takes the place of the target.
unfoldable pub install : Target → Text → Outcome Text
install target output =
    if target.makes_file && (target.writes && target.renames)
    then ok output
    else err install_edited_secret

unfoldable pub conclude_encrypt : Target → SopsEncrypt → Drained → Outcome Text
unfolding install
conclude_encrypt target child (undrained too_large) =
    err (sops_ciphertext_too_large max_sops_ciphertext_bytes)
conclude_encrypt target child (undrained read_failed) = err (encrypt_edited_secret target.path)
conclude_encrypt target child (drained output) =
    if child.took_input && (child.succeeded && child.stderr_read)
    then install target output
    else err (encrypt_edited_secret target.path)

-- What the target holds then.
unfoldable pub encrypt_bytes : (Text → SopsEncrypt) → Text → Target → Outcome Text
unfolding conclude_encrypt drain_sops_stdout
encrypt_bytes sops plaintext target =
    let child = sops plaintext in
    if not target.has_parent
    then err install_edited_secret
    else if child.started
    then conclude_encrypt target child (drain_sops_stdout child.stdout_read child.output)
    else err (encrypt_edited_secret target.path)

-- Core dumps are disabled first.
abbrev hardened : Option HardeningError → Outcome (Unit {0})
hardened none = ok tt
hardened (some error) = err (hardening error)

abbrev locked : Target → Outcome (Unit {0})
locked target =
    if target.has_parent && target.opens_and_locks then ok tt else err install_edited_secret

-- Whether the target was there, and what it holds then.
unfoldable pub write_piped_human :
    Option HardeningError
    → (Text → SopsEncrypt)
    → SecretName
    → Option Text
    → Target
    → Outcome (Bool × Text)
unfolding read_piped_assignment encrypt_bytes
write_piped_human no_core_dumps sops name input target = do
  done ← hardened no_core_dumps
  assignment ← read_piped_assignment name input
  lock ← locked target
  ciphertext ← encrypt_bytes sops assignment target
  ok (target.exists, ciphertext)

-- `VISUAL`, or `EDITOR`, or vi.
unfoldable pub editor : (Text → Option Text) → Text
unfolding environment_path
editor variable =
    elim (or_else (environment_path variable (bytes "VISUAL"))
      (environment_path variable (bytes "EDITOR"))) [ none ↦ bytes "vi" | some program ↦ program ]

-- How the editor exits; none where it does not start.
unfoldable pub run_editor : Option Bool → Outcome (Unit {0})
run_editor none = err editor_start
run_editor (some false) = err editor_exited
run_editor (some true) = ok tt

-- The scratch file after the editor, with its permission bits: none where it does not open.
pub record Scratch : Type 0 where
  pub is_file : Bool
  pub uid : ℕ
  pub permissions : ℕ
  pub takes_mode : Bool
  pub text : Option Text

unfoldable pub reopen_after_editor : ℕ → Option Scratch → Outcome Scratch
reopen_after_editor euid none = err edit_temp
reopen_after_editor euid (some scratch) =
    if scratch.is_file
      && (scratch.uid == euid)
      && (scratch.permissions == 384 || scratch.takes_mode)
    then ok scratch
    else err edit_temp

unfoldable pub validate_human : Option Text → SecretName → Outcome (Unit {0})
validate_human none name = err edit_temp
validate_human (some plaintext) name = elim (parse_single_assignment plaintext name) [
  | Result.err error ↦ err (invalid_edited_human_secret name)
  | Result.ok value ↦ if value == [] then err (empty_edited_human_secret name) else ok tt
]

-- A human file is checked; an agent file has no name.
abbrev validated : Option Text → Option SecretName → Outcome (Unit {0})
validated text none = ok tt
validated text (some name) = validate_human text name

-- sops reads the scratch file and writes a new file beside the target, which does not replace a
-- target that is there.
unfoldable pub encrypt : (Text → SopsEncrypt) → Option Text → Target → Outcome Text
encrypt sops scratch target =
    if not (target.has_parent && target.makes_file)
    then err install_edited_secret
    else elim scratch [
      | none ↦ err edit_temp
      | some plaintext ↦
          let child = sops plaintext in
          if not target.writes
          then err install_edited_secret
          else if child.started && (child.stderr_read && child.succeeded)
          then if target.exists || not target.renames
            then err install_edited_secret
            else ok child.output
          else err (encrypt_edited_secret target.path)
    ]

-- What the editor makes of a scratch file with the prefilled text; none where there is no such file.
unfoldable pub create :
    ℕ
    → (Text → Option (Option Bool × Option Scratch))
    → (Text → SopsEncrypt)
    → Text
    → Option SecretName
    → Target
    → Outcome Text
unfolding run_editor reopen_after_editor validate_human encrypt
create euid edit sops prefill name target = elim (edit prefill) [
  | none ↦ err edit_temp
  | some (exit, file) ↦ do
    done ← run_editor exit
    scratch ← reopen_after_editor euid file
    valid ← validated scratch.text name
    encrypt sops scratch.text target
]

abbrev pub agent_prefill : Bool → Text
agent_prefill local =
    if local then bytes "# local agent-tier secrets\n" else bytes "# shared agent-tier secrets\n"

abbrev pub human_prefill : SecretName → Text
human_prefill name = line_of name []
