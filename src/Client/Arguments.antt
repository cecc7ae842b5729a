-- ===== src/Client/Arguments.antt =====
-- The arguments of the client's commands: `get_arguments` of src/client/status.rs, `inject` of
-- src/client/cli.rs and the parser and path selection of src/client/edit.rs. An argument is its bytes.
use secretsd.Base.{
  Bool, true, false, not, ◌&&◌, ◌||◌, List, [], ◌∷◌, ◌++◌, Option, none, some, Text, bytes, ◌==◌,
  Bytes_eq, if◌then◌else◌, find, is_some, starts_with, strip_suffix, is_utf8,
}
use secretsd.Names.SecretName.{SecretName, file_name, local_file_name}
use secretsd.Config.Paths.{join}
use secretsd.Config.Sources.{SourceRoot, human_dir}
use secretsd.Client.Tiers.{HumanLocation, HumanNames, location}
use secretsd.Config.Sources.{no_roots}
use secretsd.Client.Error.{
  usage, config, edit_source_required, unknown_edit_source, edit_conflict, human_directory,
  invalid_secret_name, Outcome, ok, err, ◌>>=◌,
}
use secretsd.Client.Dotenv.{parse_name}

pub data GetOutput : Type 0 where
  request status value : GetOutput

abbrev value_flag : Text
value_flag = bytes "--value"

abbrev no_request_flag : Text
no_request_flag = bytes "--no-request"

abbrev pub is_flag : Text → Bool
is_flag argument = argument == value_flag || argument == no_request_flag

abbrev pub mode : Text → GetOutput
mode flag = if flag == value_flag then value else status

abbrev flag_and_name : Text → Text → Outcome (Text × GetOutput)
flag_and_name flag name =
    if is_flag flag && not (is_flag name) then ok (name, mode flag) else err usage

-- The name and what to do; the flag may stand on either side.
unfoldable pub get_arguments : List Text → Outcome (Text × GetOutput)
get_arguments (command ∷ name ∷ []) = if is_flag name then err usage else ok (name, request)
get_arguments (command ∷ first ∷ second ∷ []) =
    if is_flag second && not (is_flag first)
    then ok (first, mode second)
    else flag_and_name first second
get_arguments _ = err usage

-- The names before `--`, and the command and its arguments behind it.
unfoldable pub split_command : List Text → Option (List Text × List Text)
split_command [] = none
split_command (argument ∷ arguments) =
    let rest = split_command arguments in
    if argument == bytes "--"
    then some ([], arguments)
    else elim rest [ none ↦ none | some (names, command) ↦ some (argument ∷ names, command) ]

unfoldable pub inject_arguments : List Text → Outcome (List Text × Text × List Text)
unfolding split_command
inject_arguments arguments = elim (split_command arguments) [
  | none ↦ err usage
  | some ([], command) ↦ err usage
  | some (name ∷ names, []) ↦ err usage
  | some (name ∷ names, command ∷ rest) ↦ ok (name ∷ names, command, rest)
]

pub record EditArguments : Type 0 where
  pub source : Option Text
  pub local : Bool

abbrev source_flag : Text
source_flag = bytes "--source"

abbrev local_flag : Text
local_flag = bytes "--local"

-- A value that is text and looks like a flag.
abbrev is_flag_like : Text → Bool
is_flag_like text = is_utf8 text && starts_with (bytes "--") text

-- The flags that are left, with what the flags before have set.
unfoldable pub edit_flags : Bool → EditArguments → List Text → Outcome EditArguments
edit_flags accepts_local found [] = ok found
edit_flags accepts_local found (flag ∷ []) =
    if flag == source_flag
    then err usage
    else if accepts_local && flag == local_flag
    then if found.local then err usage else ok (record found { local = true })
    else err usage
edit_flags accepts_local found (flag ∷ next ∷ flags) =
    let as_source = edit_flags accepts_local (record found { source = some next }) flags in
    let as_local = edit_flags accepts_local (record found { local = true }) (next ∷ flags) in
    if flag == source_flag
    then if is_some found.source || is_flag_like next then err usage else as_source
    else if accepts_local && flag == local_flag
    then if found.local then err usage else as_local
    else err usage

-- `arguments.get(flag_start..)`; none where there are fewer.
unfoldable pub edit_arguments : Option (List Text) → Bool → Outcome EditArguments
unfolding edit_flags
edit_arguments none accepts_local = err usage
edit_arguments (some flags) accepts_local =
    edit_flags accepts_local (record { source = none; local = false }) flags

-- The names of the roots, joined by a comma and a space.
unfoldable pub source_names : List SourceRoot → Text
source_names [] = []
source_names (root ∷ []) = root.name
source_names (root ∷ next ∷ roots) = root.name ++ bytes ", " ++ source_names (next ∷ roots)

unfoldable pub select_named_root : List SourceRoot → Text → Outcome SourceRoot
unfolding source_names
select_named_root roots source =
    if is_utf8 source
    then elim (find (λ root. root.name == source) roots) [
      | none ↦ err (unknown_edit_source source (source_names roots))
      | some root ↦ ok root
    ]
    else err usage

unfoldable pub select_root : List SourceRoot → Option Text → Outcome SourceRoot
unfolding select_named_root
select_root roots (some source) = select_named_root roots source
select_root [] none = err (config no_roots)
select_root (root ∷ []) none = ok root
select_root (first ∷ second ∷ roots) none =
    err (edit_source_required (source_names (first ∷ second ∷ roots)))

abbrev actual_source : Text → Text
actual_source label = elim (strip_suffix (bytes ".local") label) [
  | none ↦ label
  | some source ↦ source
]

-- The file of a key that there is, unless the flags name another one.
unfoldable pub existing_human_path :
    List SourceRoot → SecretName → HumanLocation → EditArguments → Outcome Text
unfolding select_named_root
existing_human_path roots name place flags =
    let source_name = actual_source place.label in
    let placed : Outcome Text =
      if flags.local && (place.label == source_name)
      then err (edit_conflict name place.label)
      else ok place.path in
    elim flags.source [
      | none ↦ placed
      | some source ↦ do
        root ← select_named_root roots source
        if root.name == source_name then placed else err (edit_conflict name place.label)
    ]

-- The file of a new key; `made` says whether its directory is there or can be made.
unfoldable pub new_human_path :
    List SourceRoot → SecretName → EditArguments → (Text → Bool) → Outcome Text
unfolding select_root file_name local_file_name human_dir join
new_human_path roots name flags made = elim (select_root roots flags.source) [
  | err error ↦ err error
  | ok root ↦
      let file = if flags.local then local_file_name name else file_name name in
      if made (human_dir root) then ok (join (human_dir root) file) else err human_directory
]

-- What is done with the file of a human key: sops edits it, or a new one is sealed, with the text of
-- the standard input or of an editor.
pub data Edit : Type 0 where
  edited piped_in composed : Text → Edit

abbrev to_edit : (Text → Edit) → Outcome Text → Outcome Edit
to_edit action (err error) = err error
to_edit action (ok path) = ok (action path)

-- `human`, where the flags are read and the name is known.
unfoldable pub human_edit :
    List SourceRoot → HumanNames → SecretName → EditArguments → Bool → (Text → Bool) → Outcome Edit
unfolding existing_human_path new_human_path location
human_edit roots human name flags piped made = elim (location human name) [
  | some place ↦
      to_edit (if piped then piped_in else edited) (existing_human_path roots name place flags)
  | none ↦
      let chosen = if piped then record flags { local = true } else flags in
      to_edit (if piped then piped_in else composed) (new_human_path roots name chosen made)
]

-- `human` from its arguments: the command, the name and the flags.
unfoldable pub edit_human :
    List SourceRoot → HumanNames → List Text → Bool → (Text → Bool) → Outcome Edit
unfolding human_edit edit_arguments parse_name
edit_human roots human (command ∷ raw_name ∷ rest) piped made = do
  name ← parse_name invalid_secret_name raw_name
  flags ← edit_arguments (some rest) true
  human_edit roots human name flags piped made
edit_human roots human _ piped made = err usage
