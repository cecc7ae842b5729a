-- ===== src/Client/Dotenv.antt =====
-- Agent-tier files: `AgentStore` of src/client/agent.rs. What sops and the file system give is a
-- parameter. A map from names is the list of its entries, in the order of their insertion.
use secretsd.Base.{
  Bool, true, false, List, [], ◌∷◌, ◌++◌, Option, none, some, Text, bytes, ◌==◌, ℕ_eq, Bytes_eq,
  if◌then◌else◌, any, find, split, split_once, strip_suffix, starts_with, is_utf8,
}
use secretsd.Names.SecretName.{SecretName, SecretName_eq}
use secretsd.Client.Response.{is_nul}
use secretsd.Client.Error.{
  CliError, invalid_secret_name, invalid_dotenv, sops_start, sops_failed, agent_key_set, Outcome,
  ok, err, ◌>>=◌,
}

-- `SecretName::parse` on bytes.
unfoldable pub parse_name : CliError → Text → Outcome SecretName
parse_name no_text raw =
    if is_utf8 raw
    then elim (secretsd.Names.SecretName.parse raw) [
      | secretsd.Proto.ErrCode.ok name ↦ ok name
      | secretsd.Proto.ErrCode.err error ↦ err invalid_secret_name
    ]
    else err no_text

abbrev strip_cr : Text → Text
strip_cr line = elim (strip_suffix (b'\r' ∷ []) line) [ none ↦ line | some before ↦ before ]

abbrev is_skipped : Text → Bool
is_skipped [] = true
is_skipped (c ∷ cs) = c == b'#'

abbrev pub Entries : Type 0
Entries = List (SecretName × Text)

abbrev pub names : SecretName → SecretName × Text → Bool
names name entry = entry.0 == name

abbrev value_of : Option (SecretName × Text) → Option Text
value_of none = none
value_of (some entry) = some entry.1

unfoldable pub lookup : Entries → SecretName → Option Text
lookup entries name = value_of (find (names name) entries)

-- `entry(name).or_insert(value)`
unfoldable pub or_insert : Entries → SecretName → Text → Entries
or_insert entries name value =
    if any (names name) entries then entries else entries ++ (name, value) ∷ []

-- The assignment on a line that is not skipped.
unfoldable pub assignment : Text → Outcome (SecretName × Text)
unfolding parse_name
assignment line = elim (split_once b'=' line) [
  | none ↦ err invalid_dotenv
  | some (raw_name, value) ↦ do
    name ← parse_name invalid_dotenv raw_name
    if any is_nul value then err invalid_dotenv else ok (name, value)
]

unfoldable pub parse_lines : Entries → List Text → Outcome Entries
unfolding assignment or_insert
parse_lines entries [] = ok entries
parse_lines entries (line ∷ lines) = elim (is_skipped (strip_cr line)) [
  | true ↦ parse_lines entries lines
  | false ↦ elim (assignment (strip_cr line)) [
    | err error ↦ err error
    | ok (name, value) ↦ parse_lines (or_insert entries name value) lines
  ]
]

unfoldable pub parse_dotenv : Text → Outcome Entries
unfolding parse_lines
parse_dotenv plaintext = parse_lines [] (split b'\n' plaintext)

-- The name on a line of an encrypted file, unless it is metadata of sops.
unfoldable pub line_name : Text → Outcome (List SecretName)
unfolding parse_name
line_name line = elim (split_once b'=' line) [
  | none ↦ err invalid_dotenv
  | some (raw_name, value) ↦ do
    name ← parse_name invalid_dotenv raw_name
    if starts_with (bytes "sops_") name.as_str then ok [] else ok (name ∷ [])
]

unfoldable pub line_names : List Text → Outcome (List SecretName)
unfolding line_name
line_names [] = ok []
line_names (line ∷ lines) = elim (is_skipped (strip_cr line)) [
  | true ↦ line_names lines
  | false ↦ do first ← line_name (strip_cr line); rest ← line_names lines; ok (first ++ rest)
]

-- What reading the file gives; none where it fails.
unfoldable pub names_in : Option Text → Outcome (List SecretName)
unfolding line_names
names_in none = err agent_key_set
names_in (some encrypted) = line_names (split b'\n' encrypted)

unfoldable pub merge_first_values : Entries → Entries → Entries
unfolding or_insert
merge_first_values destination [] = destination
merge_first_values destination ((name, value) ∷ source) =
    merge_first_values (or_insert destination name value) source

-- A run of sops: it did not start, or exited, successfully or not, with what it wrote.
pub data SopsRun : Type 0 where
  not_started : SopsRun
  exited : Bool → Text → SopsRun

unfoldable pub decrypt_all : SopsRun → Outcome Entries
unfolding parse_dotenv
decrypt_all not_started = err sops_start
decrypt_all (exited false output) = err sops_failed
decrypt_all (exited true output) = parse_dotenv output

module _ (is_file : Text → Bool) (sops : Text → SopsRun) where
  unfoldable pub merge_files : Entries → List Text → Outcome Entries
  unfolding merge_first_values decrypt_all
  merge_files values [] = ok values
  merge_files values (path ∷ files) = elim (is_file path) [
    | false ↦ merge_files values files
    | true ↦ elim (decrypt_all (sops path)) [
      | err error ↦ err error
      | ok found ↦ merge_files (merge_first_values values found) files
    ]
  ]

  -- `AgentStore::all`
  unfoldable pub all_values : List Text → Outcome Entries
  unfolding merge_files
  all_values files = merge_files [] files

module _ (is_file : Text → Bool) (read : Text → Option Text) where
  -- `AgentStore::contains`
  unfoldable pub contains : List Text → SecretName → Outcome Bool
  unfolding names_in
  contains [] name = ok false
  contains (path ∷ files) name = elim (is_file path) [
    | false ↦ contains files name
    | true ↦ elim (names_in (read path)) [
      | err error ↦ err error
      | ok found ↦ elim (any (λ known. known == name) found) [
        | true ↦ ok true
        | false ↦ contains files name
      ]
    ]
  ]
