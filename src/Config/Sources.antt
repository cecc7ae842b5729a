-- ===== src/Config/Sources.antt =====
-- `Sources::parse` and `Sources::load` of src/config.rs.
use secretsd.Base.{
  Bool, not, List, [], ◌∷◌, ◌++◌, Option, none, some, Text, bytes, ◌==◌, ℕ_eq, Bytes_eq, Eq,
  if◌then◌else◌, find, ℕ_discrete,
}
use secretsd.Config.Paths.{is_absolute, components, join, is_root_name, resolve_path}

pub record SourceRoot : Type 0 where
  pub name : Text
  pub path : Text

pub data ConfigError : Type 0 where
  missing read_failed bad_toml no_roots no_home : ConfigError
  bad_root_name relative_path : Text → ConfigError
  duplicate_path : Text → Text → ConfigError
  root_not_directory : Text → ConfigError

-- `Result<A, ConfigError>`
pub data Loaded (A : Type 0) : Type 0 where
  ok : A → Loaded A
  err : ConfigError → Loaded A

unfoldable pub agent_files : SourceRoot → List Text
unfolding join
agent_files root =
    join root.path (bytes "secrets.local.env") ∷ (join root.path (bytes "secrets.env") ∷ [])

unfoldable pub human_dir : SourceRoot → Text
unfolding join
human_dir root = join root.path (bytes "secrets.human.d")

unfoldable pub Components-discrete : Discrete (List Text)
Components-discrete = hlevel ℕ_discrete

instance abbrev pub Components_eq : Eq (List Text)
Components_eq = record { dec = Components-discrete }

-- Paths are equal where their components are.
abbrev pub same_path : Text → SourceRoot → Bool
same_path path root = components root.path == components path

unfoldable pub is_new : List SourceRoot → Text → Text → Loaded (List SourceRoot)
unfolding components
is_new roots name path = elim (find (same_path path) roots) [
  | none ↦ ok (roots ++ (record { name = name; path = path }) ∷ [])
  | some first ↦ err (duplicate_path first.name name)
]

unfoldable pub add_resolved : List SourceRoot → Text → Text → Option Text → Loaded (List SourceRoot)
unfolding is_new
add_resolved roots name raw none = err (relative_path raw)
add_resolved roots name raw (some path) = is_new roots name path

-- A TOML value, the table that it is if it is one, and the path of a source that it describes.
pub record Toml : Type 1 where
  pub Value : Type 0
  pub parse : Text → Option (List (Text × Value))
  pub as_table : Value → Option (List (Text × Value))
  pub raw_source : Value → Option Text

module _ (toml : Toml) (home : Text) where
  -- One round of the loop over the source tables.
  unfoldable pub add_root : List SourceRoot → Text → toml.Value → Loaded (List SourceRoot)
  unfolding is_root_name add_resolved resolve_path
  add_root roots name value =
      if is_root_name name
      then elim (toml.raw_source value) [
        | none ↦ err bad_toml
        | some raw ↦ add_resolved roots name raw (resolve_path raw home)
      ]
      else err (bad_root_name name)

  unfoldable pub add_roots : List SourceRoot → List (Text × toml.Value) → Loaded (List SourceRoot)
  unfolding add_root
  add_roots roots [] = ok roots
  add_roots roots ((name, value) ∷ rest) = elim (add_root roots name value) [
    | err error ↦ err error
    | ok added ↦ add_roots added rest
  ]

  unfoldable pub parse_source : toml.Value → Loaded (List SourceRoot)
  unfolding add_roots
  parse_source value = elim (toml.as_table value) [
    | none ↦ err bad_toml
    | some [] ↦ err no_roots
    | some (entry ∷ source) ↦ add_roots [] (entry ∷ source)
  ]

  -- The document must hold the one table `source`.
  unfoldable pub parse_document : List (Text × toml.Value) → Loaded (List SourceRoot)
  unfolding parse_source
  parse_document ((name, value) ∷ []) =
      if name == bytes "source" then parse_source value else err bad_toml
  parse_document _ = err bad_toml

  unfoldable pub parse : Text → Loaded (List SourceRoot)
  unfolding parse_document
  parse text =
      if is_absolute home
      then elim (toml.parse text) [ none ↦ err bad_toml | some document ↦ parse_document document ]
      else err no_home

-- The environment and the files, as `load` reads them: a file is absent, unreadable or a text.
pub data File : Type 0 where
  absent unreadable : File
  text : Text → File

-- `var_os` with an empty value taken for none.
unfoldable pub environment_path : (Text → Option Text) → Text → Option Text
environment_path variable name = elim (variable name) [
  | none ↦ none
  | some [] ↦ none
  | some (c ∷ cs) ↦ some (c ∷ cs)
]

unfoldable pub home_path : (Text → Option Text) → Loaded Text
unfolding environment_path
home_path variable = elim (environment_path variable (bytes "HOME")) [
  | none ↦ err no_home
  | some home ↦ if is_absolute home then ok home else err no_home
]

abbrev config_in_home : Loaded Text → Loaded Text
config_in_home (err error) = err error
config_in_home (ok home) = ok (join home (bytes ".config/secretsd/config.toml"))

unfoldable pub config_path : (Text → Option Text) → Loaded Text
unfolding environment_path home_path join
config_path variable = elim (environment_path variable (bytes "SECRETSD_CONFIG")) [
  | some path ↦ ok path
  | none ↦ elim (environment_path variable (bytes "XDG_CONFIG_HOME")) [
    | some path ↦ ok (join path (bytes "secretsd/config.toml"))
    | none ↦ config_in_home (home_path variable)
  ]
]

module _ (toml : Toml) (variable : Text → Option Text) (read : Text → File)
    (is_dir : Text → Bool) where
  unfoldable pub checked : Loaded (List SourceRoot) → Loaded (List SourceRoot)
  checked (err error) = err error
  checked (ok roots) = elim (find (λ root. not (is_dir root.path)) roots) [
    | none ↦ ok roots
    | some root ↦ err (root_not_directory root.name)
  ]

  unfoldable pub load_file : Text → File → Loaded (List SourceRoot)
  unfolding checked parse
  load_file home absent = err missing
  load_file home unreadable = err read_failed
  load_file home (text content) = checked (parse toml home content)

  unfoldable pub load : Loaded (List SourceRoot)
  unfolding load_file home_path config_path
  load = elim (home_path variable) [
    | err error ↦ err error
    | ok home ↦ elim (config_path variable) [
      | err error ↦ err error
      | ok path ↦ load_file home (read path)
    ]
  ]
