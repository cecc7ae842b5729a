-- ===== src/Store/HumanStore.antt =====
-- Which file backs a key: `HumanStore` of src/store.rs. What the file system holds is a parameter.
use secretsd.Base.{Bool, List, [], ◌∷◌, ◌++◌, Option, none, some, Text, bytes, ◌==◌, if◌then◌else◌}
use secretsd.Proto.ErrCode.{Result, ok, err, internal, not_human_key, ambiguous_key, ◌>>=◌}
use secretsd.Names.SecretName.{SecretName, SecretName_eq, precedes}
use secretsd.Names.HumanFile.{HumanFileName, ignored, invalid, key, parse_human_file_name}
use secretsd.Store.FileIdentity.{FileIdentity}

pub record HumanSource : Type 0 where
  pub label : Text
  pub dir : Text

-- An entry of a directory: a read error, a name that is no UTF-8, or a name.
pub data DirEntry : Type 0 where
  unreadable foreign : DirEntry
  named : Text → DirEntry

-- What `read_dir` says of a directory.
pub data Listing : Type 0 where
  missing refused : Listing
  listed : List DirEntry → Listing

-- An opened file: whether it is a regular one, and its identity.
pub record Stat : Type 0 where
  pub is_regular : Bool
  pub identity : FileIdentity

-- `stat_at dir name` opens the directory, then the file in it without following a symlink, and
-- takes its metadata; `none` where one of these calls fails.
pub record FileSystem : Type 0 where
  pub read_dir : Text → Listing
  pub stat_at : Text → Text → Option Stat

pub record Candidate : Type 0 where
  pub label : Text
  pub dir : Text
  pub file_name : Text

pub record OpenedHumanFile : Type 0 where
  pub label : Text
  pub identity : FileIdentity

unfoldable pub label_of : HumanSource → Bool → Text
label_of source local = if local then source.label ++ bytes ".local" else source.label

-- The candidate that a classified name makes, if it is the requested key's.
unfoldable pub candidate : SecretName → HumanSource → Text → HumanFileName → Result (List Candidate)
unfolding label_of
candidate requested source text ignored = ok []
candidate requested source text invalid = err internal
candidate requested source text (key name local) =
    if name == requested
    then ok (record { label = label_of source local; dir = source.dir; file_name = text } ∷ [])
    else ok []

unfoldable pub entry_candidate : SecretName → HumanSource → DirEntry → Result (List Candidate)
unfolding candidate parse_human_file_name
entry_candidate requested source unreadable = err internal
entry_candidate requested source foreign = ok []
entry_candidate requested source (named text) =
    candidate requested source text (parse_human_file_name text)

unfoldable pub entries_candidates :
    SecretName → HumanSource → List DirEntry → Result (List Candidate)
unfolding entry_candidate
entries_candidates requested source [] = ok []
entries_candidates requested source (entry ∷ entries) = do
  first ← entry_candidate requested source entry
  rest ← entries_candidates requested source entries
  ok (first ++ rest)

unfoldable pub source_candidates : SecretName → HumanSource → Listing → Result (List Candidate)
unfolding entries_candidates
source_candidates requested source missing = ok []
source_candidates requested source refused = err internal
source_candidates requested source (listed entries) = entries_candidates requested source entries

-- A set of names is the list of them in order.
unfoldable pub add_key : SecretName → List SecretName → List SecretName
unfolding precedes
add_key name [] = name ∷ []
add_key name (first ∷ names) =
    let rest = add_key name names in
    if name == first
    then first ∷ names
    else if precedes name.as_str first.as_str
    then name ∷ (first ∷ names)
    else first ∷ rest

abbrev add_classified : List SecretName → HumanFileName → Result (List SecretName)
add_classified names ignored = ok names
add_classified names invalid = err internal
add_classified names (key name local) = ok (add_key name names)

unfoldable pub entry_keys : List SecretName → DirEntry → Result (List SecretName)
unfolding add_key parse_human_file_name
entry_keys names unreadable = err internal
entry_keys names foreign = ok names
entry_keys names (named text) = add_classified names (parse_human_file_name text)

unfoldable pub entries_keys : List SecretName → List DirEntry → Result (List SecretName)
unfolding entry_keys
entries_keys names [] = ok names
entries_keys names (entry ∷ entries) = do added ← entry_keys names entry; entries_keys added entries

unfoldable pub source_keys : List SecretName → Listing → Result (List SecretName)
unfolding entries_keys
source_keys names missing = ok names
source_keys names refused = err internal
source_keys names (listed entries) = entries_keys names entries

module _ (fs : FileSystem) where
  unfoldable pub keys_from : List SecretName → List HumanSource → Result (List SecretName)
  unfolding source_keys
  keys_from names [] = ok names
  keys_from names (source ∷ sources) = do
    added ← source_keys names (fs.read_dir source.dir)
    keys_from added sources

  -- `HumanStore::key_names`
  unfoldable pub key_names : List HumanSource → Result (List SecretName)
  unfolding keys_from
  key_names sources = keys_from [] sources

  unfoldable pub candidates : List HumanSource → SecretName → Result (List Candidate)
  unfolding source_candidates
  candidates [] requested = ok []
  candidates (source ∷ sources) requested = do
    first ← source_candidates requested source (fs.read_dir source.dir)
    rest ← candidates sources requested
    ok (first ++ rest)

  -- The sole candidate.
  unfoldable pub sole : List Candidate → Result Candidate
  sole [] = err not_human_key
  sole (only ∷ []) = ok only
  sole (first ∷ second ∷ rest) = err ambiguous_key

  unfoldable pub locate : List HumanSource → SecretName → Result Text
  unfolding candidates sole
  locate sources name = do found ← candidates sources name; only ← sole found; ok only.label

  unfoldable pub opened : Candidate → Option Stat → Result OpenedHumanFile
  opened only none = err not_human_key
  opened only (some stat) =
      if stat.is_regular
      then ok (record { label = only.label; identity = stat.identity })
      else err not_human_key

  unfoldable pub open_file : List HumanSource → SecretName → Result OpenedHumanFile
  unfolding candidates sole opened
  open_file sources name = do
    found ← candidates sources name
    only ← sole found
    opened only (fs.stat_at only.dir only.file_name)

  unfoldable pub identity : List HumanSource → SecretName → Result FileIdentity
  unfolding open_file
  identity sources name = do file ← open_file sources name; ok file.identity
