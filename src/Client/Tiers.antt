-- ===== src/Client/Tiers.antt =====
-- The choice between the tiers: `HumanNames` of src/client/human.rs, and `value`, `status` and
-- `request_grant` of src/client/cli.rs.
use secretsd.Base.{
  ℕ, Bool, true, false, ◌&&◌, List, [], ◌∷◌, ◌++◌, Option, none, some, Text, bytes, ◌==◌, Bytes_eq,
  if◌then◌else◌, any, find, is_some, split, strip_prefix, strip_suffix, ℕ_eq, is_utf8,
}
use secretsd.Names.SecretName.{precedes, SecretName, SecretName_eq}
use secretsd.Names.HumanFile.{HumanFileName, ignored, invalid, key, parse_human_file_name}
use secretsd.Store.HumanStore.{
  DirEntry, unreadable, foreign, named, Listing, missing, refused, listed,
}
use secretsd.Config.Paths.{join}
use secretsd.Config.Sources.{SourceRoot, human_dir}
use secretsd.Client.Response.{BrokerResponse, invalid_response, Reply, got, failed}
use secretsd.Client.Error.{
  human_directory, invalid_human_file, duplicate_human_key, missing_secret, ambiguous_key,
  from_client, Outcome, ok, err,
}
use secretsd.Client.Dotenv.{Entries, lookup}

-- Where the file of a human name is.
pub record HumanLocation : Type 0 where
  pub label : Text
  pub path : Text

-- The names of the human tier in their order, each with its place.
abbrev pub HumanNames : Type 0
HumanNames = List (SecretName × HumanLocation)

abbrev pub is_name : SecretName → SecretName × HumanLocation → Bool
is_name name entry = entry.0 == name

unfoldable pub is_human : HumanNames → SecretName → Bool
is_human human name = any (is_name name) human

abbrev place : Option (SecretName × HumanLocation) → Option HumanLocation
place none = none
place (some entry) = some entry.1

unfoldable pub location : HumanNames → SecretName → Option HumanLocation
location human name = place (find (is_name name) human)

abbrev label_of : SourceRoot → Bool → Text
label_of root local = if local then root.name ++ bytes ".local" else root.name

unfoldable pub insert_name : HumanNames → SecretName → HumanLocation → HumanNames
unfolding precedes
insert_name [] name place = (name, place) ∷ []
insert_name (first ∷ human) name place =
    let rest = insert_name human name place in
    if precedes name.as_str first.0.as_str then (name, place) ∷ (first ∷ human) else first ∷ rest

unfoldable pub add_name : HumanNames → SecretName → HumanLocation → Outcome HumanNames
unfolding insert_name
add_name human name place = elim (find (is_name name) human) [
  | none ↦ ok (insert_name human name place)
  | some first ↦ err (duplicate_human_key name first.1.label place.label)
]

unfoldable pub add_file : HumanNames → SourceRoot → Text → HumanFileName → Outcome HumanNames
unfolding add_name
add_file human root path ignored = ok human
add_file human root path invalid = err invalid_human_file
add_file human root path (key name local) =
    add_name human name (record { label = label_of root local; path = path })

unfoldable pub add_entry : HumanNames → SourceRoot → DirEntry → Outcome HumanNames
unfolding add_file parse_human_file_name human_dir join
add_entry human root unreadable = err human_directory
add_entry human root foreign = err invalid_human_file
add_entry human root (named text) =
    add_file human root (join (human_dir root) text) (parse_human_file_name text)

unfoldable pub add_entries : HumanNames → SourceRoot → List DirEntry → Outcome HumanNames
unfolding add_entry
add_entries human root [] = ok human
add_entries human root (entry ∷ entries) = elim (add_entry human root entry) [
  | err error ↦ err error
  | ok added ↦ add_entries added root entries
]

-- An entry that cannot be read is found before any is looked at.
abbrev is_unreadable : DirEntry → Bool
is_unreadable unreadable = true
is_unreadable _ = false

unfoldable pub add_directory : HumanNames → SourceRoot → Listing → Outcome HumanNames
unfolding add_entries
add_directory human root missing = err human_directory
add_directory human root refused = err human_directory
add_directory human root (listed entries) =
    if any is_unreadable entries then err human_directory else add_entries human root entries

-- `read_dir` lists the entries by name.
module _ (is_dir : Text → Bool) (read_dir : Text → Listing) where
  unfoldable pub load_names : HumanNames → List SourceRoot → Outcome HumanNames
  unfolding add_directory human_dir
  load_names human [] = ok human
  load_names human (root ∷ roots) = elim (is_dir (human_dir root)) [
    | false ↦ load_names human roots
    | true ↦ elim (add_directory human root (read_dir (human_dir root))) [
      | err error ↦ err error
      | ok added ↦ load_names added roots
    ]
  ]

-- `HumanClient::get` and `HumanClient::request_grant` on what the broker answers.
unfoldable pub get_result : Reply BrokerResponse → Reply (List ℕ)
get_result (got (BrokerResponse.value secret)) = got secret
get_result (got _) = failed invalid_response
get_result (failed error) = failed error

unfoldable pub grant_result : Reply BrokerResponse → Reply (Unit {0})
grant_result (got (BrokerResponse.value secret)) = failed invalid_response
grant_result (got _) = got tt
grant_result (failed error) = failed error

abbrev pub map_err : {A : Type 0} → Reply A → Outcome A
map_err (got a) = ok a
map_err (failed error) = err (from_client error)

-- Whether a human name is assigned in the agent tier too; the first one is reported.
unfoldable pub duplicate : HumanNames → Entries → Option (SecretName × HumanLocation)
unfolding lookup
duplicate human agent = find (λ entry. is_some (lookup agent entry.0)) human

unfoldable pub reject_duplicates : HumanNames → Entries → Outcome (Unit {0})
unfolding duplicate
reject_duplicates human agent = elim (duplicate human agent) [
  | none ↦ ok tt
  | some entry ↦ err (ambiguous_key entry.0)
]

abbrev agent_value : SecretName → Option Text → Outcome Text
agent_value name none = err (missing_secret name)
agent_value name (some secret) = ok secret

unfoldable pub unless_duplicate : Outcome (Unit {0}) → Reply BrokerResponse → Outcome Text
unfolding get_result
unless_duplicate (err error) broker = err error
unless_duplicate (ok done) broker = map_err (get_result broker)

-- `broker` is the answer to a GET of the name.
unfoldable pub value_with : HumanNames → Entries → SecretName → Reply BrokerResponse → Outcome Text
unfolding reject_duplicates unless_duplicate
value_with human agent name broker =
    if is_human human name
    then unless_duplicate (reject_duplicates human agent) broker
    else agent_value name (lookup agent name)

unfoldable pub value :
    HumanNames → Outcome Entries → SecretName → Reply BrokerResponse → Outcome Text
unfolding value_with
value human (err error) name broker = err error
value human (ok agent) name broker = value_with human agent name broker

pub data TierStatus : Type 0 where
  agent_tier : TierStatus
  human_tier : Bool → TierStatus

abbrev granted : Outcome (Unit {0}) → Outcome TierStatus
granted (err error) = err error
granted (ok done) = ok (human_tier true)

abbrev tier : SecretName → Bool → Bool → Outcome TierStatus → Outcome TierStatus
tier name true true human = err (ambiguous_key name)
tier name true false human = ok agent_tier
tier name false true human = human
tier name false false human = err (missing_secret name)

-- `agent` is what `AgentStore::contains` says, `broker` the answer to a REQUEST of the name.
unfoldable pub request_grant :
    HumanNames → Outcome Bool → SecretName → Reply BrokerResponse → Outcome TierStatus
unfolding grant_result is_human
request_grant human (err error) name broker = err error
request_grant human (ok agent) name broker =
    tier name agent (is_human human name) (granted (map_err (grant_result broker)))

-- The scope that the caller has: a session, a terminal or none.
pub data CallerScope : Type 0 where
  session none_at_all : CallerScope
  terminal : Text → CallerScope

abbrev is_scope : CallerScope → Text → Bool
is_scope session text = text == bytes "session"
is_scope none_at_all text = false
is_scope (terminal tty) text = elim (strip_prefix (bytes "tty ") text) [
  | none ↦ false
  | some device ↦ device == tty
]

-- A row of three fields, for the name and the scope.
unfoldable pub is_active_row : SecretName → CallerScope → List Text → Bool
is_active_row name scope (granted_key ∷ grant_scope ∷ age ∷ []) =
    (granted_key == name.as_str) && is_scope scope grant_scope
is_active_row name scope _ = false

-- A line of `str::lines`, without the carriage return at its end.
abbrev chomped : Text → Text
chomped line = elim (strip_suffix (b'\r' ∷ []) line) [ none ↦ line | some before ↦ before ]

-- The last line of `split` is empty where `lines` has none, and an empty line is no row.
unfoldable pub active_grant : SecretName → CallerScope → Text → Outcome Bool
unfolding is_active_row
active_grant name scope grants =
    if is_utf8 grants
    then ok (any (λ line. is_active_row name scope (split 9 (chomped line))) (split 10 grants))
    else err (from_client invalid_response)

-- `broker` is the answer to GRANTS.
abbrev listed_grant : SecretName → CallerScope → Reply BrokerResponse → Outcome Bool
listed_grant name scope (got (BrokerResponse.value grants)) = active_grant name scope grants
listed_grant name scope (got _) = err (from_client invalid_response)
listed_grant name scope (failed error) = err (from_client error)

abbrev with_grant : Outcome Bool → Outcome TierStatus
with_grant (err error) = err error
with_grant (ok active) = ok (human_tier active)

unfoldable pub status :
    HumanNames → Outcome Bool → SecretName → CallerScope → Reply BrokerResponse → Outcome TierStatus
unfolding active_grant is_human
status human (err error) name scope broker = err error
status human (ok agent) name scope broker =
    tier name agent (is_human human name) (with_grant (listed_grant name scope broker))
