-- ===== src/Client/Precedence.antt =====
-- Which value a name has: the tiers of src/client/agent.rs and src/client/cli.rs.
use mathlib.Core.Path.{subst}
use secretsd.Base.{
  ◌≡◌, sym, ◌⊎◌, inl, inr, Bool, true, false, List, [], ◌∷◌, Option, none, some, Text, ◌==◌,
  if◌then◌else◌, any, find, or_else, find-append, any-none, eq_of_==, Option-cases, Bool-cases,
  arith,
}
use secretsd.Names.SecretName.{SecretName, SecretName_eq}
use secretsd.Client.Response.{BrokerResponse, Reply, got, failed}
use secretsd.Client.Error.{Outcome-cases, Outcome, ok, err}
use secretsd.Client.Dotenv.{
  Entries, names, lookup, or_insert, merge_first_values, merge_files, all_values, decrypt_all,
  SopsRun,
}
use secretsd.Client.Tiers.{
  HumanNames, is_human, duplicate, reject_duplicates, get_result, map_err, unless_duplicate,
  value_with, value,
}

lookup-or_insert :
    (entries : Entries) (name other : SecretName) (value : Text)
    → lookup (or_insert entries name value) other
      ≡ or_else (lookup entries other) (if name == other then some value else none)
unfolding lookup or_insert
lookup-or_insert entries name other value = elim (Option-cases (find (names other) entries)) [
  | inr (entry, found) ↦ ground (arith, find-append (names other) entries ((name, value) ∷ []))
  | inl missing ↦
      let unlisted = any-none (names other) entries missing in
      let last = find-append (names other) entries ((name, value) ∷ []) in
      elim (Bool-cases (name == other)) [
        | inr differs ↦ ground arith
        | inl same ↦
            let equal = eq_of_== name other same in
            let fresh : any (names name) entries ≡ false =
              subst (λ n. any (names n) entries ≡ false) (sym equal) unlisted in
            ground arith
      ]
]

-- Of two files the earlier one wins.
pub lookup-merge_first_values :
    (destination source : Entries) (name : SecretName)
    → lookup (merge_first_values destination source) name
      ≡ or_else (lookup destination name) (lookup source name)
unfolding merge_first_values lookup
lookup-merge_first_values destination [] name = ground arith
lookup-merge_first_values destination ((other, value) ∷ source) name = ground (
  arith,
  lookup-merge_first_values (or_insert destination other value) source name,
  lookup-or_insert destination other name value,
)

module _ (is_file : Text → Bool) (sops : Text → SopsRun) where
  -- What a file that is there says of a name.
  abbrev pub file_value : Outcome Entries → SecretName → Option Text
  file_value (ok found) name = lookup found name
  file_value (err error) name = none

  -- The value in the first file that is there and has one.
  abbrev pub first_value : List Text → SecretName → Option Text
  first_value [] name = none
  first_value (path ∷ files) name =
      let rest = first_value files name in
      if is_file path then or_else (file_value (decrypt_all (sops path)) name) rest else rest

  merge_files-lookup :
      (files : List Text) (values entries : Entries) (name : SecretName)
      → merge_files is_file sops values files ≡ ok entries
      → lookup entries name ≡ or_else (lookup values name) (first_value files name)
  unfolding merge_files
  merge_files-lookup [] values entries name h = ground arith
  merge_files-lookup (path ∷ files) values entries name h = elim (Bool-cases (is_file path)) [
    | inr gone ↦ ground (arith, merge_files-lookup files values entries name)
    | inl there ↦ elim (Outcome-cases (decrypt_all (sops path))) [
      | inr (error, broken) ↦ absurd (ground arith)
      | inl (found, read) ↦ ground (
        arith,
        merge_files-lookup files (merge_first_values values found) entries name,
        lookup-merge_first_values values found name,
      )
    ]
  ]

  -- Where every agent file that is there can be read, a name has the value in the first of them that
  -- assigns one, and no value if none does.
  pub all_values-lookup :
      (files : List Text) (entries : Entries) (name : SecretName)
      → all_values is_file sops files ≡ ok entries
      → lookup entries name ≡ first_value files name
  unfolding all_values lookup
  all_values-lookup files entries name h = merge_files-lookup files [] entries name h

map_err_ok :
    (broker : Reply BrokerResponse) (secret : Text)
    → map_err (get_result broker) ≡ ok secret
    → broker ≡ got (BrokerResponse.value secret)
unfolding get_result
map_err_ok (got (BrokerResponse.value found)) secret h = ground arith
map_err_ok (got (BrokerResponse.fields text)) secret h = absurd (ground arith)
map_err_ok (got BrokerResponse.done) secret h = absurd (ground arith)
map_err_ok (failed error) secret h = absurd (ground arith)

accepted :
    (human : HumanNames) (agent : Entries) (broker : Reply BrokerResponse) (secret : Text)
    → unless_duplicate (reject_duplicates human agent) broker ≡ ok secret
    → (broker ≡ got (BrokerResponse.value secret)) × (duplicate human agent ≡ none)
unfolding reject_duplicates unless_duplicate
accepted human agent broker secret h = elim (Option-cases (duplicate human agent)) [
  | inr (entry, twice) ↦ absurd (ground arith)
  | inl none_twice ↦ (map_err_ok broker secret (ground arith), none_twice)
]

-- Where the tool hands out a value, it is either that of a human name, which the broker answered
-- with, and then no human name is assigned in the agent tier; or the name is no human name, and the
-- value is the one that the agent tier has.
pub value_ok :
    (human : HumanNames) (agent : Entries) (name : SecretName) (broker : Reply BrokerResponse)
    (secret : Text)
    → value human (ok agent) name broker ≡ ok secret
    → ((is_human human name ≡ true)
        × (broker ≡ got (BrokerResponse.value secret))
        × (duplicate human agent ≡ none))
      ⊎ ((is_human human name ≡ false) × (lookup agent name ≡ some secret))
unfolding value value_with
value_ok human agent name broker secret h = elim (Bool-cases (is_human human name)) [
  | inl known ↦
      (let found = accepted human agent broker secret (ground arith) in
        inl (known, found.0, found.1))
  | inr other ↦ inr (other, ground arith)
]
