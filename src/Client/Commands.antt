-- ===== src/Client/Commands.antt =====
-- The commands of the client: `run`, `inject`, `grants`, `deny` and `expect_ok` of
-- src/client/cli.rs. The arguments are those behind the name of the program.
use secretsd.Base.{
  ℕ, suc, List, [], ◌∷◌, ◌++◌, none, some, Text, bytes, ◌==◌, Bytes_eq, if◌then◌else◌,
  from_str_radix, u64_max, is_utf8, decimal,
}
use secretsd.Client.Response.{BrokerResponse, invalid_response, Reply, got, failed}
use secretsd.Client.Error.{usage, invalid_secret_name, from_client, Outcome, ok, err, ◌>>=◌}
use secretsd.Client.Dotenv.{Entries, parse_name}
use secretsd.Client.Tiers.{HumanNames, value}
use secretsd.Client.Arguments.{GetOutput, get_arguments, inject_arguments}

-- What is to be done; the editing commands carry all arguments.
pub data Command : Type 0 where
  sources list grants lock : Command
  get : Text → GetOutput → Command
  edit edit_local edit_human : List Text → Command
  deny : Text → Command
  inject : List Text → Command

abbrev to_get : Outcome (Text × GetOutput) → Outcome Command
to_get (err error) = err error
to_get (ok (name, output)) = ok (get name output)

abbrev to_deny : List Text → Outcome Command
to_deny (command ∷ id ∷ rest) = ok (deny id)
to_deny _ = err usage

abbrev to_sources : List Text → Outcome Command
to_sources (command ∷ []) = ok sources
to_sources _ = err usage

-- The commands other than `sources`.
unfoldable pub context_command : Text → List Text → Outcome Command
unfolding get_arguments
context_command command rest =
    if command == bytes "get"
    then to_get (get_arguments (command ∷ rest))
    else if command == bytes "list"
    then ok list
    else if command == bytes "edit"
    then ok (edit (command ∷ rest))
    else if command == bytes "edit-local"
    then ok (edit_local (command ∷ rest))
    else if command == bytes "edit-human"
    then ok (edit_human (command ∷ rest))
    else if command == bytes "grants"
    then ok grants
    else if command == bytes "deny"
    then to_deny (command ∷ rest)
    else if command == bytes "lock"
    then ok lock
    else ok (inject (command ∷ rest))

-- `context` is what loading the sources and the human names gives; only `sources` does without.
unfoldable pub command_of : Outcome (Unit {0}) → List Text → Outcome Command
unfolding context_command
command_of context [] = err usage
command_of context (command ∷ rest) =
    if command == bytes "sources"
    then to_sources (command ∷ rest)
    else elim context [ err error ↦ err error | ok loaded ↦ context_command command rest ]

-- `agent n` is what decrypting the agent files for the n-th name gives, and `broker n` the answer
-- to a GET of it.
module _ (human : HumanNames) (agent : ℕ → Outcome Entries)
    (broker : ℕ → Reply BrokerResponse) where
  -- What `get --value` prints.
  unfoldable pub get_value : Text → Outcome Text
  unfolding parse_name value
  get_value raw_name = do
    name ← parse_name invalid_secret_name raw_name
    secret ← value human (agent 0) name (broker 0)
    ok (secret ++ b'\n' ∷ [])

  -- The variables of the names, the first of which is the n-th.
  unfoldable pub environment : ℕ → List Text → Outcome (List (Text × Text))
  unfolding parse_name value
  environment n [] = ok []
  environment n (raw_name ∷ names) = do
    name ← parse_name invalid_secret_name raw_name
    secret ← value human (agent n) name (broker n)
    rest ← environment (suc n) names
    ok ((name.as_str, secret) ∷ rest)

  -- The variables, the program and its arguments.
  unfoldable pub injected : List Text → Outcome (List (Text × Text) × Text × List Text)
  unfolding inject_arguments environment
  injected arguments = elim (inject_arguments arguments) [
    | err error ↦ err error
    | ok (names, program, rest) ↦ do variables ← environment 0 names; ok (variables, program, rest)
  ]

-- What GRANTS answers is printed as it is.
unfoldable pub grants_text : Reply BrokerResponse → Outcome (List ℕ)
grants_text (got (BrokerResponse.value listing)) = ok listing
grants_text (got _) = err (from_client invalid_response)
grants_text (failed error) = err (from_client error)

-- The request line of `deny`.
unfoldable pub deny_frame : Text → Outcome Text
deny_frame raw_id =
    if is_utf8 raw_id
    then elim (from_str_radix 10 u64_max raw_id) [
      | none ↦ err usage
      | some id ↦ ok (bytes "DENY\tid=" ++ decimal id)
    ]
    else err usage

-- The answer to DENY and LOCK.
unfoldable pub expect_ok : Reply BrokerResponse → Outcome (Unit {0})
expect_ok (got BrokerResponse.done) = ok tt
expect_ok (got _) = err (from_client invalid_response)
expect_ok (failed error) = err (from_client error)
