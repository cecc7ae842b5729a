-- ===== src/Tests/Tools.antt =====
-- The tiers of the client and the lanes of the daemon.
use secretsd.Base.{
  ◌≡◌, refl, ◌⊎◌, Bool, true, false, [], ◌∷◌, Option, none, some, Text, bytes, ◌==◌, Bytes_eq,
  if◌then◌else◌, ◌≤◌, length, all, arith, Bytes-discrete, ℕ_discrete, split_once, strip_suffix,
  is_utf8, split,
}
use secretsd.Names.SecretName.{SecretName}
use secretsd.Client.Response.{BrokerResponse, got}
use secretsd.Client.Dotenv.{Entries, lookup, all_values, SopsRun, exited}
use secretsd.Client.Tiers.{HumanNames, is_human, value, duplicate}
use secretsd.Client.Precedence.{first_value, all_values-lookup, value_ok}
use secretsd.Server.Connections.{peeked}
use secretsd.Server.Lanes.{Connection, Lanes, Reach, here, next, accepted, accept, empty}
use secretsd.Server.Admission.{asked, is_control, is_admissible, control_refused}
use secretsd.Proto.ErrCode.{Result}
use secretsd.Names.Assignment.{parse_single_assignment}
use secretsd.Hardening.{HardeningError}
use secretsd.Client.Seal.{
  SopsEncrypt, Target, max_sops_ciphertext_bytes, line_of, trimmed, write_piped_human,
}
use secretsd.Client.Seal.Piped.{write_piped_human_ok}
use secretsd.Tests.Data.{api_key, other_key}

abbrev human : HumanNames
human = (api_key, record { label = bytes "s"; path = bytes "/s/K" }) ∷ []

abbrev agent : Entries
agent = (other_key, bytes "v") ∷ []

value_ok_example :
    ((is_human human api_key ≡ true)
      × (got (BrokerResponse.value (bytes "x")) ≡ got (BrokerResponse.value (bytes "x")))
      × (duplicate human agent ≡ none))
    ⊎ ((is_human human api_key ≡ false) × (lookup agent api_key ≡ some (bytes "x")))
unfolding value is_human secretsd.Names.SecretName.SecretName-discrete ℕ_discrete
value_ok_example =
    value_ok human agent api_key (got (BrokerResponse.value (bytes "x"))) (bytes "x") refl

-- Two files assign the same name.
abbrev sops : Text → SopsRun
sops path = exited true (if path == bytes "a" then bytes "K=1\n" else bytes "K=2\nL=3\n")

abbrev is_there : Text → Bool
is_there path = true

abbrev assigned : Entries
assigned = (api_key, bytes "1") ∷ ((other_key, bytes "3") ∷ [])

all_values-lookup_example :
    lookup assigned api_key ≡ first_value is_there sops (bytes "a" ∷ (bytes "b" ∷ [])) api_key
unfolding all_values split Bytes-discrete ℕ_discrete strip_suffix split_once is_utf8
    secretsd.Names.SecretName.parse secretsd.Names.SecretName.SecretName-discrete
all_values-lookup_example =
    all_values-lookup is_there sops (bytes "a" ∷ (bytes "b" ∷ [])) assigned api_key refl

-- A connection that sends LOCK.
abbrev lock_sent : Connection
lock_sent = (0, peeked (bytes "LOCK\n"))

abbrev add_control : Lanes → Lanes
add_control lanes = (accept lanes lock_sent).0

abbrev three : Lanes
three = add_control (add_control (add_control empty))

abbrev six : Lanes
six = add_control (add_control (add_control three))

abbrev full : Lanes
full = add_control (add_control six)

add_step : {lanes last : Lanes} → Reach lanes last → Reach lanes (add_control last)
add_step steps = next steps (accepted lock_sent)

full-Reach : Reach empty full
full-Reach =
    add_step (add_step (add_step (add_step (add_step (add_step (add_step (add_step here)))))))

control_refused_example :
    (length full.control_lane.waiting ≡ 8)
    × (all (λ connection. asked is_control connection.1) full.control_lane.waiting ≡ true)
    × (is_admissible full ≡ true)
unfolding accept split_once split is_utf8 ℕ_discrete Bytes-discrete
    secretsd.Proto.Request.parse_request secretsd.Base.from_str_radix
control_refused_example =
    control_refused {last = full} 9 (bytes "DENY\tid=1\n") full-Reach refl (ground arith)

abbrev encrypts : Text → SopsEncrypt
encrypts plaintext = record {
  started = true;
  took_input = true;
  stderr_read = true;
  succeeded = true;
  stdout_read = true;
  output = bytes "sealed";
}

abbrev no_failure : Option HardeningError
no_failure = none

abbrev target : Target
target = record {
  path = bytes "/s/K";
  has_parent = true;
  opens_and_locks = true;
  makes_file = true;
  writes = true;
  exists = true;
  renames = true;
}

-- The line break at the end of the input is not part of the value.
abbrev piped : Text
piped = bytes "v\r\n"

write_piped_human_ok_example :
    (no_failure ≡ none)
    × ((encrypts (line_of api_key (trimmed piped))).succeeded ≡ true)
    × ((encrypts (line_of api_key (trimmed piped))).output ≡ bytes "sealed")
    × (length (bytes "sealed") ≤ max_sops_ciphertext_bytes)
    × (parse_single_assignment (line_of api_key (trimmed piped)) api_key
        ≡ Result.ok (trimmed piped))
unfolding write_piped_human secretsd.Names.SecretName.parse Bytes-discrete strip_suffix ℕ_discrete
    parse_single_assignment split split_once
write_piped_human_ok_example =
    write_piped_human_ok no_failure encrypts (bytes "K") api_key piped target true (bytes "sealed")
      refl refl
