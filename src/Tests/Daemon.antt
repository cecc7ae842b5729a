-- ===== src/Tests/Daemon.antt =====
-- A daemon that registers a session, approves a request of it, and is locked.
use secretsd.Base.{
  pos, zero, suc, ◌+◌, ◌≤◌, ◌<◌, ◌≡◌, refl, Bool, true, false, List, [], ◌∷◌, Option, none, some,
  Text, bytes, arith, is_some, u64_max, if◌then◌else◌, starts_with, from_str_radix, ℕ_discrete,
  Bytes-discrete,
}
use secretsd.Proto.ErrCode.{ok, err, ErrCode}
use secretsd.Peer.{ProcFs}
use secretsd.Names.SecretName.{SecretName, SecretName-discrete}
use secretsd.Names.Capability.{Capability}
use secretsd.Grants.Token.{SessionToken, SessionToken-discrete, Scope-discrete, session}
use secretsd.Grants.Registry.{registration, has_token}
use secretsd.Grants.Table.{Cached, lookup, insert}
use secretsd.Store.FileIdentity.{FileIdentity-discrete}
use secretsd.Store.HumanStore.{FileSystem, named, listed, identity, locate}
use secretsd.Requests.{RequestState-discrete}
use secretsd.Server.State.{State, fields, Config, new, Decision, kill_active}
use secretsd.Server.Control.{register, finish_authorization}
use secretsd.Server.Approval.{begin_approval}
use secretsd.Server.Worker.{decrypt_started, Job, Decrypted, pick, conclude}
use secretsd.Server.Step.{System, took, registered, began, picked, concluded, Reach, here, next}
use secretsd.Server.Invariant.{IsSound, fresh, fresh-IsSound}
use secretsd.Server.Sessions.{grant_has_session}
use secretsd.Server.Conclude.{conclude-grants, is_accepted}
use secretsd.Server.Epoch.{lock_final, after_lock}
use secretsd.Server.Access.{served_from_cache}
use secretsd.Store.HumanStore.{OpenedHumanFile, Candidate, Stat, candidates, open_file}
use secretsd.Store.Sole.{open_file_sole}
use secretsd.Tests.Data.{api_key, deploy, root_process, file_identity}
use secretsd.Tests.Sessions.{proc}

abbrev config : Config
config = record {
  request_ttl = 100;
  max_grant = 1000;
  cooldown = 5;
  max_pending_per_scope = 2;
  human_sources = record { label = bytes "s"; dir = bytes "/d" } ∷ [];
}

abbrev pub fs : FileSystem
fs = record {
  read_dir = λ dir. listed (named (bytes "K.env") ∷ []);
  stat_at = λ dir name. some (record { is_regular = true; identity = file_identity });
}

abbrev exists : Text → Bool
exists tty = true

abbrev pub token_hex : Text
token_hex = bytes "1111111111111111111111111111111111111111111111111111111111111111"

abbrev token : SessionToken
token = record {
  token_bytes =
      17 ∷ 17 ∷ 17 ∷ 17 ∷ 17 ∷ 17 ∷ 17 ∷ 17 ∷ 17 ∷ 17 ∷ 17 ∷ 17 ∷ 17 ∷ 17 ∷ 17 ∷ 17 ∷ 17 ∷ 17 ∷ 17
      ∷ 17 ∷ 17 ∷ 17 ∷ 17 ∷ 17 ∷ 17 ∷ 17 ∷ 17 ∷ 17 ∷ 17 ∷ 17 ∷ 17 ∷ 17 ∷ [];
}

abbrev pub initial : System
initial = fresh config (bytes "b") (bytes "i")

abbrev pub with_session : System
with_session = record initial {
  state = (register initial.state token_hex (bytes "A") root_process).0;
}

abbrev asked : System
asked = record with_session {
  state = (begin_approval fs with_session.state (session token) api_key false 10).0;
}

abbrev working : System
working = took (pick asked.state 20)

abbrev the_job : Job
the_job = record { id = 1; scope = session token; key = api_key; generation = 1; lock_epoch = 0 }

abbrev decrypted : Decrypted
decrypted = record {
  value = 7 ∷ [];
  origin = record { source = bytes "s"; identity = file_identity };
}

abbrev pub served : System
served = record { state = conclude proc exists working.state the_job (ok decrypted) 30; job = none }

asked_room : with_session.state.queue.next_id < u64_max
unfolding register secretsd.Grants.Token.parse_hex ℕ_discrete secretsd.Grants.Registry.register new
    secretsd.Grants.Registry.new secretsd.Requests.new
asked_room = omega arith

asked_steps : Reach initial asked
asked_steps =
    next (next here (registered token_hex (bytes "A") root_process))
      (began fs (session token) api_key false 10 asked_room)

working_steps : Reach initial working
working_steps = next asked_steps (picked 20 refl)

has_job : working.job ≡ some the_job
unfolding pick secretsd.Requests.next_ready begin_approval lookup register
    secretsd.Grants.Token.parse_hex ℕ_discrete secretsd.Grants.Registry.register new
    secretsd.Grants.Registry.new secretsd.Grants.Table.revoke_tokens locate
    secretsd.Base.strip_suffix Bytes-discrete secretsd.Names.SecretName.parse SecretName-discrete
    secretsd.Requests.enqueue starts_with secretsd.Requests.new RequestState-discrete
    secretsd.Requests.mark_decrypting secretsd.Requests.describe
has_job = refl

served_steps : Reach initial served
served_steps = next working_steps (concluded proc exists the_job (ok decrypted) 30 has_job)

fresh-IsSound_example : IsSound served
fresh-IsSound_example = fresh-IsSound config (bytes "b") (bytes "i") served_steps

abbrev cached_entry : Cached
cached_entry = (7 ∷ [], bytes "s", file_identity)

grant_has_session_example : is_some (registration served.state.registry token) ≡ true
unfolding pick secretsd.Requests.next_ready begin_approval lookup register
    secretsd.Grants.Token.parse_hex ℕ_discrete secretsd.Grants.Registry.register new
    secretsd.Grants.Registry.new secretsd.Grants.Table.revoke_tokens locate
    secretsd.Base.strip_suffix Bytes-discrete secretsd.Names.SecretName.parse SecretName-discrete
    secretsd.Requests.enqueue starts_with secretsd.Requests.new RequestState-discrete
    secretsd.Requests.mark_decrypting secretsd.Requests.describe conclude insert registration
    secretsd.Peer.pid secretsd.Base.strip_prefix from_str_radix SessionToken-discrete Scope-discrete
    secretsd.Requests.complete kill_active secretsd.Peer.is_alive
grant_has_session_example =
    grant_has_session config (bytes "b") (bytes "i") token api_key cached_entry served_steps refl

working-IsSound : IsSound working
working-IsSound = fresh-IsSound config (bytes "b") (bytes "i") working_steps

conclude-grants_example :
    ((d : Decrypted)
      → (conclude proc exists working.state the_job (ok d) 30).grants ≡ (
          if is_accepted proc exists working.state the_job
          then insert working.state.grants (session token) api_key d.value 30 d.origin
          else working.state.grants))
    × ((error : ErrCode)
        → (conclude proc exists working.state the_job (err error) 30).grants ≡ working.state.grants)
conclude-grants_example =
    conclude-grants proc exists working.state the_job 30 working-IsSound.valid.ordered

working_room : working.state.lock_epoch < u64_max
unfolding pick secretsd.Requests.next_ready begin_approval lookup register
    secretsd.Grants.Token.parse_hex ℕ_discrete secretsd.Grants.Registry.register new
    secretsd.Grants.Registry.new secretsd.Grants.Table.revoke_tokens locate
    secretsd.Base.strip_suffix Bytes-discrete secretsd.Names.SecretName.parse SecretName-discrete
    secretsd.Requests.enqueue starts_with secretsd.Requests.new RequestState-discrete
    secretsd.Requests.mark_decrypting secretsd.Requests.describe
working_room = omega arith

-- The decrypt of `the_job` ends after the lock, and so does an authorization.
abbrev locked_daemon : System
locked_daemon = after_lock working 25

abbrev approved : Decision
approved = record {
  outcome = fields (bytes "status=granted");
  scope_kind = none;
  source = none;
  request_id = some 1;
}

no_lock_before : 0 ≤ working.state.lock_epoch
no_lock_before = omega arith

lock_final_example :
    ((conclude proc exists locked_daemon.state the_job (ok decrypted) 30).grants
      ≡ locked_daemon.state.grants)
    × ((finish_authorization locked_daemon.state deploy 0 30 none approved).0.receipts
        ≡ locked_daemon.state.receipts)
lock_final_example =
    lock_final working 25 30 proc exists the_job decrypted deploy 0 none approved working-IsSound
      working_room here no_lock_before no_lock_before

-- The decrypt of the job runs in the process group 77.
abbrev decrypting_state : State
decrypting_state = decrypt_started working.state the_job (pos 77)

served_from_cache_example :
    (entry : Cached) × (lookup served.state.grants (session token) api_key ≡ some entry)
    × (identity fs served.state.config.human_sources api_key ≡ ok entry.2)
    × (false ≡ false)
    × ((begin_approval fs served.state (session token) api_key false 50).0 ≡ served.state)
unfolding pick secretsd.Requests.next_ready begin_approval lookup register
    secretsd.Grants.Token.parse_hex ℕ_discrete secretsd.Grants.Registry.register new
    secretsd.Grants.Registry.new secretsd.Grants.Table.revoke_tokens locate
    secretsd.Base.strip_suffix Bytes-discrete secretsd.Names.SecretName.parse SecretName-discrete
    secretsd.Requests.enqueue starts_with secretsd.Requests.new RequestState-discrete
    secretsd.Requests.mark_decrypting secretsd.Requests.describe conclude insert registration
    secretsd.Peer.pid secretsd.Base.strip_prefix from_str_radix SessionToken-discrete Scope-discrete
    secretsd.Requests.complete kill_active secretsd.Peer.is_alive identity FileIdentity-discrete
served_from_cache_example =
    served_from_cache fs served.state (session token) api_key false 50 (some (bytes "s")) refl

abbrev sealed : OpenedHumanFile
sealed = record { label = bytes "s"; identity = file_identity }

open_file_sole_example :
    (only : Candidate) × (stat : Stat) × (candidates fs config.human_sources api_key
      ≡ ok (only ∷ []))
    × (fs.stat_at only.dir only.file_name ≡ some stat)
    × (stat.is_regular ≡ true)
    × (sealed.identity ≡ stat.identity)
    × (locate fs config.human_sources api_key ≡ ok sealed.label)
unfolding open_file secretsd.Base.strip_suffix Bytes-discrete ℕ_discrete
    secretsd.Names.SecretName.parse SecretName-discrete
open_file_sole_example = open_file_sole fs config.human_sources api_key sealed refl
