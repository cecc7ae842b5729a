-- ===== src/Config/Daemon.antt =====
-- The configuration of the daemon and its start: `Config`, `validate`, `run` and `serve_main` of
-- src/lib.rs, and `SocketPath::resolve` of src/client.rs.
use secretsd.Base.{
  ℕ, ◌*◌, Bool, true, false, not, ◌&&◌, List, [], ◌∷◌, ◌++◌, map, Option, none, some, Text, bytes,
  ◌==◌, Bytes_eq, leb, if◌then◌else◌, decimal, from_str_radix, u64_max,
}
use secretsd.Store.HumanStore.{HumanSource}
use secretsd.Server.State.{State, Config}
use secretsd.Hardening.{Applied, applied, failed, SystemCalls, apply, Variable, memlock_policy}
use secretsd.Config.Paths.{join}
use secretsd.Config.Sources.{SourceRoot, Loaded, ok, err, human_dir}

pub data TouchPolicy : Type 0 where
  cached always : TouchPolicy

-- Durations are nanoseconds.
pub record DaemonConfig : Type 0 where
  pub socket_path : Text
  pub human_sources : List HumanSource
  pub sops_bin : Text
  pub pcsc_socket : Option Text
  pub yubikey_probe_argv : List Text
  pub yubikey_probe_timeout : ℕ
  pub touch_policy : TouchPolicy
  pub max_grant : ℕ
  pub cooldown : ℕ
  pub request_ttl : ℕ
  pub max_pending_per_scope : ℕ

unfoldable pub socket_path_of : Option Text → Option Text → ℕ → Text
unfolding join
socket_path_of (some path) runtime_dir uid = path
socket_path_of none (some (c ∷ cs)) uid = join (c ∷ cs) (bytes "secretsd.sock")
socket_path_of none _ uid = bytes "/run/user/" ++ (decimal uid ++ bytes "/secretsd.sock")

abbrev pub source_of : SourceRoot → HumanSource
source_of root = record { label = root.name; dir = human_dir root }

-- `Duration::from_secs`
abbrev pub from_secs : ℕ → ℕ
from_secs seconds = seconds * 1000000000

abbrev or_else {ℓ} : {A : Type ℓ} → Option A → A → A
or_else none fallback = fallback
or_else (some a) fallback = a

-- None stands for a policy that is not known.
unfoldable pub touch_policy_of : Option Text → Option TouchPolicy
touch_policy_of none = some cached
touch_policy_of (some value) =
    if value == bytes "cached"
    then some cached
    else if value == bytes "always"
    then some always
    else none

-- `variable` gives the values that are texts; `split_whitespace` is that of Rust's `str`.
module _ (variable : Text → Option Text) (split_whitespace : Text → List Text) (uid : ℕ) where
  unfoldable pub var : Text → Option Text
  var name = elim (variable name) [ none ↦ none | some [] ↦ none | some (c ∷ cs) ↦ some (c ∷ cs) ]

  unfoldable pub number : Text → ℕ → ℕ
  unfolding var
  number name fallback = elim (var name) [
    | none ↦ fallback
    | some value ↦ or_else (from_str_radix 10 u64_max value) fallback
  ]

  unfoldable pub argv : Text → List Text
  unfolding var
  argv name = elim (var name) [ none ↦ [] | some value ↦ split_whitespace value ]

  unfoldable pub config_with : List SourceRoot → TouchPolicy → DaemonConfig
  unfolding socket_path_of human_dir var number argv
  config_with roots policy = record {
    socket_path =
        socket_path_of (var (bytes "SECRETSD_SOCKET")) (var (bytes "XDG_RUNTIME_DIR")) uid;
    human_sources = map source_of roots;
    sops_bin = or_else (var (bytes "SECRETSD_SOPS_BIN")) (bytes "sops");
    pcsc_socket = var (bytes "PCSCLITE_CSOCK_NAME");
    yubikey_probe_argv = argv (bytes "SECRETSD_YUBIKEY_PROBE_CMD");
    yubikey_probe_timeout = from_secs (number (bytes "SECRETSD_YUBIKEY_PROBE_TIMEOUT_SECS") 2);
    touch_policy = policy;
    max_grant = from_secs (number (bytes "SECRETSD_MAX_GRANT_SECS") 43200);
    cooldown = from_secs (number (bytes "SECRETSD_COOLDOWN_SECS") 16);
    request_ttl = from_secs (number (bytes "SECRETSD_REQUEST_TTL_SECS") 90);
    max_pending_per_scope = number (bytes "SECRETSD_MAX_PENDING") 3;
  }

  -- None stands for `InvalidInput`.
  unfoldable pub from_env : Loaded (List SourceRoot) → Option DaemonConfig
  unfolding config_with touch_policy_of var
  from_env (err error) = none
  from_env (ok roots) = elim (touch_policy_of (var (bytes "SECRETSD_TOUCH_POLICY"))) [
    | none ↦ none
    | some policy ↦ some (config_with roots policy)
  ]

abbrev pub is_cached : TouchPolicy → Bool
is_cached cached = true
is_cached always = false

unfoldable pub validate : DaemonConfig → Bool
validate config = not (is_cached config.touch_policy && leb config.cooldown (from_secs 15))

-- The fields that the server reads while it runs.
abbrev pub server_config : DaemonConfig → Config
server_config config = record {
  request_ttl = config.request_ttl;
  max_grant = config.max_grant;
  cooldown = config.cooldown;
  max_pending_per_scope = config.max_pending_per_scope;
  human_sources = config.human_sources;
}

-- The state that `serve` starts from; none where the configuration is refused.
unfoldable pub run : DaemonConfig → Text → Text → Option State
unfolding validate
run config boot_id instance_id =
    if validate config
    then some (secretsd.Server.State.new (server_config config) boot_id instance_id)
    else none

abbrev run_loaded : Option DaemonConfig → Text → Text → Option State
run_loaded none boot_id instance_id = none
run_loaded (some config) boot_id instance_id = run config boot_id instance_id

abbrev run_hardened : Applied → Option DaemonConfig → Text → Text → Option State
run_hardened (failed error) config boot_id instance_id = none
run_hardened applied config boot_id instance_id = run_loaded config boot_id instance_id

-- The state that the daemon comes to serve with; none where it refuses to start.
unfoldable pub serve_main :
    Variable → SystemCalls → Option DaemonConfig → Text → Text → Option State
unfolding memlock_policy apply run
serve_main memlock system config boot_id instance_id = elim (memlock_policy memlock) [
  | none ↦ none
  | some policy ↦ run_hardened (apply policy system) config boot_id instance_id
]
