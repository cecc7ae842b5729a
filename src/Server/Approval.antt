-- ===== src/Server/Approval.antt =====
-- Access to a key: src/server/approval.rs. Each function is what one thread does while it holds
-- the lock; `now` is what the clock reads there.
use secretsd.Base.{
  ℕ, ◌+◌, Bool, true, false, List, Option, none, some, Text, bytes, ◌==◌, ℕ_eq, if◌then◌else◌, ltb,
  find,
}
use secretsd.Proto.ErrCode.{ErrCode, Result, ok, err, internal, timeout, ◌>>=◌}
use secretsd.Peer.{PeerIdentity, ProcFs}
use secretsd.Names.SecretName.{SecretName}
use secretsd.Grants.Token.{SessionToken, Scope, parse_hex, kind}
use secretsd.Grants.Registry.{Registry, resolve}
use secretsd.Grants.Table.{Cached, lookup, revoke}
use secretsd.Store.FileIdentity.{FileIdentity, FileIdentity_eq}
use secretsd.Store.HumanStore.{FileSystem, locate, identity}
use secretsd.Requests.{
  RequestId, RequestState, pending, decrypting, granted, denied, timed_out, failed, enqueue,
  state_of,
}
use secretsd.Server.State.{State, Outcome, fields, value, failure, Decision, kill_active}

pub record Access : Type 0 where
  pub key : Text
  pub token_hex : Option Text
  pub tty : Option Text

pub data Approval : Type 0 where
  granted_from : Option Text → Option RequestId → Approval
  refused : ErrCode → Approval
  incomplete : ErrCode → RequestId → Approval

unfoldable pub parse_token : Option Text → Result (Option SessionToken)
parse_token none = ok none
parse_token (some token_hex) = do token ← parse_hex token_hex; ok (some token)

-- The key and the token that an access names.
unfoldable pub parse_access : Access → Result (SecretName × Option SessionToken)
unfolding parse_token
parse_access access = do
  key ← secretsd.Names.SecretName.parse access.key
  token ← parse_token access.token_hex
  ok (key, token)

unfoldable pub with_key :
    SecretName → State → Registry × Result Scope → State × Result (Scope × SecretName)
with_key key state (registry, ok scope) = (record state { registry = registry }, ok (scope, key))
with_key key state (registry, err error) = (record state { registry = registry }, err error)

-- The largest `Instant`: its seconds are an `i64`.
abbrev pub instant_max : ℕ
instant_max = 9223372036854775807999999999

unfoldable pub failure_of : List (RequestId × ErrCode) → RequestId → ErrCode
failure_of failures id = elim (find (λ entry. entry.0 == id) failures) [
  | none ↦ internal
  | some entry ↦ entry.1
]

-- What a waiting request finds: it is done, or it waits on.
pub data Poll : Type 0 where
  ready : Approval → Poll
  waiting : Poll

unfoldable pub expired_poll : State → RequestId → ℕ → State × Poll
unfolding kill_active
expired_poll state id now = (
  kill_active (record state { queue = (secretsd.Requests.timeout state.queue id now).0 }) id,
  ready (incomplete timeout id),
)

unfoldable pub poll_active : State → RequestId → ℕ → ℕ → State × Poll
unfolding expired_poll
poll_active state id deadline now =
    if ltb deadline now then expired_poll state id now else (state, waiting)

unfoldable pub poll_state : Option RequestState → State → Text → RequestId → ℕ → ℕ → State × Poll
unfolding failure_of poll_active
poll_state (some granted) state source id deadline now =
    (state, ready (granted_from (some source) (some id)))
poll_state (some denied) state source id deadline now =
    (state, ready (incomplete secretsd.Proto.ErrCode.denied id))
poll_state (some timed_out) state source id deadline now = (state, ready (incomplete timeout id))
poll_state (some failed) state source id deadline now =
    (state, ready (incomplete (failure_of state.failures id) id))
poll_state (some pending) state source id deadline now = poll_active state id deadline now
poll_state (some decrypting) state source id deadline now = poll_active state id deadline now
poll_state none state source id deadline now = (state, ready (incomplete internal id))

-- One round of the loop of `await_approval`.
unfoldable pub poll : State → Text → RequestId → ℕ → ℕ → State × Poll
unfolding poll_state
poll state source id deadline now =
    poll_state (state_of state.queue id) state source id deadline now

-- How the wait for an approval begins: it is settled, or a request waits until its deadline.
pub data Begun : Type 0 where
  settled : Approval → Begun
  enqueued : Text → RequestId → ℕ → Begun

unfoldable pub ask_human : State → Text → ℕ → Scope → SecretName → ℕ → State × Begun
ask_human state source deadline scope key now =
    let (queue, result) = enqueue state.queue scope key now in
    elim result [
      | ok id ↦ (record state { queue = queue }, enqueued source id deadline)
      | err error ↦ (record state { queue = queue }, settled (refused error))
    ]

unfoldable pub ask_within : State → Text → Scope → SecretName → ℕ → State × Begun
unfolding ask_human
ask_within state source scope key now =
    if ltb instant_max (now + state.config.request_ttl)
    then (state, settled (refused internal))
    else ask_human state source (now + state.config.request_ttl) scope key now

-- `is_ok_and(|current| current == identity)`
unfoldable pub is_current : Result FileIdentity → FileIdentity → Bool
is_current (err error) cached = false
is_current (ok current) cached = current == cached

abbrev pub drop_grant : State → Scope → SecretName → State
drop_grant state scope key = record state { grants = revoke state.grants scope key }

module _ (proc : ProcFs) where
  unfoldable pub resolve_access :
      State → Access → PeerIdentity → State × Result (Scope × SecretName)
  unfolding parse_access with_key
  resolve_access state access caller = elim (parse_access access) [
    | err error ↦ (state, err error)
    | ok (key, token) ↦
        with_key key state (resolve proc state.registry token access.tty (some caller))
  ]

module _ (fs : FileSystem) where
  unfoldable pub ask : State → Scope → SecretName → ℕ → State × Begun
  unfolding ask_within
  ask state scope key now = elim (locate fs state.config.human_sources key) [
    | err error ↦ (state, settled (refused error))
    | ok source ↦ ask_within state source scope key now
  ]

  -- `await_approval` up to its loop.
  unfoldable pub begin_approval : State → Scope → SecretName → Bool → ℕ → State × Begun
  unfolding ask is_current
  begin_approval state scope key force_fresh now = elim (lookup state.grants scope key) [
    | none ↦ ask state scope key now
    | some (cached, source, recorded) ↦
        if is_current (identity fs state.config.human_sources key) recorded
        then if force_fresh
          then ask (drop_grant state scope key) scope key now
          else (state, settled (granted_from (some source) none))
        else ask (drop_grant state scope key) scope key now
  ]

unfoldable pub cached_value : Option Cached → Outcome
cached_value none = failure internal (bytes "grant disappeared")
cached_value (some (secret, source, recorded)) = value secret

unfoldable pub granted_outcome : State → Scope → SecretName → Bool → Outcome
unfolding cached_value
granted_outcome state scope key true = cached_value (lookup state.grants scope key)
granted_outcome state scope key false = fields (bytes "status=granted")

-- The end of `dispatch_access`, with the state at the time the value is read.
unfoldable pub conclude_access : State → Scope → SecretName → Bool → Approval → Decision
unfolding granted_outcome kind
conclude_access state scope key return_value (refused error) = record {
  outcome = failure error (bytes "request refused");
  scope_kind = some (kind scope);
  source = none;
  request_id = none;
}
conclude_access state scope key return_value (incomplete error id) = record {
  outcome = failure error (bytes "approval did not complete");
  scope_kind = some (kind scope);
  source = none;
  request_id = some id;
}
conclude_access state scope key return_value (granted_from source id) = record {
  outcome = granted_outcome state scope key return_value;
  scope_kind = some (kind scope);
  source = source;
  request_id = id;
}
