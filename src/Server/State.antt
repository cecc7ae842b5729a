-- ===== src/Server/State.antt =====
-- The state that the daemon's threads share: `State` of src/server.rs, and what a request decides,
-- `Outcome` and `Decision` of src/server/dispatch.rs.
use secretsd.Base.{
  ℕ, List, [], ◌∷◌, ◌++◌, Option, none, some, Text, bytes, ◌==◌, ℕ_eq, if◌then◌else◌, ℤ, length,
}
use secretsd.Proto.ErrCode.{ErrCode, wire}
use secretsd.Grants.Token.{ScopeKind}
use secretsd.Grants.Registry.{Registry}
use secretsd.Grants.Table.{GrantTable}
use secretsd.Receipts.{ReceiptTable}
use secretsd.Requests.{Queue, QueueLimits, RequestId}
use secretsd.Store.HumanStore.{HumanSource}

pub record ActiveDecrypt : Type 0 where
  pub id : RequestId
  pub process_group : ℤ

-- The fields of the configuration that a running daemon reads, in nanoseconds.
pub record Config : Type 0 where
  pub request_ttl : ℕ
  pub max_grant : ℕ
  pub cooldown : ℕ
  pub max_pending_per_scope : ℕ
  pub human_sources : List HumanSource

-- `killed` lists the process groups that were sent a SIGKILL, which the source does through the
-- operating system.
pub record State : Type 0 where
  pub instance_id : Text
  pub registry : Registry
  pub grants : GrantTable
  pub receipts : ReceiptTable
  pub queue : Queue
  pub config : Config
  pub failures : List (RequestId × ErrCode)
  pub lock_epoch : ℕ
  pub active_decrypt : Option ActiveDecrypt
  pub killed : List ℤ

-- `boot_id` and `instance_id` are read from the operating system.
unfoldable pub new : Config → Text → Text → State
new config boot_id instance_id = record {
  instance_id = instance_id;
  registry = secretsd.Grants.Registry.new boot_id;
  grants = secretsd.Grants.Table.empty;
  receipts = record { entries = [] };
  queue = secretsd.Requests.new (record {
    cooldown = config.cooldown;
    ttl = config.request_ttl;
    max_pending_per_scope = config.max_pending_per_scope;
  });
  config = config;
  failures = [];
  lock_epoch = 0;
  active_decrypt = none;
  killed = [];
}

abbrev pub kill_group : State → ActiveDecrypt → State
kill_group state active = record state {
  active_decrypt = none;
  killed = state.killed ++ active.process_group ∷ [];
}

unfoldable pub kill_active : State → RequestId → State
kill_active state id = elim state.active_decrypt [
  | none ↦ state
  | some active ↦ if active.id == id then kill_group state active else state
]

pub data Outcome : Type 0 where
  done : Outcome
  fields payload minted_receipt : Text → Outcome
  value : List ℕ → Outcome
  failure : ErrCode → Text → Outcome

unfoldable pub released_bytes : Outcome → Option ℕ
released_bytes (value secret) = some (length secret)
released_bytes _ = none

unfoldable pub decision_text : Outcome → Text
unfolding wire
decision_text (failure code message) = wire code
decision_text _ = bytes "ok"

pub record Decision : Type 0 where
  pub outcome : Outcome
  pub scope_kind : Option ScopeKind
  pub source : Option Text
  pub request_id : Option RequestId

-- A decision that concerns no scope, source or request.
abbrev pub plain : Outcome → Decision
plain outcome = record { outcome = outcome; scope_kind = none; source = none; request_id = none }
