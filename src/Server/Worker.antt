-- ===== src/Server/Worker.antt =====
-- The thread that decrypts: src/server/worker.rs. Each function is what it does while it holds the
-- lock; `now` is what the clock reads there, `exists` says which terminals are there.
use secretsd.Base.{
  ℕ, Bool, false, ◌&&◌, List, [], ◌∷◌, ◌++◌, Option, none, some, Text, ◌==◌, ℕ_eq, if◌then◌else◌, ℤ,
  retain, is_some,
}
use secretsd.Proto.ErrCode.{ErrCode, Result, ok, err}
use secretsd.Peer.{ProcFs, is_alive}
use secretsd.Names.SecretName.{SecretName}
use secretsd.Grants.Token.{Scope, session, terminal}
use secretsd.Grants.Registry.{Registry, registration}
use secretsd.Grants.Table.{GrantOrigin, insert, revoke_expired, revoke_missing_ttys}
use secretsd.Receipts.{sweep}
use secretsd.Requests.{
  Queue, RequestId, decrypting, RequestState_eq, state_of, describe, next_ready, mark_decrypting,
  sweep_timeouts, prune, complete, fail, deny,
}
use secretsd.Server.State.{State, kill_active}

pub record Job : Type 0 where
  pub id : RequestId
  pub scope : Scope
  pub key : SecretName
  pub generation : ℕ
  pub lock_epoch : ℕ

-- What a decrypt yields: the value, and where it came from.
pub record Decrypted : Type 0 where
  pub value : List ℕ
  pub origin : GrantOrigin

unfoldable pub kill_all : State → List RequestId → State
unfolding kill_active
kill_all state [] = state
kill_all state (id ∷ ids) = kill_all (kill_active state id) ids

abbrev is_known : Queue → RequestId × ErrCode → Bool
is_known queue entry = is_some (state_of queue entry.0)

-- The cleaning that every round of the worker begins with.
unfoldable pub tidy : (Text → Bool) → State → ℕ → State
unfolding kill_all
tidy exists state now =
    let (queue, expired) = sweep_timeouts state.queue now in
    let after = kill_all (record state { queue = queue }) expired in
    let pruned = prune after.queue now in
    record after {
      grants =
          revoke_missing_ttys exists (revoke_expired after.grants now after.config.max_grant).0;
      queue = pruned;
      receipts = sweep after.receipts now;
      failures = retain (is_known pruned) after.failures;
    }

unfoldable pub describe_job : State → RequestId → ℕ → ℕ → State × Option Job
describe_job state id generation now = elim (describe state.queue id) [
  | none ↦ (record state { queue = fail state.queue id now }, none)
  | some (scope, key) ↦ (
    state,
    some (record {
      id = id;
      scope = scope;
      key = key;
      generation = generation;
      lock_epoch = state.lock_epoch;
    }),
  )
]

unfoldable pub mark_job : State → RequestId → ℕ → State × Option Job
unfolding describe_job
mark_job state id now =
    let (queue, generation) = mark_decrypting state.queue id now in
    elim generation [
      | none ↦ (record state { queue = queue }, none)
      | some g ↦ describe_job (record state { queue = queue }) id g now
    ]

-- A round of the worker up to the decrypt: the job that it takes, if one is ready.
unfoldable pub pick : State → ℕ → State × Option Job
unfolding mark_job
pick state now = elim (next_ready state.queue now) [
  | none ↦ (state, none)
  | some id ↦ mark_job state id now
]

-- The callback of the decryptor, once it has started the process group.
unfoldable pub decrypt_started : State → Job → ℤ → State
decrypt_started state job process_group = elim (state_of state.queue job.id) [
  | none ↦ record state { killed = state.killed ++ process_group ∷ [] }
  | some current ↦
      if current == decrypting
      then record state {
        active_decrypt = some (record { id = job.id; process_group = process_group });
      }
      else record state { killed = state.killed ++ process_group ∷ [] }
]

module _ (proc : ProcFs) (exists : Text → Bool) where
  -- `session_is_active`
  unfoldable pub is_active_scope : Registry → Scope → Bool
  unfolding registration
  is_active_scope registry (session token) = elim (registration registry token) [
    | none ↦ false
    | some entry ↦ is_alive proc entry.root
  ]
  is_active_scope registry (terminal tty boot_id) = exists tty

  -- Whether the value of a finished decrypt may still be granted.
  unfoldable pub may_insert : State → Job → Bool
  unfolding is_active_scope
  may_insert state job =
      state.lock_epoch == job.lock_epoch && is_active_scope state.registry job.scope

  -- The queue in which a job that lost its session, or that a lock overtook, is denied.
  unfoldable pub settle : State → Job → ℕ → Queue
  unfolding may_insert
  settle state job now =
      if may_insert state job then state.queue else (deny state.queue job.id now).0

  unfoldable pub grant : State → Job → Decrypted → ℕ → State
  unfolding settle
  grant state job decrypted now =
      let (queue, is_granted) = complete (settle state job now) job.id job.generation now in
      if is_granted
      then record state {
        queue = queue;
        grants = insert state.grants job.scope job.key decrypted.value now decrypted.origin;
      }
      else record state { queue = queue }

  -- The end of a decrypt.
  unfoldable pub conclude : State → Job → Result Decrypted → ℕ → State
  unfolding kill_active grant
  conclude state job (ok decrypted) now = grant (kill_active state job.id) job decrypted now
  conclude state job (err error) now =
      let after = kill_active state job.id in
      record after {
        queue = fail after.queue job.id now;
        failures = after.failures ++ (job.id, error) ∷ [];
      }
