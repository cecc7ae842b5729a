-- ===== src/Server/Dispatch.antt =====
-- How a request is answered: `authorize`, `dispatch` and `request_key` of src/server/dispatch.rs and
-- `await_approval` and `dispatch_access` of src/server/approval.rs, whole. A `Schedule` says what the
-- other threads do to the state wherever the source does not hold the lock, and what the clock reads.
use secretsd.Base.{
  ℕ, Bool, true, false, List, [], ◌∷◌, ◌++◌, Option, none, some, Text, bytes, ◌==◌, ℕ_eq,
  if◌then◌else◌, starts_with, decimal,
}
use secretsd.Proto.ErrCode.{Result, ok, err, version_mismatch, not_human_key}
use secretsd.Proto.Request.{
  Request, hello, register, unregister, get, request_grant, authorize, redeem, grants, deny, lock,
  protocol_version,
}
use secretsd.Peer.{PeerIdentity, ProcFs}
use secretsd.Names.SecretName.{SecretName}
use secretsd.Names.Capability.{Capability, capability_key_prefix, key_name}
use secretsd.Grants.Token.{Scope}
use secretsd.Requests.{RequestId}
use secretsd.Store.HumanStore.{FileSystem}
use secretsd.Server.State.{State, Outcome, fields, failure, Decision, plain}
use secretsd.Server.Approval.{
  Access, Approval, ready, waiting, poll, Begun, settled, enqueued, begin_approval, resolve_access,
  conclude_access,
}
use secretsd.Server.Control.{finish_authorization}

-- What happens until a waiting thread has the lock again, and what the clock reads then.
pub record Turn : Type 0 where
  pub others : State → State
  pub now : ℕ

pub record Schedule : Type 0 where
  pub before_resolve : State → State
  pub before_approval : State → State
  pub begin_now : ℕ
  pub poll_now : ℕ
  pub turns : List Turn
  pub before_release : State → State
  pub before_finish : State → State
  pub finish_now : ℕ
  pub entropy : Option (List (List ℕ))

-- The loop of `await_approval`: none while it waits still.
unfoldable pub await_loop : List Turn → ℕ → State → Text → RequestId → ℕ → State × Option Approval
unfolding poll
await_loop [] now state source id deadline =
    let (after, found) = poll state source id deadline now in
    (after, elim found [ ready approval ↦ some approval | waiting ↦ none ])
await_loop (turn ∷ turns) now state source id deadline =
    let (after, found) = poll state source id deadline now in
    let rest = await_loop turns turn.now (turn.others after) source id deadline in
    elim found [ ready approval ↦ (after, some approval) | waiting ↦ rest ]

unfoldable pub await_begun : Schedule → State × Begun → State × Option Approval
unfolding await_loop
await_begun schedule (state, settled approval) = (state, some approval)
await_begun schedule (state, enqueued source id deadline) =
    await_loop schedule.turns schedule.poll_now state source id deadline

unfoldable pub release :
    Schedule → Scope → SecretName → Bool → State × Option Approval → State × Option Decision
unfolding conclude_access
release schedule scope key return_value (state, none) = (state, none)
release schedule scope key return_value (state, some approval) =
    let after = schedule.before_release state in
    (after, some (conclude_access after scope key return_value approval))

unfoldable pub finish :
    Schedule → Capability → ℕ → State × Option Decision → State × Option Decision
unfolding finish_authorization
finish schedule cap epoch_before (state, none) = (state, none)
finish schedule cap epoch_before (state, some decision) =
    let (after, finished) =
      finish_authorization (schedule.before_finish state) cap epoch_before schedule.finish_now
        schedule.entropy decision in
    (after, some finished)

abbrev pub answered : State × Decision → State × Option Decision
answered (state, decision) = (state, some decision)

unfoldable pub greet : State → ℕ → Outcome
greet state version =
    if version == protocol_version
    then fields (
        bytes "version=" ++ (decimal protocol_version ++ (bytes " instance=" ++ state.instance_id)))
    else failure version_mismatch (bytes "unsupported protocol version")

abbrev pub is_capability_key : Text → Bool
is_capability_key key = starts_with capability_key_prefix key

abbrev pub capability_refusal : Decision
capability_refusal =
    plain (failure not_human_key (bytes "capability keys hold no retrievable value"))

unfoldable pub request_key : Request → Option Text
request_key (get key token_hex tty) = some key
request_key (request_grant key token_hex tty) = some key
request_key _ = none

module _ (proc : ProcFs) (fs : FileSystem) (caller : PeerIdentity) (schedule : Schedule) where
  unfoldable pub access_scope :
      Bool → Bool → State × Result (Scope × SecretName) → State × Option Decision
  unfolding release await_begun
  access_scope return_value force_fresh (state, err error) =
      (state, some (plain (failure error (bytes "request has no usable scope"))))
  access_scope return_value force_fresh (state, ok (scope, key)) =
      release schedule scope key return_value (
        await_begun schedule (
          begin_approval fs (schedule.before_approval state) scope key force_fresh
            schedule.begin_now))

  unfoldable pub dispatch_access : State → Access → Bool → Bool → State × Option Decision
  unfolding access_scope
  dispatch_access state access return_value force_fresh =
      access_scope return_value force_fresh (resolve_access proc state access caller)

  unfoldable pub authorize_as :
      State → Result Capability → Option Text → Option Text → State × Option Decision
  unfolding finish dispatch_access
  authorize_as state (err error) token_hex tty =
      (state, some (plain (failure error (bytes "invalid capability name"))))
  authorize_as state (ok cap) token_hex tty =
      let access : Access = record { key = key_name cap; token_hex = token_hex; tty = tty } in
      finish schedule cap state.lock_epoch
        (dispatch_access (schedule.before_resolve state) access false true)

  unfoldable pub dispatch_key :
      State → Text → Option Text → Option Text → Bool → State × Option Decision
  unfolding dispatch_access
  dispatch_key state key token_hex tty return_value =
      if is_capability_key key
      then (state, some capability_refusal)
      else dispatch_access state (record { key = key; token_hex = token_hex; tty = tty })
          return_value false

  unfoldable pub dispatch : State → Request → State × Option Decision
  unfolding dispatch_key authorize_as greet
  dispatch state (hello version) = (state, some (plain (greet state version)))
  dispatch state (register token_hex session pid) =
      answered (secretsd.Server.Control.register state token_hex session caller)
  dispatch state (unregister session) = answered (secretsd.Server.Control.unregister state session)
  dispatch state (get key token_hex tty) = dispatch_key state key token_hex tty true
  dispatch state (request_grant key token_hex tty) = dispatch_key state key token_hex tty false
  dispatch state grants = (state, some (secretsd.Server.Control.grants state schedule.finish_now))
  dispatch state (deny id) = answered (secretsd.Server.Control.deny state id schedule.finish_now)
  dispatch state lock = answered (secretsd.Server.Control.lock state schedule.finish_now)
  dispatch state (authorize cap token_hex tty) =
      authorize_as state (secretsd.Names.Capability.parse cap) token_hex tty
  dispatch state (redeem receipt_hex cap) =
      answered (secretsd.Server.Control.redeem state receipt_hex cap schedule.finish_now)
