-- ===== src/Server/Epoch.antt =====
-- What `lock` of src/server/dispatch.rs ends, for good.
use secretsd.Base.{
  ℕ, suc, ◌<◌, ◌≤◌, ◌≡◌, refl, ◌∙◌, Bool, false, List, [], ◌∷◌, Option, none, some, Text, ℤ, ℕ_eq,
  arith, u64_max, saturating_succ,
}
use secretsd.Proto.ErrCode.{Result, ok, err}
use secretsd.Peer.{PeerIdentity, ProcFs}
use secretsd.Names.SecretName.{SecretName}
use secretsd.Names.Capability.{Capability}
use secretsd.Grants.Token.{Scope}
use secretsd.Requests.{RequestId, sweep_timeouts}
use secretsd.Store.HumanStore.{FileSystem}
use secretsd.Server.State.{State, ActiveDecrypt, Decision, kill_active}
use secretsd.Server.Control.{
  register, register_token, unregister, deny, lock, abort_active, redeem, redeem_as,
  finish_authorization, settle_outcome, mint_receipt,
}
use secretsd.Server.Approval.{
  Access, begin_approval, ask, ask_within, ask_human, poll, poll_state, poll_active, expired_poll,
  resolve_access, with_key,
}
use secretsd.Server.Worker.{
  Job, Decrypted, kill_all, tidy, pick, mark_job, describe_job, decrypt_started, conclude, grant,
  may_insert,
}
use secretsd.Server.Conclude.{conclude-grants}
use secretsd.Server.Step.{
  System, Step, registered, unregistered, denied, locked, redeemed, authorized, resolved, began,
  polled, tidied, picked, started, concluded, Reach, here, next,
}
use secretsd.Server.Invariant.{IsSound, Step-IsSound, Reach-IsSound}

-- The lock epoch of a state is that of another.
abbrev SameEpoch : State → State → Type 0
SameEpoch after state = after.lock_epoch ≡ state.lock_epoch

register-SameEpoch :
    (state : State) (token_hex name : Text) (root : PeerIdentity)
    → SameEpoch (register state token_hex name root).0 state
unfolding register register_token
register-SameEpoch state token_hex name root = ground arith

unregister-SameEpoch : (state : State) (name : Text) → SameEpoch (unregister state name).0 state
unfolding unregister
unregister-SameEpoch state name = refl

deny-SameEpoch : (state : State) (id now : ℕ) → SameEpoch (deny state id now).0 state
unfolding deny kill_active
deny-SameEpoch state id now = ground arith

redeem-SameEpoch :
    (state : State) (receipt_hex expected : Text) (now : ℕ)
    → SameEpoch (redeem state receipt_hex expected now).0 state
unfolding redeem redeem_as
redeem-SameEpoch state receipt_hex expected now = ground arith

finish_authorization-SameEpoch :
    (state : State) (name : Capability) (epoch now : ℕ) (entropy : Option (List (List ℕ)))
    (decision : Decision)
    → SameEpoch (finish_authorization state name epoch now entropy decision).0 state
unfolding finish_authorization settle_outcome mint_receipt
finish_authorization-SameEpoch state name epoch now entropy decision = ground arith

resolve_access-SameEpoch :
    (proc : ProcFs) (state : State) (access : Access) (caller : PeerIdentity)
    → SameEpoch (resolve_access proc state access caller).0 state
unfolding resolve_access with_key
resolve_access-SameEpoch proc state access caller = ground arith

begin_approval-SameEpoch :
    (fs : FileSystem) (state : State) (scope : Scope) (key : SecretName) (force_fresh : Bool)
    (now : ℕ)
    → SameEpoch (begin_approval fs state scope key force_fresh now).0 state
unfolding begin_approval ask ask_within ask_human
begin_approval-SameEpoch fs state scope key force_fresh now = ground arith

poll-SameEpoch :
    (state : State) (source : Text) (id deadline now : ℕ)
    → SameEpoch (poll state source id deadline now).0 state
unfolding poll poll_state poll_active expired_poll kill_active
poll-SameEpoch state source id deadline now = ground arith

kill_all-SameEpoch : (state : State) (ids : List RequestId) → SameEpoch (kill_all state ids) state
unfolding kill_all kill_active
kill_all-SameEpoch state [] = refl
kill_all-SameEpoch state (id ∷ ids) = ground (arith, kill_all-SameEpoch (kill_active state id) ids)

tidy-SameEpoch :
    (exists : Text → Bool) (state : State) (now : ℕ) → SameEpoch (tidy exists state now) state
unfolding tidy
tidy-SameEpoch exists state now =
    kill_all-SameEpoch (record state { queue = (sweep_timeouts state.queue now).0 })
      (sweep_timeouts state.queue now).1

pick-SameEpoch : (state : State) (now : ℕ) → SameEpoch (pick state now).0 state
unfolding pick mark_job describe_job
pick-SameEpoch state now = ground arith

decrypt_started-SameEpoch :
    (state : State) (job : Job) (group : ℤ) → SameEpoch (decrypt_started state job group) state
unfolding decrypt_started
decrypt_started-SameEpoch state job group = ground arith

conclude-SameEpoch :
    (proc : ProcFs) (exists : Text → Bool) (state : State) (job : Job) (result : Result Decrypted)
    (now : ℕ)
    → SameEpoch (conclude proc exists state job result now) state
unfolding conclude grant kill_active
conclude-SameEpoch proc exists state job (ok d) now = ground arith
conclude-SameEpoch proc exists state job (err error) now = ground arith

abort_active-SameEpoch :
    (state : State) (active : Option ActiveDecrypt) (now : ℕ)
    → SameEpoch (abort_active state active now) state
unfolding abort_active
abort_active-SameEpoch state none now = refl
abort_active-SameEpoch state (some active) now = refl

lock-epoch :
    (state : State) (now : ℕ) → (lock state now).0.lock_epoch ≡ saturating_succ state.lock_epoch
unfolding lock
lock-epoch state now = abort_active-SameEpoch _ state.active_decrypt now

-- The lock epoch is a `u64` and at least `k`.
abbrev pub IsPast : ℕ → ℕ → Type 0
IsPast k epoch = (k ≤ epoch) × (epoch ≤ u64_max)

stays : (k : ℕ) {epoch after : ℕ} → after ≡ epoch → IsPast k epoch → IsPast k after
stays k e h = (omega arith, omega arith)

-- No step takes the lock epoch back.
Step-IsPast :
    (k : ℕ) {system after : System}
    → Step system after
    → IsPast k system.state.lock_epoch
    → IsPast k after.state.lock_epoch
Step-IsPast k {system} (registered token_hex name root) h =
    stays k (register-SameEpoch system.state token_hex name root) h
Step-IsPast k {system} (unregistered name) h = stays k (unregister-SameEpoch system.state name) h
Step-IsPast k {system} (denied id now) h = stays k (deny-SameEpoch system.state id now) h
Step-IsPast k {system} (locked now) h = ground (arith, lock-epoch system.state now)
Step-IsPast k {system} (redeemed receipt_hex expected now) h =
    stays k (redeem-SameEpoch system.state receipt_hex expected now) h
Step-IsPast k {system} (authorized name epoch now entropy decision) h =
    stays k (finish_authorization-SameEpoch system.state name epoch now entropy decision) h
Step-IsPast k {system} (resolved proc access caller) h =
    stays k (resolve_access-SameEpoch proc system.state access caller) h
Step-IsPast k {system} (began fs scope key force_fresh now room) h =
    stays k (begin_approval-SameEpoch fs system.state scope key force_fresh now) h
Step-IsPast k {system} (polled source id deadline now) h =
    stays k (poll-SameEpoch system.state source id deadline now) h
Step-IsPast k {system} (tidied exists now) h = stays k (tidy-SameEpoch exists system.state now) h
Step-IsPast k {system} (picked now idle) h = stays k (pick-SameEpoch system.state now) h
Step-IsPast k {system} (started job group e) h =
    stays k (decrypt_started-SameEpoch system.state job group) h
Step-IsPast k {system} (concluded proc exists job result now e) h =
    stays k (conclude-SameEpoch proc exists system.state job result now) h

Reach-IsPast :
    (k : ℕ) {system last : System}
    → Reach system last
    → IsPast k system.state.lock_epoch
    → IsPast k last.state.lock_epoch
Reach-IsPast k here h = h
Reach-IsPast k (next r st) h = Step-IsPast k st (Reach-IsPast k r h)

-- The daemon right after a lock.
abbrev pub after_lock : System → ℕ → System
after_lock system now = record system { state = (lock system.state now).0 }

-- After a lock the epoch is greater than before, for good.
past_lock :
    (system : System) {last : System} (now : ℕ)
    → system.state.lock_epoch < u64_max
    → Reach (after_lock system now) last
    → system.state.lock_epoch < last.state.lock_epoch
past_lock system {last} now room steps =
    let h : IsPast (suc system.state.lock_epoch) (lock system.state now).0.lock_epoch =
      ground (arith, lock-epoch system.state now) in
    (Reach-IsPast (suc system.state.lock_epoch) steps h).0

stale_refused :
    (proc : ProcFs) (exists : Text → Bool) (state : State) (job : Job)
    → job.lock_epoch < state.lock_epoch
    → may_insert proc exists state job ≡ false
unfolding may_insert
stale_refused proc exists state job h = ground arith

mint_refused :
    (state : State) (name : Capability) (epoch now : ℕ) (entropy : Option (List (List ℕ)))
    (decision : Decision)
    → epoch < state.lock_epoch
    → ((finish_authorization state name epoch now entropy decision).0.receipts ≡ state.receipts)
unfolding finish_authorization settle_outcome mint_receipt
mint_refused state name epoch now entropy decision h = ground arith

-- A lock is final for what was in flight, in a sound system whose lock epoch is below 2^64 - 1.
-- Whatever steps follow the lock, a decrypt whose job was taken at the epoch before it or an
-- earlier one inserts no grant, however its request stands, and an authorization that began at
-- such an epoch mints no receipt.
pub lock_final :
    (system : System) {last : System} (now later : ℕ) (proc : ProcFs) (exists : Text → Bool)
    (job : Job) (d : Decrypted) (name : Capability) (epoch : ℕ) (entropy : Option (List (List ℕ)))
    (decision : Decision)
    → IsSound system
    → system.state.lock_epoch < u64_max
    → Reach (after_lock system now) last
    → job.lock_epoch ≤ system.state.lock_epoch
    → epoch ≤ system.state.lock_epoch
    → ((conclude proc exists last.state job (ok d) later).grants ≡ last.state.grants)
      × ((finish_authorization last.state name epoch later entropy decision).0.receipts
          ≡ last.state.receipts)
lock_final system {last} now later proc exists job d name epoch entropy decision v room steps old
      early =
    let past = past_lock system now room steps in
    let sound = Reach-IsSound (Step-IsSound (locked now) v) steps in
    (
      (conclude-grants proc exists last.state job later sound.valid.ordered).0 d
          ∙ rw (stale_refused proc exists last.state job (omega arith)) refl,
      mint_refused last.state name epoch later entropy decision (omega arith),
    )

-- The process group of the decrypt in flight.
abbrev pub groups : Option ActiveDecrypt → List ℤ
groups none = []
groups (some active) = active.process_group ∷ []
