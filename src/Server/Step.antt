-- ===== src/Server/Step.antt =====
-- The daemon as a state machine: what its threads do, one acquisition of the lock after the other,
-- in any order. `job` is what the worker of src/server/worker.rs has taken and not yet concluded.
use secretsd.Base.{ℕ, ◌<◌, ◌≡◌, Bool, List, Option, none, some, Text, ℤ, u64_max}
use secretsd.Proto.ErrCode.{Result}
use secretsd.Peer.{PeerIdentity, ProcFs}
use secretsd.Names.SecretName.{SecretName}
use secretsd.Names.Capability.{Capability}
use secretsd.Grants.Token.{Scope}
use secretsd.Requests.{RequestId}
use secretsd.Store.HumanStore.{FileSystem}
use secretsd.Server.State.{State, Decision}
use secretsd.Server.Control.{register, unregister, deny, lock, redeem, finish_authorization}
use secretsd.Server.Approval.{Access, resolve_access, begin_approval, poll}
use secretsd.Server.Worker.{Job, Decrypted, tidy, pick, decrypt_started, conclude}

pub record System : Type 0 where
  pub state : State
  pub job : Option Job

-- The worker takes a job when it has none.
abbrev pub took : State × Option Job → System
took (state, job) = record { state = state; job = job }

-- What `/proc`, the file system and the device directory hold may differ from step to step. Fewer
-- than 2^64 - 1 requests have been queued when another one is.
pub data Step (system : System) : System → Type 0 where
  registered :
      (token_hex session_id : Text) (root : PeerIdentity)
      → Step system (record system { state = (register system.state token_hex session_id root).0 })
  unregistered :
      (session_id : Text)
      → Step system (record system { state = (unregister system.state session_id).0 })
  denied : (id now : ℕ) → Step system (record system { state = (deny system.state id now).0 })
  locked : (now : ℕ) → Step system (record system { state = (lock system.state now).0 })
  redeemed :
      (receipt_hex expected : Text) (now : ℕ)
      → Step system (record system { state = (redeem system.state receipt_hex expected now).0 })
  authorized :
      (name : Capability) (epoch now : ℕ) (entropy : Option (List (List ℕ))) (decision : Decision)
      → Step system (record system {
        state = (finish_authorization system.state name epoch now entropy decision).0;
      })
  resolved :
      (proc : ProcFs) (access : Access) (caller : PeerIdentity)
      → Step system (record system { state = (resolve_access proc system.state access caller).0 })
  began :
      (fs : FileSystem) (scope : Scope) (key : SecretName) (force_fresh : Bool) (now : ℕ)
      → system.state.queue.next_id < u64_max
      → Step system
          (record system { state = (begin_approval fs system.state scope key force_fresh now).0 })
  polled :
      (source : Text) (id : RequestId) (deadline now : ℕ)
      → Step system (record system { state = (poll system.state source id deadline now).0 })
  tidied :
      (exists : Text → Bool) (now : ℕ)
      → Step system (record system { state = tidy exists system.state now })
  picked : (now : ℕ) → system.job ≡ none → Step system (took (pick system.state now))
  started :
      (job : Job) (process_group : ℤ)
      → system.job ≡ some job
      → Step system (record system { state = decrypt_started system.state job process_group })
  concluded :
      (proc : ProcFs) (exists : Text → Bool) (job : Job) (result : Result Decrypted) (now : ℕ)
      → system.job ≡ some job
      → Step system
          (record { state = conclude proc exists system.state job result now; job = none })

pub data Reach (system : System) : System → Type 0 where
  here : Reach system system
  next : {middle last : System} → Reach system middle → Step middle last → Reach system last
