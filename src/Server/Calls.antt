-- ===== src/Server/Calls.antt =====
-- What the daemon's operations do to the approval queue: each makes a few calls of it, or none.
use secretsd.Base.{
  ℕ, ◌≡◌, refl, sym, ◌∙◌, ap, Bool, List, [], ◌∷◌, Option, none, some, Text, ℤ, saturating_succ,
  arith, ◌⊎◌, inl, inr, Option-cases, ℕ_eq,
}
use mathlib.Core.Path.{subst}
use secretsd.Proto.ErrCode.{Result, ok, err}
use secretsd.Peer.{PeerIdentity, ProcFs}
use secretsd.Names.SecretName.{SecretName}
use secretsd.Names.Capability.{Capability}
use secretsd.Grants.Token.{Scope}
use secretsd.Grants.Table.{revoke_all}
use secretsd.Receipts.{clear}
use secretsd.Requests.{
  Queue, RequestId, RequestState, pending, decrypting, granted, denied, timed_out, failed, state_of,
  sweep_timeouts, next_ready, mark_decrypting,
}
use secretsd.Requests.Ids.{IsOrdered}
use secretsd.Requests.Fit.{IsFit, IsFit-FitsGeneration, Reach-IsFit, mark_decrypting-IsFit}
use secretsd.Requests.Step.{Step, marked, completed, failed_with, refused, Reach, here, next}
use secretsd.Store.HumanStore.{FileSystem}
use secretsd.Server.State.{State, ActiveDecrypt, Decision, kill_active}
use secretsd.Server.Control.{
  register_token, register, unregister, deny, lock, abort_active, redeem_as, redeem, mint_receipt,
  finish_authorization, settle_outcome,
}
use secretsd.Server.Approval.{
  Access, resolve_access, begin_approval, ask, ask_within, ask_human, poll, poll_state, poll_active,
  expired_poll, with_key,
}
use secretsd.Server.Worker.{
  Job, Decrypted, kill_all, tidy, pick, mark_job, describe_job, decrypt_started, conclude, grant,
  settle,
}

pub kill_active-queue :
    (state : State) (id : RequestId) → (kill_active state id).queue ≡ state.queue
unfolding kill_active
kill_active-queue state id = ground arith

pub register-queue :
    (state : State) (token_hex session_id : Text) (root : PeerIdentity)
    → (register state token_hex session_id root).0.queue ≡ state.queue
unfolding register register_token
register-queue state token_hex session_id root = ground arith

pub redeem-queue :
    (state : State) (receipt_hex expected : Text) (now : ℕ)
    → (redeem state receipt_hex expected now).0.queue ≡ state.queue
unfolding redeem redeem_as
redeem-queue state receipt_hex expected now = ground arith

pub finish_authorization-queue :
    (state : State) (name : Capability) (epoch now : ℕ) (entropy : Option (List (List ℕ)))
    (decision : Decision)
    → (finish_authorization state name epoch now entropy decision).0.queue ≡ state.queue
unfolding finish_authorization settle_outcome mint_receipt
finish_authorization-queue state name epoch now entropy decision = ground arith

pub stay : {queue after : Queue} → after ≡ queue → Reach queue after
stay {queue} e = subst (λ q. Reach queue q) (sym e) here

pub once : {queue last after : Queue} → after ≡ last → Step queue last → Reach queue after
once {queue} e step = subst (λ q. Reach queue q) (sym e) (next here step)

pub either :
    {queue last after : Queue}
    → (after ≡ queue) ⊎ (after ≡ last)
    → Step queue last
    → Reach queue after
either (inl same) step = stay same
either (inr made) step = once made step

pub deny-queue :
    (state : State) (id now : ℕ)
    → (deny state id now).0.queue ≡ (secretsd.Requests.deny state.queue id now).0
unfolding deny kill_active
deny-queue state id now = ground arith

pub abort-calls :
    (state : State) (active : Option ActiveDecrypt) (now : ℕ)
    → Reach state.queue (abort_active state active now).queue
unfolding abort_active
abort-calls state none now = here
abort-calls state (some active) now = next here (refused active.id now)

pub begin_approval-queue :
    (fs : FileSystem) (state : State) (scope : Scope) (key : SecretName) (force_fresh : Bool)
    (now : ℕ)
    → ((begin_approval fs state scope key force_fresh now).0.queue ≡ state.queue)
      ⊎ ((begin_approval fs state scope key force_fresh now).0.queue
          ≡ (secretsd.Requests.enqueue state.queue scope key now).0)
unfolding begin_approval ask ask_within ask_human
begin_approval-queue fs state scope key force_fresh now = ground arith

pub poll-queue :
    (state : State) (source : Text) (id : RequestId) (deadline now : ℕ)
    → ((poll state source id deadline now).0.queue ≡ state.queue)
      ⊎ ((poll state source id deadline now).0.queue
          ≡ (secretsd.Requests.timeout state.queue id now).0)
unfolding poll poll_state poll_active expired_poll kill_active
poll-queue state source id deadline now = ground arith

pub kill_all-queue :
    (state : State) (ids : List RequestId) → (kill_all state ids).queue ≡ state.queue
unfolding kill_all
kill_all-queue state [] = refl
kill_all-queue state (id ∷ ids) =
    kill_all-queue (kill_active state id) ids ∙ kill_active-queue state id

pub tidy-queue :
    (exists : Text → Bool) (state : State) (now : ℕ)
    → (tidy exists state now).queue ≡ secretsd.Requests.prune (sweep_timeouts state.queue now).0 now
unfolding tidy
tidy-queue exists state now =
    ap (λ q. secretsd.Requests.prune q now) (kill_all-queue _ (sweep_timeouts state.queue now).1)

pub resolve_access-queue :
    (proc : ProcFs) (state : State) (access : Access) (caller : PeerIdentity)
    → (resolve_access proc state access caller).0.queue ≡ state.queue
unfolding resolve_access with_key
resolve_access-queue proc state access caller = ground arith

pub decrypt_started-queue :
    (state : State) (job : Job) (group : ℤ) → (decrypt_started state job group).queue ≡ state.queue
unfolding decrypt_started
decrypt_started-queue state job group = ground arith

pub mark_job-queue :
    (state : State) (id now : ℕ)
    → ((mark_job state id now).0.queue ≡ (mark_decrypting state.queue id now).0)
      ⊎ ((mark_job state id now).0.queue
          ≡ secretsd.Requests.fail (mark_decrypting state.queue id now).0 id now)
unfolding mark_job describe_job
mark_job-queue state id now = ground arith

pub mark_job-calls :
    (state : State) (id now : ℕ) → Reach state.queue (mark_job state id now).0.queue
mark_job-calls state id now = elim (mark_job-queue state id now) [
  | inl e ↦ once e (marked id now)
  | inr e ↦
      subst (λ q. Reach state.queue q) (sym e)
        (next (next here (marked id now)) (failed_with id now))
]

pub pick-calls : (state : State) (now : ℕ) → Reach state.queue (pick state now).0.queue
unfolding pick
pick-calls state now = elim (Option-cases (next_ready state.queue now)) [
  | inl e ↦ rw (e, pick) here
  | inr (id, e) ↦ rw (e, pick) (mark_job-calls state id now)
]

pub mark_job-some :
    (state : State) (id now : ℕ) (job : Job)
    → (mark_job state id now).1 ≡ some job
    → ((mark_decrypting state.queue id now).1 ≡ some job.generation)
      × (job.id ≡ id)
      × (job.lock_epoch ≡ state.lock_epoch)
      × ((mark_job state id now).0.queue ≡ (mark_decrypting state.queue id now).0)
unfolding mark_job describe_job
mark_job-some state id now job h = ground arith

pub mark_job-IsFit :
    (state : State) (id now : ℕ) (job : Job)
    → IsOrdered state.queue
    → (mark_job state id now).1 ≡ some job
    → IsFit job.id job.generation (mark_job state id now).0.queue
      × (job.lock_epoch ≡ state.lock_epoch)
mark_job-IsFit state id now job o h =
    let (made, same, epoch, queue) = mark_job-some state id now job h in
    (rw (queue, same) (mark_decrypting-IsFit state.queue id now job.generation o made), epoch)

-- The job that `pick` takes has the generation of its request, and the lock epoch of the time.
pub pick-IsFit :
    (state : State) (now : ℕ) (job : Job)
    → IsOrdered state.queue
    → (pick state now).1 ≡ some job
    → IsFit job.id job.generation (pick state now).0.queue × (job.lock_epoch ≡ state.lock_epoch)
unfolding pick
pick-IsFit state now job o h = elim (Option-cases (next_ready state.queue now)) [
  | inl e ↦ absurd (ground arith)
  | inr (id, e) ↦ rw (e, pick) (mark_job-IsFit state id now job o (ground arith))
]

pub settle-queue :
    (proc : ProcFs) (exists : Text → Bool) (state : State) (job : Job) (now : ℕ)
    → (settle proc exists state job now ≡ state.queue)
      ⊎ (settle proc exists state job now ≡ (secretsd.Requests.deny state.queue job.id now).0)
unfolding settle
settle-queue proc exists state job now = ground arith

pub settle-calls :
    (proc : ProcFs) (exists : Text → Bool) (state : State) (job : Job) (now : ℕ)
    → Reach state.queue (settle proc exists state job now)
settle-calls proc exists state job now =
    either (settle-queue proc exists state job now) (refused job.id now)

pub grant-queue :
    (proc : ProcFs) (exists : Text → Bool) (state : State) (job : Job) (d : Decrypted) (now : ℕ)
    → (grant proc exists state job d now).queue
      ≡ (secretsd.Requests.complete (settle proc exists state job now) job.id job.generation now).0
unfolding grant
grant-queue proc exists state job d now = ground arith

pub grant-calls :
    (proc : ProcFs) (exists : Text → Bool) (state : State) (job : Job) (d : Decrypted) (now : ℕ)
    → IsFit job.id job.generation state.queue
    → Reach state.queue (grant proc exists state job d now).queue
grant-calls proc exists state job d now fit =
    let settled = settle-calls proc exists state job now in
    let fits =
      IsFit-FitsGeneration job.id job.generation (settle proc exists state job now)
        (Reach-IsFit job.id job.generation fit settled) in
    subst (λ q. Reach state.queue q) (sym (grant-queue proc exists state job d now))
      (next settled (completed job.id job.generation now fits))

pub conclude-calls :
    (proc : ProcFs) (exists : Text → Bool) (state : State) (job : Job) (result : Result Decrypted)
    (now : ℕ)
    → IsFit job.id job.generation state.queue
    → Reach state.queue (conclude proc exists state job result now).queue
unfolding conclude
conclude-calls proc exists state job (ok d) now fit =
    subst (λ q. Reach q (grant proc exists (kill_active state job.id) job d now).queue)
      (kill_active-queue state job.id)
      (grant-calls proc exists (kill_active state job.id) job d now
        (subst (λ q. IsFit job.id job.generation q) (sym (kill_active-queue state job.id)) fit))
conclude-calls proc exists state job (err error) now fit =
    rw (kill_active-queue state job.id) (next here (failed_with job.id now))

pub unregister-queue :
    (state : State) (session_id : Text) → (unregister state session_id).0.queue ≡ state.queue
unfolding unregister
unregister-queue state session_id = refl

pub lock-calls : (state : State) (now : ℕ) → Reach state.queue (lock state now).0.queue
unfolding lock
lock-calls state now =
    abort-calls
      (record state {
        grants = revoke_all state.grants;
        receipts = clear state.receipts;
        lock_epoch = saturating_succ state.lock_epoch;
      })
      state.active_decrypt now
