-- ===== src/Server/Finished.antt =====
-- When the last decrypt ended: `last_finished` of the queue, over the steps of the daemon's threads.
use secretsd.Base.{
  Text, Bool, ℕ, ◌≤◌, ◌≡◌, refl, ◌⊎◌, inl, inr, ◌∙◌, ap, List, [], ◌∷◌, Option, none, some, arith,
  Option-cases,
}
use secretsd.Proto.ErrCode.{Result, ok, err}
use secretsd.Peer.{ProcFs}
use secretsd.Names.SecretName.{SecretName}
use secretsd.Grants.Token.{Scope}
use secretsd.Requests.{
  Queue, RequestId, RequestState, finish, finish_all, enqueue, enqueue_new, existing, add_request,
  mark_decrypting, start, next_ready, complete, fail, retire, timeout, deny, sweep_timeouts,
  overdue_ids, prune, timed_out,
}
use secretsd.Server.State.{State, ActiveDecrypt}
use secretsd.Server.Control.{lock, abort_active}
use secretsd.Server.Worker.{Job, Decrypted, tidy, pick, mark_job, conclude, settle}
use secretsd.Store.HumanStore.{FileSystem}
use secretsd.Server.Approval.{begin_approval, poll}
use secretsd.Server.Step.{
  System, Step, registered, unregistered, denied, locked, redeemed, authorized, resolved, began,
  polled, tidied, picked, started, concluded, Reach, here, next,
}
use secretsd.Server.Calls.{
  register-queue, redeem-queue, finish_authorization-queue, deny-queue, unregister-queue,
  begin_approval-queue, poll-queue, tidy-queue, resolve_access-queue, decrypt_started-queue,
  mark_job-queue, grant-queue,
}

-- A decrypt has ended at the earliest at `lo`, and the last one at the latest at `hi`.
abbrev pub IsRecent : ℕ → ℕ → Option ℕ → Type 0
IsRecent lo hi last_finished = (last : ℕ) × (last_finished ≡ some last) × (lo ≤ last) × (last ≤ hi)

-- The clock reads no less than `lo` and no more than `hi`.
abbrev pub Reads : ℕ → ℕ → ℕ → Type 0
Reads lo hi now = (lo ≤ now) × (now ≤ hi)

-- What a call of the queue makes of `last_finished`.
abbrev Finishes : ℕ → Queue → Queue → Type 0
Finishes now queue after =
    (after.last_finished ≡ queue.last_finished) ⊎ (after.last_finished ≡ some now)

recent :
    (lo hi now : ℕ) {before after : Option ℕ}
    → (after ≡ before) ⊎ (after ≡ some now)
    → Reads lo hi now
    → IsRecent lo hi before
    → IsRecent lo hi after
recent lo hi now (inl same) reads (last, e, l, h) = (last, same ∙ e, l, h)
recent lo hi now (inr made) reads r = (now, made, reads.0, reads.1)

kept :
    (lo hi : ℕ) {queue after : Queue}
    → after ≡ queue
    → IsRecent lo hi queue.last_finished
    → IsRecent lo hi after.last_finished
kept lo hi same (last, e, l, h) = (last, ap (λ q. q.last_finished) same ∙ e, l, h)

enqueue-Finishes :
    (queue : Queue) (scope : Scope) (key : SecretName) (now : ℕ)
    → (enqueue queue scope key now).0.last_finished ≡ queue.last_finished
unfolding enqueue enqueue_new existing add_request
enqueue-Finishes queue scope key now = ground arith

mark_decrypting-Finishes :
    (queue : Queue) (id now : ℕ)
    → (mark_decrypting queue id now).0.last_finished ≡ queue.last_finished
unfolding mark_decrypting start
mark_decrypting-Finishes queue id now = ground arith

retire-Finishes :
    (queue : Queue) (id : RequestId) (state : RequestState) (now : ℕ)
    → Finishes now queue (retire queue id state now).0
unfolding retire finish
retire-Finishes queue id state now = ground arith

finish_all-Finishes :
    (queue : Queue) (ids : List RequestId) (now : ℕ) → Finishes now queue (finish_all queue ids now)
unfolding finish_all finish
finish_all-Finishes queue [] now = inl refl
finish_all-Finishes queue (id ∷ ids) now =
    elim (finish_all-Finishes (finish queue id now) ids now) [
      | inl same ↦ inr same
      | inr made ↦ inr made
    ]

fail-Finishes : (queue : Queue) (id now : ℕ) → (fail queue id now).last_finished ≡ some now
unfolding fail finish
fail-Finishes queue id now = refl

complete-Finishes :
    (queue : Queue) (id generation now : ℕ)
    → (complete queue id generation now).0.last_finished ≡ some now
unfolding complete finish
complete-Finishes queue id generation now = refl

-- A decrypt that the worker concludes has ended then, whatever came of it.
pub conclude-last_finished :
    (proc : ProcFs) (exists : Text → Bool) (state : State) (job : Job) (result : Result Decrypted)
    (now : ℕ)
    → (conclude proc exists state job result now).queue.last_finished ≡ some now
unfolding conclude
conclude-last_finished proc exists state job (ok d) now =
    let after = secretsd.Server.State.kill_active state job.id in
    ap (λ q. q.last_finished) (grant-queue proc exists after job d now)
    ∙ complete-Finishes (settle proc exists after job now) job.id job.generation now
conclude-last_finished proc exists state job (err error) now = fail-Finishes _ job.id now

abort_active-Finishes :
    (state : State) (active : Option ActiveDecrypt) (now : ℕ)
    → Finishes now state.queue (abort_active state active now).queue
unfolding abort_active deny
abort_active-Finishes state none now = inl refl
abort_active-Finishes state (some active) now =
    retire-Finishes state.queue active.id secretsd.Requests.denied now

lock-Finishes : (state : State) (now : ℕ) → Finishes now state.queue (lock state now).0.queue
unfolding lock
lock-Finishes state now = abort_active-Finishes _ state.active_decrypt now

deny-Finishes :
    (state : State) (id now : ℕ)
    → Finishes now state.queue (secretsd.Server.Control.deny state id now).0.queue
unfolding deny
deny-Finishes state id now =
    rw (deny-queue state id now) (retire-Finishes state.queue id secretsd.Requests.denied now)

begin_approval-Finishes :
    (fs : FileSystem) (state : State) (scope : Scope) (key : SecretName) (force_fresh : Bool)
    (now : ℕ)
    → (begin_approval fs state scope key force_fresh now).0.queue.last_finished
      ≡ state.queue.last_finished
begin_approval-Finishes fs state scope key force_fresh now =
    elim (begin_approval-queue fs state scope key force_fresh now) [
      | inl same ↦ ap (λ q. q.last_finished) same
      | inr made ↦ ap (λ q. q.last_finished) made ∙ enqueue-Finishes state.queue scope key now
    ]

poll-Finishes :
    (state : State) (source : Text) (id : RequestId) (deadline now : ℕ)
    → Finishes now state.queue (poll state source id deadline now).0.queue
unfolding timeout
poll-Finishes state source id deadline now = elim (poll-queue state source id deadline now) [
  | inl same ↦ inl (ap (λ q. q.last_finished) same)
  | inr made ↦ rw made (retire-Finishes state.queue id timed_out now)
]

tidy-Finishes :
    (exists : Text → Bool) (state : State) (now : ℕ)
    → Finishes now state.queue (tidy exists state now).queue
unfolding sweep_timeouts prune
tidy-Finishes exists state now =
    rw (tidy-queue exists state now)
      (finish_all-Finishes _ (overdue_ids state.queue.limits.ttl now state.queue.requests) now)

mark_job-Finishes :
    (state : State) (id now : ℕ) → Finishes now state.queue (mark_job state id now).0.queue
mark_job-Finishes state id now = elim (mark_job-queue state id now) [
  | inl e ↦ inl (ap (λ q. q.last_finished) e ∙ mark_decrypting-Finishes state.queue id now)
  | inr e ↦
      inr
        (ap (λ q. q.last_finished) e ∙ fail-Finishes (mark_decrypting state.queue id now).0 id now)
]

pick-Finishes : (state : State) (now : ℕ) → Finishes now state.queue (pick state now).0.queue
unfolding pick
pick-Finishes state now = elim (Option-cases (next_ready state.queue now)) [
  | inl e ↦ rw (e, pick) (inl refl)
  | inr (id, e) ↦ rw (e, pick) (mark_job-Finishes state id now)
]

-- The clock reads no less than `lo` and no more than `hi` in a step.
abbrev pub IsWithin : ℕ → ℕ → {system after : System} → Step system after → Type 0
IsWithin lo hi (registered token_hex session_id root) = Unit
IsWithin lo hi (unregistered session_id) = Unit
IsWithin lo hi (denied id now) = Reads lo hi now
IsWithin lo hi (locked now) = Reads lo hi now
IsWithin lo hi (redeemed receipt_hex expected now) = Reads lo hi now
IsWithin lo hi (authorized name epoch now entropy decision) = Reads lo hi now
IsWithin lo hi (resolved proc access caller) = Unit
IsWithin lo hi (began fs scope key force_fresh now room) = Reads lo hi now
IsWithin lo hi (polled source id deadline now) = Reads lo hi now
IsWithin lo hi (tidied exists now) = Reads lo hi now
IsWithin lo hi (picked now idle) = Reads lo hi now
IsWithin lo hi (started job group e) = Unit
IsWithin lo hi (concluded proc exists job result now e) = Reads lo hi now

abbrev pub AreWithin : ℕ → ℕ → {system last : System} → Reach system last → Type 0
AreWithin lo hi here = Unit
AreWithin lo hi (next steps step) = AreWithin lo hi steps × IsWithin lo hi step

Step-IsRecent :
    (lo hi : ℕ) {system after : System} (step : Step system after)
    → IsWithin lo hi step
    → IsRecent lo hi system.state.queue.last_finished
    → IsRecent lo hi after.state.queue.last_finished
Step-IsRecent lo hi {system} (registered token_hex session_id root) within r =
    kept lo hi (register-queue system.state token_hex session_id root) r
Step-IsRecent lo hi {system} (unregistered session_id) within r =
    kept lo hi (unregister-queue system.state session_id) r
Step-IsRecent lo hi {system} (denied id now) within r =
    recent lo hi now (deny-Finishes system.state id now) within r
Step-IsRecent lo hi {system} (locked now) within r =
    recent lo hi now (lock-Finishes system.state now) within r
Step-IsRecent lo hi {system} (redeemed receipt_hex expected now) within r =
    kept lo hi (redeem-queue system.state receipt_hex expected now) r
Step-IsRecent lo hi {system} (authorized name epoch now entropy decision) within r =
    kept lo hi (finish_authorization-queue system.state name epoch now entropy decision) r
Step-IsRecent lo hi {system} (resolved proc access caller) within r =
    kept lo hi (resolve_access-queue proc system.state access caller) r
Step-IsRecent lo hi {system} (began fs scope key force_fresh now room) within r =
    recent lo hi now (inl (begin_approval-Finishes fs system.state scope key force_fresh now))
      within r
Step-IsRecent lo hi {system} (polled source id deadline now) within r =
    recent lo hi now (poll-Finishes system.state source id deadline now) within r
Step-IsRecent lo hi {system} (tidied exists now) within r =
    recent lo hi now (tidy-Finishes exists system.state now) within r
Step-IsRecent lo hi {system} (picked now idle) within r =
    recent lo hi now (pick-Finishes system.state now) within r
Step-IsRecent lo hi {system} (started job group e) within r =
    kept lo hi (decrypt_started-queue system.state job group) r
Step-IsRecent lo hi {system} (concluded proc exists job result now e) within r =
    recent lo hi now (inr (conclude-last_finished proc exists system.state job result now)) within r

-- While the clock runs on from `lo` to `hi`, the last decrypt has ended no earlier than `lo` and no
-- later than `hi`, once one has.
pub Reach-IsRecent :
    (lo hi : ℕ) {system last : System} (steps : Reach system last)
    → AreWithin lo hi steps
    → IsRecent lo hi system.state.queue.last_finished
    → IsRecent lo hi last.state.queue.last_finished
Reach-IsRecent lo hi here within r = r
Reach-IsRecent lo hi (next steps step) within r =
    Step-IsRecent lo hi step within.1 (Reach-IsRecent lo hi steps within.0 r)
